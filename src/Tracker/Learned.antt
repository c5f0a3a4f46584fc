-- ===== src/Tracker/Learned.antt =====
-- What a subclass has learned of an entry after each kind of event.
use networking_bagpipe_l.Common.{
  ◌≡◌, refl, Bool, true, false, ◌||◌, Option, none, some, List, [], ◌∷◌, Ordering, arith, eqb,
  contains, contains-discard, discard, remove_first, Bool-cases, inl, inr, ap,
}
use networking_bagpipe_l.Tracker.Base.{
  Tracking, selective_best_route_removed, call_new_best_route_for_routes, recompute_best_routes,
}
use networking_bagpipe_l.Tracker.Handler.{
  Slot, place_again, finish, advertise_to, drop_replaced, on_advertise, withdraw_best, on_withdraw,
}
use networking_bagpipe_l.Tracker.Top.{IsTop}
use networking_bagpipe_l.Tracker.Calls.{
  names, hear_all, hear_all-append, hear-call_new_best_route_for_routes,
  hear-selective_best_route_removed, names-discard, names-discard_le, names-one, names-nil,
}
use networking_bagpipe_l.Tracker.Withdraw.{routes_of}
use networking_bagpipe_l.Tracker.Known.{Knows, Bounded, hear-finish, hear-one}

module _ (t : Tracking) where
  open t use {
    Route, route_discrete, Filtered, filtered_discrete, filtered, Entry, entry_discrete,
    compare_routes, first, first-contains,
  }

  discard-absent :
      (q : Route) (l : List Route)
      → contains route_discrete q l ≡ false
      → discard route_discrete q l ≡ l
  unfolding discard contains
  discard-absent q [] h = refl
  discard-absent q (a ∷ l) h = ground (arith, discard-absent q l)

  module _ (e entry : Entry) (f : Filtered) (k : Filtered → Bool) where
    -- the subclass knows the best routes of the entry
    abbrev pub Learned : List Route → Type 0
    Learned best = eqb entry_discrete e entry ≡ true → k f ≡ names t best f

    drop_replaced-bounds :
        (all best : List Route) (replaced : Option Route)
        → let d = drop_replaced t all best replaced in
          (names t best f ≡ true → (names t d.best_routes f || names t d.withdrawn f) ≡ true)
          × (names t d.best_routes f ≡ true → names t best f ≡ true)
    unfolding drop_replaced
    drop_replaced-bounds all best none = (λ h. ground arith, λ h. h)
    drop_replaced-bounds all best (some q) = elim (Bool-cases (contains route_discrete q best)) [
      | inl there ↦ rw there (
        λ h. ground (arith, names-discard t q best f, names-one t q f),
        λ h. names-discard_le t q best f h,
      )
      | inr absent ↦ rw (absent, discard-absent q best absent) (λ h. ground arith, λ h. h)
    ]

    hear-place_again :
        (route : Route) (s : Slot t) (best : List Route)
        → s.calls ≡ []
        → (eqb entry_discrete e entry ≡ true → k f ≡ true → names t s.withdrawn f ≡ true)
        → let s' = finish t entry route (place_again t entry route s best) in
          Knows t e entry f k s'.calls s'.best_routes
    unfolding place_again
    hear-place_again route s [] c upper =
        hear-finish t e entry f k route false (record s { best_routes = [] }) Ordering.gt
          (λ h h'. ground (arith, upper h h')) (λ h n m. ground (arith, names-nil t f))
    hear-place_again route s (b ∷ best) c upper =
        hear-finish t e entry f k route true (record s { best_routes = b ∷ best })
          (compare_routes route (first b best)) (λ h h'. ground (arith, upper h h'))
          (λ h n. ground arith)

    hear-advertise_to :
        (route : Route) (s : Slot t) (best : List Route)
        → s.best_routes ≡ best
        → s.calls ≡ []
        → contains route_discrete route best ≡ false
        → (eqb entry_discrete e entry ≡ true → Bounded t e entry f k s)
        → (eqb entry_discrete e entry ≡ true → names t s.best_routes f ≡ true → k f ≡ true)
        → let s' = advertise_to t entry route s best in Knows t e entry f k s'.calls s'.best_routes
    unfolding advertise_to names contains
    hear-advertise_to route s [] same c new upper lower =
        hear-place_again route s (recompute_best_routes t s.all_routes) c
          (λ h h'. ground (arith, upper h h', same))
    hear-advertise_to route s (b ∷ best) same c new upper lower =
        let other : eqb route_discrete route (first b best) ≡ false =
          ground (arith, first-contains b best, new) in
        rw other (
          hear-finish t e entry f k route false s (compare_routes route (first b best)) upper
            (λ h n. lower h))

    drop_replaced-rest :
        (all best : List Route) (replaced : Option Route) (r : Route)
        → contains route_discrete r best ≡ false
        → let d = drop_replaced t all best replaced in
          (d.calls ≡ []) × (contains route_discrete r d.best_routes ≡ false)
    unfolding drop_replaced
    drop_replaced-rest all best none r h = (refl, h)
    drop_replaced-rest all best (some q) r h =
        (refl, ground (arith, contains-discard route_discrete r q best))

    -- If the best routes are those of the top rank, a subclass that knows the best routes of the
    -- entry knows the new ones after the calls that an ADVERTISE of an unknown route makes; what it knows of other entries stays.
    pub on_advertise-Knows :
        (route : Route) (replaced : Option Route) (all best : List Route)
        → contains route_discrete route all ≡ false
        → IsTop t best all
        → Learned best
        → let (all', best', calls) = on_advertise t entry route replaced all (some best) in
          Knows t e entry f k calls best'
    unfolding on_advertise
    on_advertise-Knows route replaced all best new top learned =
        let s = drop_replaced t all best replaced in
        let (upper, lower) = drop_replaced-bounds all best replaced in
        let (calls, absent) =
          drop_replaced-rest all best replaced route (ground (arith, top route)) in
        hear-advertise_to route s s.best_routes refl calls absent
          (λ h h'. upper (ground (arith, learned h))) (λ h h'. ground (arith, learned h, lower h'))

    -- the same for the first route of an entry
    pub on_advertise-Knows_first :
        (route : Route) (replaced : Option Route) (all : List Route)
        → Learned []
        → let (all', best', calls) = on_advertise t entry route replaced all none in
          Knows t e entry f k calls best'
    unfolding on_advertise
    on_advertise-Knows_first route replaced all learned = ground (
      arith,
      hear-one t e entry f k (filtered route),
      names-one t route f,
      names-nil t f,
      learned,
    )

    withdraw_best-Knows :
        (route : Route) (all best left : List Route)
        → discard route_discrete route best ≡ left
        → Learned best
        → let (all', best', calls) = withdraw_best t entry route all left in
          Knows t e entry f k calls (routes_of t best')
    unfolding withdraw_best
    withdraw_best-Knows route all best [] h learned = from (recompute_best_routes t all) refl
      where
        from :
            (l : List Route)
            → recompute_best_routes t all ≡ l
            → let (all', best', calls) = withdraw_best t entry route all [] in
              Knows t e entry f k calls (routes_of t best')
        from [] again =
            rw (again, withdraw_best)
              (ground (
                arith,
                hear-selective_best_route_removed t e entry f k route [] true,
                names-discard t route best f,
                names-nil t f,
                learned,
              ))
        from (b ∷ l) again =
            let calls = call_new_best_route_for_routes t entry (b ∷ l) in
            rw (again, withdraw_best)
              (ground (
                arith,
                ap (λ (g : Filtered → Bool). g f)
                    (hear_all-append t e k calls
                      (selective_best_route_removed t entry route (b ∷ l) false)),
                hear-selective_best_route_removed t e entry f (hear_all t e k calls) route (b ∷ l)
                    false,
                hear-call_new_best_route_for_routes t e entry f k (b ∷ l),
                names-discard t route best f,
                names-nil t f,
                learned,
              ))
    withdraw_best-Knows route all best (b ∷ left) h learned = ground (
      arith,
      hear-selective_best_route_removed t e entry f k route (b ∷ left) false,
      names-discard t route best f,
      names-discard_le t route best f,
      learned,
    )

    -- A subclass that knows the best routes of the entry knows those that are left after the calls
    -- that a WITHDRAW makes; what it knows of other entries stays.
    pub on_withdraw-Knows :
        (route : Route) (all : List Route) (best : Option (List Route))
        → Learned (routes_of t best)
        → let (all', best', calls) = on_withdraw t entry route all best in
          Knows t e entry f k calls (routes_of t best')
    unfolding on_withdraw hear_all
    on_withdraw-Knows route all none learned = ground (arith, learned)
    on_withdraw-Knows route all (some best) learned =
        elim (Bool-cases (contains route_discrete route best)) [
          | inl there ↦ rw there (
              withdraw_best-Knows route (remove_first route_discrete route all) best
                (discard route_discrete route best) refl learned)
          | inr other ↦ rw other (ground (arith, learned))
        ]
