-- ===== src/Tracker/Advertise.antt =====
-- What an ADVERTISE does to the lists of an entry.
use networking_bagpipe_l.Common.{
  ◌≡◌, ◌≢◌, refl, Bool, true, false, Option, none, some, List, [], ◌∷◌, ◌++◌, arith, eqb, leb,
  contains, add, contains-add, discard, contains-discard, remove_first, contains-remove_first,
  remove_first-IsDistinct, append-IsDistinct, IsDistinct, Bool-cases, inl, inr, subst, sym,
}
use networking_bagpipe_l.Tracker.Base.{Tracking, recompute_best_routes}
use networking_bagpipe_l.Tracker.Handler.{
  Slot, drop_replaced, place, place_again, finish, advertise_to, on_advertise,
}
use networking_bagpipe_l.Tracker.Top.{
  is_top, IsTop, is_top-bound, is_top_above, IsTop-above, IsTop-equal, IsTop-below,
}
use networking_bagpipe_l.Tracker.Best.{Ordering-cases, recompute_best_routes-IsTop}

module _ (t : Tracking) where
  open t use {Route, route_discrete, compare_routes, rank, first, first-contains, Entry}

  -- a list of routes has one of the top rank
  top_exists :
      (a : Route) (all : List Route)
      → (r : Route) × (contains route_discrete r (a ∷ all) ≡ true) × (is_top t (a ∷ all) r ≡ true)
  unfolding contains is_top
  top_exists a [] = (a, ground arith, ground arith)
  top_exists a (c ∷ all) =
      let (r, there, top) = top_exists c all in
      elim (Bool-cases (leb (rank a) (rank r))) [
        | inl below ↦ (r, ground arith, ground arith)
        | inr above ↦ (a, ground arith, ground (arith, is_top_above t (c ∷ all) r a))
      ]

  pub IsTop-nil : (all : List Route) → IsTop t [] all → all ≡ []
  unfolding contains
  IsTop-nil [] top = refl
  IsTop-nil (a ∷ all) top = let (r, there, best) = top_exists a all in ground (arith, top r)

  is_top-remove_first :
      (all : List Route) (q r : Route)
      → is_top t all r ≡ true
      → is_top t (remove_first route_discrete q all) r ≡ true
  unfolding is_top remove_first
  is_top-remove_first [] q r top = refl
  is_top-remove_first (a ∷ all) q r top = ground (arith, is_top-remove_first all q r)

  -- A route is removed from both lists, and a best one is left.
  pub remove-IsTop :
      (all best : List Route) (q b : Route)
      → IsDistinct route_discrete all
      → IsTop t best all
      → contains route_discrete b (discard route_discrete q best) ≡ true
      → IsTop t (discard route_discrete q best) (remove_first route_discrete q all)
  remove-IsTop all best q b d top left r = ground (
    arith,
    contains-discard route_discrete r q best,
    contains-discard route_discrete b q best,
    contains-remove_first route_discrete r q all d,
    contains-remove_first route_discrete b q all d,
    top r,
    top b,
    is_top-remove_first all q r,
    is_top-bound t (remove_first route_discrete q all) b r,
    is_top_above t all b r,
  )

  -- the new route is compared with one of the best
  finish-IsTop :
      (entry : Entry) (route b : Route) (all_new : Bool) (s : Slot t)
      → contains route_discrete b s.best_routes ≡ true
      → IsTop t s.best_routes s.all_routes
      → let s' = finish t entry route (place t entry route all_new s (compare_routes route b)) in
        IsTop t s'.best_routes s'.all_routes × (s'.all_routes ≡ s.all_routes ++ route ∷ [])
  unfolding place finish
  finish-IsTop entry route b all_new s there top = elim (Ordering-cases (compare_routes route b)) [
    | inl below ↦
        rw (below, place) (IsTop-below t s.best_routes s.all_routes b route there top below, refl)
    | inr (inl equal) ↦
        rw (equal, place)
          (
            IsTop-equal t s.best_routes s.all_routes b route there top
                (add route_discrete route s.best_routes) equal
                (λ r. ground (arith, contains-add route_discrete r route s.best_routes)),
            refl,
          )
    | inr (inr above) ↦
        rw (above, place) (IsTop-above t s.best_routes s.all_routes b route there top above, refl)
  ]

  place_again-IsTop :
      (entry : Entry) (route : Route) (s : Slot t) (best : List Route)
      → IsTop t best s.all_routes
      → let s' = finish t entry route (place_again t entry route s best) in
        IsTop t s'.best_routes s'.all_routes × (s'.all_routes ≡ s.all_routes ++ route ∷ [])
  unfolding place_again place finish contains is_top
  place_again-IsTop entry route s [] top =
      let none_left = IsTop-nil s.all_routes top in (λ r. rw none_left (ground arith), refl)
  place_again-IsTop entry route s (b ∷ best) top =
      finish-IsTop entry route (first b best) true (record s { best_routes = b ∷ best })
        (first-contains b best) top

  advertise_to-IsTop :
      (entry : Entry) (route : Route) (s : Slot t) (best : List Route)
      → s.best_routes ≡ best
      → (best ≢ [] → IsTop t best s.all_routes)
      → contains route_discrete route s.all_routes ≡ false
      → let s' = advertise_to t entry route s best in
        IsTop t s'.best_routes s'.all_routes × (s'.all_routes ≡ s.all_routes ++ route ∷ [])
  unfolding advertise_to
  advertise_to-IsTop entry route s [] e top new =
      place_again-IsTop entry route s (recompute_best_routes t s.all_routes)
        (recompute_best_routes-IsTop t s.all_routes)
  advertise_to-IsTop entry route s (b ∷ best) e top new =
      let c = first b best in
      let top' = top (λ h. cc) in
      let other : eqb route_discrete route c ≡ false =
        ground (arith, first-contains b best, top' c) in
      rw other (
        finish-IsTop entry route c false s (rw e (first-contains b best))
          (subst (λ (l : List Route). IsTop t l s.all_routes) (sym e) top'))

  -- the routes of the entry without the replaced one
  abbrev pub remaining : Option Route → List Route → List Route
  remaining none all = all
  remaining (some q) all = remove_first route_discrete q all

  pub discard-IsTop :
      (all best : List Route) (q : Route) (l : List Route)
      → IsDistinct route_discrete all
      → IsTop t best all
      → discard route_discrete q best ≡ l
      → l ≢ []
      → IsTop t l (remove_first route_discrete q all)
  unfolding contains
  discard-IsTop all best q [] d top e h = absurd (h refl)
  discard-IsTop all best q (b ∷ l) d top e h =
      subst (λ (l : List Route). IsTop t l (remove_first route_discrete q all)) e
        (remove-IsTop all best q b d top (rw e (ground arith)))

  pub drop_replaced-IsTop :
      (all best : List Route) (replaced : Option Route)
      → IsDistinct route_discrete all
      → IsTop t best all
      → let d = drop_replaced t all best replaced in
        (d.best_routes ≢ [] → IsTop t d.best_routes d.all_routes)
        × (d.all_routes ≡ remaining replaced all)
        × IsDistinct route_discrete d.all_routes
  unfolding drop_replaced
  drop_replaced-IsTop all best none d top = (λ h. top, refl, d)
  drop_replaced-IsTop all best (some q) d top = (
    discard-IsTop all best q (discard route_discrete q best) d top refl,
    refl,
    remove_first-IsDistinct route_discrete q all d,
  )

  pub contains-remaining :
      (replaced : Option Route) (all : List Route) (r : Route)
      → IsDistinct route_discrete all
      → contains route_discrete r all ≡ false
      → contains route_discrete r (remaining replaced all) ≡ false
  contains-remaining none all r d h = h
  contains-remaining (some q) all r d h =
      ground (arith, contains-remove_first route_discrete r q all d)

  -- If the best routes are those of the top rank and no route is there twice, a new route that is
  -- not known yet comes last among the routes of its entry, from which the
  -- replaced one is removed; the best routes are then again those of the top rank, and no route is
  -- there twice.
  pub on_advertise-IsTop :
      (entry : Entry) (route : Route) (replaced : Option Route) (all best : List Route)
      → IsDistinct route_discrete all
      → contains route_discrete route all ≡ false
      → IsTop t best all
      → let (all', best', _) = on_advertise t entry route replaced all (some best) in
        (all' ≡ remaining replaced all ++ route ∷ [])
        × IsTop t best' all'
        × IsDistinct route_discrete all'
  unfolding on_advertise
  on_advertise-IsTop entry route replaced all best d new top =
      let s = drop_replaced t all best replaced in
      let (kept, same, distinct) = drop_replaced-IsTop all best replaced d top in
      let absent = contains-remaining replaced all route d new in
      let (top', added) =
        advertise_to-IsTop entry route s s.best_routes refl kept (rw same absent) in
      (
        rw (added, same),
        top',
        rw added (append-IsDistinct route_discrete s.all_routes route distinct (rw same absent)),
      )
