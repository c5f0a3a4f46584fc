-- ===== src/Tracker/Known.antt =====
-- The calls of the two kinds of events: what a subclass knows of an entry after them.
use networking_bagpipe_l.Common.{
  ◌≡◌, refl, Bool, true, false, not, ◌&&◌, ◌||◌, List, [], ◌∷◌, ◌++◌, Ordering, arith, eqb, add,
  if◌then◌else◌, ap,
}
use networking_bagpipe_l.Tracker.Base.{
  Tracking, Callback, new_best_route, equivalent_route_in_routes, remove_all,
  call_new_best_route_for_routes,
}
use networking_bagpipe_l.Tracker.Handler.{Slot, place, finish}
use networking_bagpipe_l.Tracker.Calls.{
  names, names-append, names-one, hear, hear_all, hear_all-append,
  hear-call_new_best_route_for_routes, hear-remove_all, names-add,
}

module _ (t : Tracking) where
  open t use {
    Route, route_discrete, Filtered, filtered_discrete, filtered, Entry, entry_discrete,
    compare_routes, first,
  }

  module _ (e entry : Entry) (f : Filtered) (k : Filtered → Bool) where
    -- what is known of `e` once the calls for `entry` are made, whose best routes are `best`
    abbrev pub Knows : List (Callback t) → List Route → Type 0
    Knows calls best =
        hear_all t e k calls f ≡ (if eqb entry_discrete e entry then names t best f else k f)

    -- what is known before is among the best routes or those that are withdrawn
    abbrev pub Bounded : Slot t → Type 0
    Bounded s = k f ≡ true → (names t s.best_routes f || names t s.withdrawn f) ≡ true

    -- the calls for the routes that were withdrawn, after others
    hear-calls :
        (cs : List (Callback t)) (ws best : List Route)
        → hear_all t e k (cs ++ remove_all t entry ws best) f ≡ (
            not (eqb entry_discrete e entry && (names t ws f && not (names t best f)))
            && hear_all t e k cs f)
    hear-calls cs ws best =
        rw (hear_all-append t e k cs (remove_all t entry ws best))
          (hear-remove_all t e entry f (hear_all t e k cs) ws best)

    pub hear-one :
        (g : Filtered)
        → hear_all t e k (new_best_route entry g ∷ []) f
          ≡ (eqb entry_discrete e entry && eqb filtered_discrete f g || k f)
    unfolding hear_all hear
    hear-one g = refl

    finish-gt :
        (route : Route) (all_new : Bool) (s : Slot t)
        → (eqb entry_discrete e entry ≡ true → Bounded s)
        → let s' = finish t entry route (place t entry route all_new s Ordering.gt) in
          Knows s'.calls s'.best_routes
    unfolding finish place
    finish-gt route all_new s upper = ground (
      arith,
      hear-calls (new_best_route entry (filtered route) ∷ []) (s.withdrawn ++ s.best_routes)
          (route ∷ []),
      hear-one (filtered route),
      names-append t s.withdrawn s.best_routes f,
      names-one t route f,
      upper,
    )

    -- the calls for the best routes that were found again
    abbrev call_all : Bool → List Route → List (Callback t)
    call_all all_new best = if all_new then call_new_best_route_for_routes t entry best else []

    hear-call_all :
        (all_new : Bool) (best : List Route)
        → hear_all t e k (call_all all_new best) f
          ≡ (all_new && (eqb entry_discrete e entry && names t best f) || k f)
    unfolding hear_all
    hear-call_all true best = hear-call_new_best_route_for_routes t e entry f k best
    hear-call_all false best = refl

    finish-lt :
        (route : Route) (all_new : Bool) (s : Slot t)
        → (eqb entry_discrete e entry ≡ true → Bounded s)
        → (eqb entry_discrete e entry ≡ true
            → all_new ≡ false
            → names t s.best_routes f ≡ true
            → k f ≡ true)
        → let s' = finish t entry route (place t entry route all_new s Ordering.lt) in
          Knows s'.calls s'.best_routes
    unfolding finish place
    finish-lt route all_new s upper lower = ground (
      arith,
      hear-calls (call_all all_new s.best_routes) s.withdrawn s.best_routes,
      hear-call_all all_new s.best_routes,
      upper,
      lower,
    )

    -- the call for a new route unless there is an equivalent one
    abbrev call_new : Route → List Route → List (Callback t)
    call_new route best =
        if equivalent_route_in_routes t route best
        then []
        else new_best_route entry (filtered route) ∷ []

    hear-call_new :
        (k' : Filtered → Bool) (route : Route) (best : List Route)
        → hear_all t e k' (call_new route best) f ≡ (
            eqb entry_discrete e entry
              && (eqb filtered_discrete f (filtered route) && not (names t best f))
            || k' f)
    unfolding hear_all hear equivalent_route_in_routes names
    hear-call_new k' route best = ground arith

    finish-eq :
        (route : Route) (all_new : Bool) (s : Slot t)
        → (eqb entry_discrete e entry ≡ true → Bounded s)
        → (eqb entry_discrete e entry ≡ true
            → all_new ≡ false
            → names t s.best_routes f ≡ true
            → k f ≡ true)
        → let s' = finish t entry route (place t entry route all_new s Ordering.eq) in
          Knows s'.calls s'.best_routes
    unfolding finish place
    finish-eq route all_new s upper lower =
        let cs = call_all all_new s.best_routes in
        let ds = call_new route s.best_routes in
        let best = add route_discrete route s.best_routes in
        ground (
          arith,
          hear-calls (cs ++ ds) s.withdrawn best,
          ap (λ (g : Filtered → Bool). g f) (hear_all-append t e k cs ds),
          hear-call_new (hear_all t e k cs) route s.best_routes,
          hear-call_all all_new s.best_routes,
          names-add t route s.best_routes f,
          upper,
          lower,
        )

    -- the calls of the branches on the comparison
    pub hear-finish :
        (route : Route) (all_new : Bool) (s : Slot t) (o : Ordering)
        → (eqb entry_discrete e entry ≡ true → Bounded s)
        → (eqb entry_discrete e entry ≡ true
            → all_new ≡ false
            → names t s.best_routes f ≡ true
            → k f ≡ true)
        → let s' = finish t entry route (place t entry route all_new s o) in
          Knows s'.calls s'.best_routes
    hear-finish route all_new s Ordering.lt upper lower = finish-lt route all_new s upper lower
    hear-finish route all_new s Ordering.eq upper lower = finish-eq route all_new s upper lower
    hear-finish route all_new s Ordering.gt upper lower = finish-gt route all_new s upper
