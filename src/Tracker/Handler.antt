-- ===== src/Tracker/Handler.antt =====
-- `_on_event` of the tracker, branch by branch.
use networking_bagpipe_l.Common.{
  Bool, true, false, Option, none, some, List, [], ◌∷◌, ◌++◌, Ordering, eqb, if◌then◌else◌,
  contains, add, discard, remove_first, update,
}
use networking_bagpipe_l.Tracker.Base.{
  Tracking, EventType, advertise, withdraw, State, RouteEvent, Callback, new_best_route, known,
  equivalent_route_in_routes, recompute_best_routes, remove_all, selective_best_route_removed,
  call_new_best_route_for_routes,
}

module _ (t : Tracking) where
  open t use {
    Route, route_discrete, Filtered, filtered_discrete, filtered, Entry, entry_discrete,
    compare_routes, first,
  }

  -- The local variables of `_on_event` that it changes: the lists that stand in the two dicts,
  -- the routes to consider as withdrawn, and the calls made so far.
  pub record Slot : Type 0 where
    pub all_routes : List Route
    pub best_routes : List Route
    pub withdrawn : List Route
    pub calls : List (Callback t)

  -- the removal of `event.replaced_route`
  unfoldable pub drop_replaced : List Route → List Route → Option Route → Slot
  drop_replaced all best none = record {
    all_routes = all;
    best_routes = best;
    withdrawn = [];
    calls = [];
  }
  drop_replaced all best (some r) = record {
    all_routes = remove_first route_discrete r all;
    best_routes = discard route_discrete r best;
    withdrawn = if contains route_discrete r best then r ∷ [] else [];
    calls = [];
  }

  -- The branches on the comparison of the new route with the current best one; `all_new` is
  -- `call_new_best_route_4_all`.
  unfoldable pub place : Entry → Route → Bool → Slot → Ordering → Slot
  place entry route all_new s Ordering.gt = record s {
    withdrawn = s.withdrawn ++ s.best_routes;
    best_routes = route ∷ [];
    calls = new_best_route entry (filtered route) ∷ [];
  }
  place entry route all_new s Ordering.eq = record s {
    best_routes = add route_discrete route s.best_routes;
    calls =
        (if all_new then call_new_best_route_for_routes t entry s.best_routes else [])
        ++ (if equivalent_route_in_routes t route s.best_routes
            then []
            else new_best_route entry (filtered route) ∷ []);
  }
  place entry route all_new s Ordering.lt = record s {
    calls = if all_new then call_new_best_route_for_routes t entry s.best_routes else [];
  }

  -- the end of the ADVERTISE branch
  unfoldable pub finish : Entry → Route → Slot → Slot
  finish entry route s = record s {
    all_routes = s.all_routes ++ route ∷ [];
    calls = s.calls ++ remove_all t entry s.withdrawn s.best_routes;
  }

  -- with no best route left, from the routes that are known
  unfoldable pub place_again : Entry → Route → Slot → List Route → Slot
  place_again entry route s [] = place entry route false (record s { best_routes = [] }) Ordering.gt
  place_again entry route s (b ∷ best) =
      place entry route true (record s { best_routes = b ∷ best })
        (compare_routes route (first b best))

  -- The ADVERTISE branch where the entry has best routes, after the removal of the replaced route.
  -- A new route that is the current best one ends the handler.
  unfoldable pub advertise_to : Entry → Route → Slot → List Route → Slot
  advertise_to entry route s [] =
      finish entry route (place_again entry route s (recompute_best_routes t s.all_routes))
  advertise_to entry route s (b ∷ best) =
      if eqb route_discrete route (first b best)
      then s
      else finish entry route (place entry route false s (compare_routes route (first b best)))

  -- the lists in the dicts and the calls, after an ADVERTISE
  unfoldable pub on_advertise :
      Entry
      → Route
      → Option Route
      → List Route
      → Option (List Route)
      → List Route × List Route × List (Callback t)
  on_advertise entry route replaced all none =
      (all ++ route ∷ [], route ∷ [], new_best_route entry (filtered route) ∷ [])
  on_advertise entry route replaced all (some best) =
      let d = drop_replaced all best replaced in
      let s = advertise_to entry route d d.best_routes in (s.all_routes, s.best_routes, s.calls)

  -- what a WITHDRAW of one of the best routes leaves in the two dicts, and the calls; both keys are
  -- deleted with the last route
  unfoldable pub withdraw_best :
      Entry
      → Route
      → List Route
      → List Route
      → Option (List Route) × Option (List Route) × List (Callback t)
  withdraw_best entry route all [] = elim (recompute_best_routes t all) [
    | [] ↦ (none, none, selective_best_route_removed t entry route [] true)
    | b ∷ best ↦ (
      some all,
      some (b ∷ best),
      call_new_best_route_for_routes t entry (b ∷ best)
          ++ selective_best_route_removed t entry route (b ∷ best) false,
    )
  ]
  withdraw_best entry route all (b ∷ best) =
      (some all, some (b ∷ best), selective_best_route_removed t entry route (b ∷ best) false)

  -- the same for any WITHDRAW
  unfoldable pub on_withdraw :
      Entry
      → Route
      → List Route
      → Option (List Route)
      → Option (List Route) × Option (List Route) × List (Callback t)
  on_withdraw entry route all none = (some (remove_first route_discrete route all), none, [])
  on_withdraw entry route all (some best) =
      let left = remove_first route_discrete route all in
      if contains route_discrete route best
      then withdraw_best entry route left (discard route_discrete route best)
      else (some left, some best, [])

  -- the writes in the two dicts
  unfoldable pub write : State t → Entry → Option (List Route) → Option (List Route) → State t
  write st entry all best = record {
    tracked_entry_2_routes = update entry_discrete st.tracked_entry_2_routes entry all;
    tracked_entry_2_best_routes = update entry_discrete st.tracked_entry_2_best_routes entry best;
  }

  -- `_on_event` for a route that is mapped to an entry
  unfoldable pub on_entry : EventType → State t → RouteEvent t → Entry → State t × List (Callback t)
  on_entry advertise st ev entry =
      let all = known t (st.tracked_entry_2_routes entry) in
      let (all', best, calls) =
        on_advertise entry ev.route_entry ev.replaced_route all
          (st.tracked_entry_2_best_routes entry) in
      (write st entry (some all') (some best), calls)
  on_entry withdraw st ev entry =
      let all = known t (st.tracked_entry_2_routes entry) in
      let (all', best, calls) =
        on_withdraw entry ev.route_entry all (st.tracked_entry_2_best_routes entry) in
      (write st entry all' best, calls)

  -- `_on_event`, with the tracked entry of the route if it is mapped to one
  unfoldable pub on_mapped : Option Entry → State t → RouteEvent t → State t × List (Callback t)
  on_mapped none st ev = (st, [])
  on_mapped (some entry) st ev = on_entry ev.type st ev entry

  unfoldable pub on_event : State t → RouteEvent t → State t × List (Callback t)
  on_event st ev = on_mapped (t.route_to_tracked_entry ev.route_entry) st ev
