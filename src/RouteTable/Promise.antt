-- ===== src/RouteTable/Promise.antt =====
-- The promise of the route table manager, over all its events and all sequences of them.
use networking_bagpipe_l.Common.{
  ◌≡◌, refl, true, false, Option, none, some, List, [], ◌∷◌, ◌++◌, map, arith, eqb, contains,
  Bool-cases, Option-cases, inl, inr, ap, if◌then◌else◌,
}
use networking_bagpipe_l.Engine.{
  Exabgp, Source, source_discrete, EventType, advertise, withdraw, RouteEvent, event_for,
}
use networking_bagpipe_l.RouteTable.Match.{Match}
use networking_bagpipe_l.RouteTable.Defs.{
  State, Effect, Event, route, subscribe, unsubscribe, worker_cleanup, Entry, at, del_worker, put,
  check_cleanup, enqueue, intersects,
}
use networking_bagpipe_l.RouteTable.Routes.{
  is_same, matches_of, leave_all, cleanup_worker, receive_advertise, receive_withdraw,
  withdraw_entry, receive_as, receive_route_event, on_event,
}
use networking_bagpipe_l.RouteTable.Consistent.{
  IsConsistent, is_current, initial, initial-IsConsistent,
}
use networking_bagpipe_l.RouteTable.Cleanup.{cleanup_worker_rest}
use networking_bagpipe_l.RouteTable.Receive.{advertised, on_event-IsConsistent}
use networking_bagpipe_l.RouteTable.View.{View, see, see_all, is_wanted, IsExact}
use networking_bagpipe_l.RouteTable.Exact.{advertise-IsExact, withdraw-IsExact}
use networking_bagpipe_l.RouteTable.Unsubscribed.{worker_unsubscribes-IsExact}
use networking_bagpipe_l.RouteTable.Subscribed.{worker_subscribes-IsExact}

module _ (x : Exabgp) where
  -- the views before the effects of an event: a worker that is cleaned up forgets what it has
  unfoldable pub forget : Event x → View x → View x
  forget (worker_cleanup w) v u d = if eqb source_discrete u w then false else v u d
  forget _ v u d = v u d

  unfoldable pub learn : View x → Event x → List (Effect x) → View x
  learn v ev es = see_all x (forget ev v) es

  see-leave_all :
      (v : View x) (st : State x) (w : Source) (ms : List (Match x))
      → see_all x v (leave_all x st w ms).1 ≡ v
  unfolding leave_all see_all see
  see-leave_all v st w [] = refl
  see-leave_all v st w (m ∷ ms) = elim (Option-cases (del_worker x w (at x st m))) [
    | inl absent ↦ rw (absent, leave_all)
    | inr ((wa, true), found) ↦
        rw (found, leave_all) (see-leave_all v (check_cleanup x (put x st m wa) m) w ms)
    | inr ((wa, false), found) ↦
        rw (found, leave_all) (see-leave_all v (check_cleanup x (put x st m wa) m) w ms)
  ]

  see-enqueue :
      (v : View x) (es : List (Entry x)) (more : List (Effect x))
      → see_all x v (map (λ e. enqueue (event_for x withdraw e)) es ++ more) ≡ see_all x v more
  unfolding see_all see
  see-enqueue v [] more = refl
  see-enqueue v (e ∷ es) more = see-enqueue v es more

  see-cleanup_worker :
      (v : View x) (st : State x) (w : Source) → see_all x v (cleanup_worker x st w).1 ≡ v
  unfolding cleanup_worker
  see-cleanup_worker v st w = rw (see-enqueue, see-leave_all)

  intersects-nil : (ns : List (Match x)) → intersects x ns [] ≡ false
  unfolding intersects contains
  intersects-nil [] = refl
  intersects-nil (n ∷ ns) = intersects-nil ns

  cleanup_worker-IsExact :
      (st : State x) (v : View x) (w : Source)
      → IsConsistent x st
      → IsExact x st v
      → IsExact x (cleanup_worker x st w).0 (learn v (worker_cleanup w) (cleanup_worker x st w).1)
  unfolding learn forget is_wanted is_current
  cleanup_worker-IsExact st v w c ex u d =
      let (nlri, mine) = cleanup_worker_rest x st w c in
      rw see-cleanup_worker (
        ground (
          arith,
          ex u d,
          intersects-nil (matches_of x d),
          ap (λ (f : Source → x.Nlri → Option (Entry x)). f d.source d.nlri) nlri,
          ap (λ (f : Source → List (Match x)). f u) mine,
        ))

  receive_advertise-IsExact :
      (st : State x) (v : View x) (ev : RouteEvent x)
      → IsConsistent x st
      → ev.type ≡ advertise
      → IsExact x st v
      → IsExact x (receive_advertise x st ev).0 (see_all x v (receive_advertise x st ev).1)
  unfolding receive_advertise advertised see_all
  receive_advertise-IsExact st v ev c ty ex =
      let e = ev.route_entry in
      elim (Bool-cases (is_same x (st.source_nlri_2_entry e.source e.nlri) e)) [
        | inl same ↦ rw same ex
        | inr new ↦ rw new (rw new at (advertise-IsExact x st v ev c ty new ex))
      ]

  withdraw_entry-IsExact :
      (st : State x) (v : View x) (e : Entry x) (o : Option (Entry x))
      → IsConsistent x st
      → st.source_nlri_2_entry e.source e.nlri ≡ o
      → IsExact x st v
      → IsExact x (withdraw_entry x st e o).0 (see_all x v (withdraw_entry x st e o).1)
  unfolding withdraw_entry see_all
  withdraw_entry-IsExact st v e none c h ex = ex
  withdraw_entry-IsExact st v e (some r) c h ex = withdraw-IsExact x st v e r c h ex

  receive_as-IsExact :
      (ty : EventType) (st : State x) (v : View x) (ev : RouteEvent x)
      → IsConsistent x st
      → ev.type ≡ ty
      → IsExact x st v
      → IsExact x (receive_as x ty st ev).0 (see_all x v (receive_as x ty st ev).1)
  unfolding receive_as receive_withdraw
  receive_as-IsExact advertise st v ev c h ex = receive_advertise-IsExact st v ev c h ex
  receive_as-IsExact withdraw st v ev c h ex =
      withdraw_entry-IsExact st v ev.route_entry _ c refl ex

  -- If the dicts are consistent and each view is exactly what its worker should have, this is so
  -- of the views after any event.
  pub on_event-IsExact :
      (st : State x) (v : View x) (ev : Event x)
      → IsConsistent x st
      → IsExact x st v
      → IsExact x (on_event x st ev).0 (learn v ev (on_event x st ev).1)
  unfolding on_event receive_route_event learn forget
  on_event-IsExact st v (route ev) c ex = receive_as-IsExact ev.type st v ev c refl ex
  on_event-IsExact st v (subscribe sub) c ex = worker_subscribes-IsExact x st v sub c ex
  on_event-IsExact st v (unsubscribe sub) c ex = worker_unsubscribes-IsExact x st v sub c ex
  on_event-IsExact st v (worker_cleanup w) c ex = cleanup_worker-IsExact st v w c ex

  -- the state and the views after a sequence of events
  unfoldable pub run : State x → View x → List (Event x) → State x × View x
  run st v [] = (st, v)
  run st v (ev ∷ evs) = let (st', sent) = on_event x st ev in run st' (learn v ev sent) evs

  run-IsExact_from :
      (st : State x) (v : View x) (evs : List (Event x))
      → IsConsistent x st
      → IsExact x st v
      → IsConsistent x (run st v evs).0 × IsExact x (run st v evs).0 (run st v evs).1
  unfolding run
  run-IsExact_from st v [] c ex = (c, ex)
  run-IsExact_from st v (ev ∷ evs) c ex =
      run-IsExact_from (on_event x st ev).0 (learn v ev (on_event x st ev).1) evs
        (on_event-IsConsistent x st ev c) (on_event-IsExact st v ev c ex)

  -- After any sequence of events from the initial state, the dicts of the manager are consistent,
  -- and each worker has learned exactly the routes that are current, that match one of its
  -- subscriptions, and that should be dispatched to it.
  pub run-IsExact :
      (evs : List (Event x))
      → let (st, v) = run (initial x) (λ w d. false) evs in IsConsistent x st × IsExact x st v
  unfolding initial is_wanted is_current is_same
  run-IsExact evs =
      run-IsExact_from (initial x) (λ w d. false) evs (initial-IsConsistent x) (λ w d. refl)
