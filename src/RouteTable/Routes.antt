-- ===== src/RouteTable/Routes.antt =====
-- The operations of the route table manager on routes, the cleanup of a worker, and `_on_event`.
use networking_bagpipe_l.Common.{
  Bool, true, false, not, ◌&&◌, Option, none, some, List, [], ◌∷◌, ◌++◌, map, eqb, if◌then◌else◌,
  contains, add, discard, update,
}
use networking_bagpipe_l.Engine.{
  Exabgp, Source, source_discrete, route_targets, EventType, advertise, withdraw, RouteEvent,
  event_for, event_source,
}
use networking_bagpipe_l.RouteTable.Match.{Match, matches_for}
use networking_bagpipe_l.RouteTable.Defs.{
  State, Effect, deliver, last_local_subscriber, enqueue, Event, route, subscribe, unsubscribe,
  worker_cleanup, Entry, same_entry, del_worker, test_should_dispatch, at, put, check_cleanup,
  worker_subscribes, worker_unsubscribes,
}

module _ (x : Exabgp) where
  -- whether a worker that is interested in a match becomes a target
  unfoldable pub is_target : Source → List Source → Source → Bool
  is_target source except w =
      test_should_dispatch x source w && not (contains source_discrete w except)

  -- the inner loop of `_propagate_route_event`, over the workers interested in a match
  unfoldable pub add_targets : Source → List Source → List Source → List Source → List Source
  add_targets source except [] targets = targets
  add_targets source except (w ∷ ws) targets =
      add_targets source except ws
        (if is_target source except w then add source_discrete w targets else targets)

  -- the outer loop, over the matches; reading the defaultdict stores the default
  unfoldable pub find_targets :
      State x → Source → List Source → List (Match x) → List Source → State x × List Source
  find_targets st source except [] targets = (st, targets)
  find_targets st source except (m ∷ ms) targets =
      find_targets (put x st m (at x st m)) source except ms
        (add_targets source except (at x st m).workers targets)

  -- `worker.enqueue(route_event)` for each target
  unfoldable pub deliver_all : RouteEvent x → List Source → List (Effect x)
  deliver_all ev ws = map (λ w. deliver w ev) ws

  -- the matches for a route
  abbrev pub matches_of : Entry x → List (Match x)
  matches_of e = matches_for x e.afi e.safi (route_targets x e)

  -- `_propagate_route_event`: the state, the target workers, and what they are sent
  unfoldable pub propagate_route_event :
      State x → RouteEvent x → List Source → State x × List Source × List (Effect x)
  propagate_route_event st ev except =
      let (st', targets) =
        find_targets st (event_source x ev) except (matches_of ev.route_entry) [] in
      (st', targets, deliver_all ev targets)

  -- the loops of `_receive_route_event` that update the entries of the matches
  unfoldable pub discard_from : State x → Entry x → Match x → State x
  discard_from st e m = elim (st.match_2_workers_entries m) [
    | none ↦ st
    | some wa ↦
        check_cleanup x (put x st m (record wa { entries = discard (same_entry x) e wa.entries })) m
  ]

  unfoldable pub discard_entry : State x → Entry x → List (Match x) → State x
  discard_entry st e [] = st
  discard_entry st e (m ∷ ms) = discard_entry (discard_from st e m) e ms

  unfoldable pub add_entry : State x → Entry x → List (Match x) → State x
  add_entry st e [] = st
  add_entry st e (m ∷ ms) =
      let wa = at x st m in
      add_entry (put x st m (record wa { entries = add (same_entry x) e wa.entries })) e ms

  -- The part of `_receive_route_event` under `if replaced_entry is not None`, for the replaced
  -- route.
  unfoldable pub remove_route : State x → Source → Entry x → List Source → State x × List (Effect x)
  remove_route st source old notified =
      let (st', _, sent) = propagate_route_event st (event_for x withdraw old) notified in
      let st'' = discard_entry st' old (matches_of old) in
      (
        record st'' {
          rtm_route_entries =
              update source_discrete st''.rtm_route_entries source
                (discard (same_entry x) old (st''.rtm_route_entries source));
        },
        sent,
      )

  -- The same where there may be no replaced route. The construction of the removal event writes
  -- the source of the event into the replaced route.
  unfoldable pub remove_replaced :
      State x → Source → Option (Entry x) → List Source → State x × List (Effect x)
  remove_replaced st source none notified = (st, [])
  remove_replaced st source (some r) notified =
      remove_route st source (record r { source = source }) notified

  -- the last part for an ADVERTISE
  unfoldable pub record_route : State x → Entry x → State x
  record_route st e =
      let st' = add_entry st e (matches_of e) in
      record st' {
        rtm_route_entries =
            update source_discrete st'.rtm_route_entries e.source
              (add (same_entry x) e (st'.rtm_route_entries e.source));
        source_nlri_2_entry =
            update source_discrete st'.source_nlri_2_entry e.source
              (update x.nlri_discrete (st'.source_nlri_2_entry e.source) e.nlri (some e));
      }

  -- the last part for a WITHDRAW
  unfoldable pub forget_route : State x → Entry x → State x
  forget_route st e = record st {
    rtm_route_entries =
        update source_discrete st.rtm_route_entries e.source
          (discard (same_entry x) e (st.rtm_route_entries e.source));
    source_nlri_2_entry =
        update source_discrete st.source_nlri_2_entry e.source
          (update x.nlri_discrete (st.source_nlri_2_entry e.source) e.nlri none);
  }

  -- whether the replaced route, if any, is the same as the new one
  unfoldable pub is_same : Option (Entry x) → Entry x → Bool
  is_same none e = false
  is_same (some r) e = eqb (same_entry x) r e

  unfoldable pub receive_advertise : State x → RouteEvent x → State x × List (Effect x)
  receive_advertise st ev =
      let e = ev.route_entry in
      let replaced = st.source_nlri_2_entry e.source e.nlri in
      if is_same replaced e
      then (st, [])
      else let (st₁, notified, sent) =
          propagate_route_event st (record ev { replaced_route = replaced }) [] in
        let (st₂, removed) = remove_replaced st₁ e.source replaced notified in
        (record_route st₂ e, sent ++ removed)

  -- a WITHDRAW, given the route that the source has for the NLRI
  unfoldable pub withdraw_entry : State x → Entry x → Option (Entry x) → State x × List (Effect x)
  withdraw_entry st e none = (st, [])
  withdraw_entry st e (some r) =
      let (st', removed) = remove_replaced st e.source (some r) [] in (forget_route st' e, removed)

  unfoldable pub receive_withdraw : State x → RouteEvent x → State x × List (Effect x)
  receive_withdraw st ev =
      let e = ev.route_entry in withdraw_entry st e (st.source_nlri_2_entry e.source e.nlri)

  -- `_receive_route_event`
  unfoldable pub receive_as : EventType → State x → RouteEvent x → State x × List (Effect x)
  receive_as advertise = receive_advertise
  receive_as withdraw = receive_withdraw

  unfoldable pub receive_route_event : State x → RouteEvent x → State x × List (Effect x)
  receive_route_event st ev = receive_as ev.type st ev

  -- The loop of `_worker_cleanup` over the matches of the worker. The Boolean is false after a
  -- `KeyError`, which ends the operation.
  unfoldable pub leave_all : State x → Source → List (Match x) → State x × List (Effect x) × Bool
  leave_all st w [] = (st, [], true)
  leave_all st w (m ∷ ms) = elim (del_worker x w (at x st m)) [
    | none ↦ (put x st m (at x st m), [], false)
    | some (wa, last) ↦
        let (st', sent, done) = leave_all (check_cleanup x (put x st m wa) m) w ms in
        (
          st',
          (if last then last_local_subscriber (record { matching = m; worker = w }) ∷ [] else [])
              ++ sent,
          done,
        )
  ]

  unfoldable pub cleanup_worker : State x → Source → State x × List (Effect x)
  cleanup_worker st w =
      let (st', sent, done) = leave_all st w (st.rtm_matches w) in
      (
        if done
            then record st' { rtm_matches = update source_discrete st'.rtm_matches w [] }
            else st',
        map (λ e. enqueue (event_for x withdraw e)) (st.rtm_route_entries w) ++ sent,
      )

  unfoldable pub on_event : State x → Event x → State x × List (Effect x)
  on_event st (route ev) = receive_route_event st ev
  on_event st (subscribe sub) = worker_subscribes x st sub
  on_event st (unsubscribe sub) = worker_unsubscribes x st sub
  on_event st (worker_cleanup w) = cleanup_worker st w
