-- ===== src/RouteTable/Tests.antt =====
-- Runs of the route table manager, and the theorems about it at concrete histories.
use networking_bagpipe_l.Common.{
  ℕ_discrete, add, discard, ◌≡◌, refl, true, false, not, ◌&&◌, none, some, List, [], ◌∷◌, contains,
  eqb,
}
use networking_bagpipe_l.Engine.{
  source_discrete, bgp_peer, vpn_instance, RouteEvent, event_for, is_bgp_peer, all_ecoms,
  entry_discrete, targets_of, advertise, withdraw, route_targets,
}
use networking_bagpipe_l.Engine.Toy.{toy, a_route}
use networking_bagpipe_l.RouteTable.Match.{
  Match, match_discrete, matches_for, matches_with, covers, contains-matches_for,
}
use networking_bagpipe_l.RouteTable.Defs.{
  State, first_local_subscriber, Event, route, subscribe, worker_cleanup, Subscription, intersects,
  test_should_dispatch, add_worker, at, put, resynthesize, had_subscription, worker_subscribes,
}
use networking_bagpipe_l.RouteTable.Routes.{
  matches_of, propagate_route_event, on_event, is_same, is_target, find_targets, add_targets,
  deliver_all, remove_replaced, record_route, add_entry, receive_advertise, receive_as,
  receive_route_event,
}
use networking_bagpipe_l.RouteTable.Consistent.{IsConsistent, is_current, initial}
use networking_bagpipe_l.RouteTable.Receive.{on_event-IsConsistent}
use networking_bagpipe_l.RouteTable.View.{View, apply, see, see_all, IsExact, contains-targets}
use networking_bagpipe_l.RouteTable.Subscribed.{unseen, exact_matches, worker_subscribes-sent}
use networking_bagpipe_l.RouteTable.Promise.{forget, learn, run, run-IsExact, on_event-IsExact}
use networking_bagpipe_l.Common.{◌+◌}
use networking_bagpipe_l.RouteTable.Defs.{WorkersAndEntries, unsubscribe, nobody, del_worker}
use networking_bagpipe_l.RouteTable.Table.{is_subscribed}
use networking_bagpipe_l.RouteTable.Callbacks.{hear_all, IsHeard, del_worker-add_worker_twice}
use networking_bagpipe_l.RouteTable.Told.{Heard, is_fresh, Heard-IsHeard}

-- any address family, the route target 7
abbrev seven : Match toy
seven = record { afi = none; safi = none; route_target = some 7 }

abbrev interest : Subscription toy
interest = record { matching = seven; worker = vpn_instance 1 }

abbrev update_seven : RouteEvent toy
update_seven = event_for toy advertise (a_route (bgp_peer 0))

abbrev withdraw_seven : RouteEvent toy
withdraw_seven = event_for toy withdraw (a_route (bgp_peer 0))

-- an instance subscribes, a peer advertises a route, and another peer subscribes
abbrev history : List (Event toy)
history =
    subscribe interest
    ∷ route update_seven
    ∷ subscribe (record { matching = seven; worker = bgp_peer 2 })
    ∷ []

abbrev nothing : View toy
nothing w d = false

abbrev after : State toy × View toy
after = run toy (initial toy) nothing history

subscribe_first :
    (on_event toy (initial toy) (subscribe interest)).1 ≡ first_local_subscriber interest ∷ []
unfolding on_event worker_subscribes add_worker is_bgp_peer at initial resynthesize
subscribe_first = refl

-- the instance gets the route, the peer does not
view_after :
    (after.1 (vpn_instance 1) (a_route (bgp_peer 0)) ≡ true)
    × (after.1 (bgp_peer 2) (a_route (bgp_peer 0)) ≡ false)
unfolding run on_event learn see_all worker_subscribes add_worker is_bgp_peer resynthesize at
    receive_route_event receive_as event_for receive_advertise is_same put initial record_route
    add_entry matches_for ℕ_discrete add contains discard all_ecoms entry_discrete route_targets
    source_discrete targets_of had_subscription test_should_dispatch match_discrete matches_with
    forget add_targets deliver_all find_targets is_target propagate_route_event remove_replaced
    apply see
view_after = (refl, refl)

run-IsExact_example :
    IsConsistent toy (run toy (initial toy) (λ w d. false) history).0
    × IsExact toy
        (run toy (initial toy) (λ w d. false) history).0
        (run toy (initial toy) (λ w d. false) history).1
run-IsExact_example = run-IsExact toy history

on_event-IsExact_example :
    IsExact toy
      (on_event toy after.0 (route withdraw_seven)).0
      (learn toy after.1 (route withdraw_seven) (on_event toy after.0 (route withdraw_seven)).1)
on_event-IsExact_example =
    on_event-IsExact toy after.0 after.1 (route withdraw_seven) (run-IsExact toy history).0
      (run-IsExact toy history).1

on_event-IsConsistent_example :
    IsConsistent toy (on_event toy after.0 (worker_cleanup (vpn_instance 1))).0
on_event-IsConsistent_example =
    on_event-IsConsistent toy after.0 (worker_cleanup (vpn_instance 1)) (run-IsExact toy history).0

contains-targets_example :
    contains source_discrete (vpn_instance 1) (propagate_route_event toy after.0 update_seven []).1
    ≡ (intersects toy (matches_of toy (a_route (bgp_peer 0))) (after.0.rtm_matches (vpn_instance 1))
        && (test_should_dispatch toy (bgp_peer 0) (vpn_instance 1)
            && not (contains source_discrete (vpn_instance 1) [])))
unfolding event_for
contains-targets_example =
    contains-targets toy after.0 update_seven [] (vpn_instance 1) (run-IsExact toy history).0

contains-matches_for_example :
    contains
      (match_discrete toy)
      seven
      (matches_for toy 1 128 (route_targets toy (a_route (bgp_peer 0))))
    ≡ covers toy seven (a_route (bgp_peer 0))
contains-matches_for_example = contains-matches_for toy seven (a_route (bgp_peer 0))

-- the instance subscribes again, to the routes of one address family
worker_subscribes-sent_example :
    see_all toy
      (unseen toy)
      (worker_subscribes toy after.0
        (record interest { matching = record seven { afi = some 1; safi = some 128 } })).1
      (vpn_instance 1)
      (a_route (bgp_peer 0))
    ≡ (eqb source_discrete (vpn_instance 1) (vpn_instance 1)
        && (covers toy (record seven { afi = some 1; safi = some 128 }) (a_route (bgp_peer 0))
            && is_current toy after.0 (a_route (bgp_peer 0)))
        && test_should_dispatch toy (bgp_peer 0) (vpn_instance 1)
        && not (
            intersects toy
              (exact_matches toy (a_route (bgp_peer 0)) (route_targets toy (a_route (bgp_peer 0))))
              (after.0.rtm_matches (vpn_instance 1))))
worker_subscribes-sent_example =
    worker_subscribes-sent toy after.0
      (record interest { matching = record seven { afi = some 1; safi = some 128 } })
      (vpn_instance 1) (a_route (bgp_peer 0)) (run-IsExact toy history).0

Heard-IsHeard_example :
    IsHeard toy
      (on_event toy (on_event toy (initial toy) (subscribe interest)).0 (unsubscribe interest)).0
      (hear_all toy
        (hear_all toy (λ m. false) (on_event toy (initial toy) (subscribe interest)).1)
        (on_event toy (on_event toy (initial toy) (subscribe interest)).0 (unsubscribe interest)).1)
unfolding is_fresh is_subscribed at initial contains
Heard-IsHeard_example =
    Heard-IsHeard toy
      (Heard.next (unsubscribe interest) (Heard.next (subscribe interest) Heard.start refl) refl)

del_worker-add_worker_twice_example :
    (wa' : WorkersAndEntries toy) × (del_worker toy
        (vpn_instance 1)
        (add_worker toy (vpn_instance 1) (add_worker toy (vpn_instance 1) (nobody toy)).0).0
      ≡ some (wa', false))
    × (contains source_discrete (vpn_instance 1) wa'.workers ≡ false)
    × (wa'.n_local_workers ≡ (nobody toy).n_local_workers + 1)
unfolding is_bgp_peer contains
del_worker-add_worker_twice_example =
    del_worker-add_worker_twice toy (vpn_instance 1) (nobody toy) refl refl
