-- ===== src/Tracker/Tests.antt =====
-- Runs of the tracker with `compare_ecmp`, and the theorems about it at concrete routes.
use networking_bagpipe_l.Common.{
  ℕ, ◌≡◌, refl, true, false, none, some, List, [], ◌∷◌, ◌++◌, contains, add, remove_first,
  ℕ_discrete, IsDistinct, arith,
}
use networking_bagpipe_l.Engine.{Source, bgp_peer, RouteEntry, source_discrete, entry_discrete}
use networking_bagpipe_l.Engine.Toy.{toy, two_targets, a_route}
use networking_bagpipe_l.Tracker.Base.{
  Tracking, recompute_from, recompute_step, collect, RouteEvent, advertise, recompute_best_routes,
}
use networking_bagpipe_l.Tracker.Handler.{
  on_mapped, on_entry, write, on_advertise, on_withdraw, on_event,
}
use networking_bagpipe_l.Tracker.Top.{IsTop}
use networking_bagpipe_l.Tracker.Best.{recompute_best_routes-IsTop}
use networking_bagpipe_l.Tracker.Advertise.{remaining, on_advertise-IsTop}
use networking_bagpipe_l.Tracker.Withdraw.{IsSlot, routes_of, on_withdraw-IsSlot}
use networking_bagpipe_l.Tracker.Calls.{hear_all, names}
use networking_bagpipe_l.Tracker.Known.{Knows}
use networking_bagpipe_l.Tracker.Learned.{on_advertise-Knows, on_withdraw-Knows}
use networking_bagpipe_l.Tracker.Events.{
  IsTracked, is_new, is_new_in, initial, Reach, on_event-IsTracked, Reach-IsTracked,
}
use networking_bagpipe_l.Tracker.Ecmp.{ecmp, same_route}

abbrev head : RouteEntry toy Source → List (RouteEntry toy Source) → RouteEntry toy Source
head r rs = r

head-contains :
    (r : RouteEntry toy Source) (rs : List (RouteEntry toy Source))
    → contains (same_route toy) (head r rs) (r ∷ rs) ≡ true
unfolding contains
head-contains r rs = ground arith

-- the entry of a route is its NLRI
abbrev tracking : Tracking
tracking = ecmp toy (16 ∷ 5 ∷ []) ℕ ℕ_discrete (λ r. some r.nlri) head head-contains

-- the same NLRI from two peers, the second with a higher preference
abbrev low : RouteEntry toy Source
low = a_route (bgp_peer 0)

abbrev high : RouteEntry toy Source
high = record (a_route (bgp_peer 1)) { attributes = record two_targets { localpref = some 200 } }

abbrev arrival : RouteEntry toy Source → RouteEvent tracking
arrival r = record { type = advertise; route_entry = r; replaced_route = none }

recompute_best_routes-IsTop_example :
    IsTop tracking (recompute_best_routes tracking (low ∷ high ∷ [])) (low ∷ high ∷ [])
recompute_best_routes-IsTop_example = recompute_best_routes-IsTop tracking (low ∷ high ∷ [])

-- the best routes of the one route `low`
low-IsTop : IsTop tracking (low ∷ []) (low ∷ [])
unfolding recompute_best_routes recompute_from recompute_step collect add contains
low-IsTop = recompute_best_routes-IsTop tracking (low ∷ [])

on_advertise-IsTop_example :
    let (all', best', _) = on_advertise tracking 1 high none (low ∷ []) (some (low ∷ [])) in
    (all' ≡ remaining tracking none (low ∷ []) ++ high ∷ [])
    × IsTop tracking best' all'
    × IsDistinct (same_route toy) all'
unfolding contains entry_discrete source_discrete ℕ_discrete
on_advertise-IsTop_example =
    on_advertise-IsTop tracking 1 high none (low ∷ []) (low ∷ []) (refl, tt) refl low-IsTop

on_withdraw-IsSlot_example :
    let (all', best', _) = on_withdraw tracking 1 low (low ∷ []) (some (low ∷ [])) in
    (routes_of tracking all' ≡ remove_first (same_route toy) low (low ∷ []))
    × IsSlot tracking (routes_of tracking all') best'
unfolding contains
on_withdraw-IsSlot_example =
    on_withdraw-IsSlot tracking 1 low (low ∷ []) (some (low ∷ []))
      ((λ h. cc), low-IsTop, (refl, tt))

on_advertise-Knows_example :
    let (_, best', calls) = on_advertise tracking 1 high none (low ∷ []) (some (low ∷ [])) in
    Knows tracking 1 1 (tracking.filtered low) (names tracking (low ∷ [])) calls best'
unfolding contains entry_discrete source_discrete ℕ_discrete
on_advertise-Knows_example =
    on_advertise-Knows tracking 1 1 (tracking.filtered low) (names tracking (low ∷ [])) high none
      (low ∷ []) (low ∷ []) refl low-IsTop (λ h. refl)

on_withdraw-Knows_example :
    let (_, best', calls) = on_withdraw tracking 1 low (low ∷ []) (some (low ∷ [])) in
    Knows tracking 1 1
      (tracking.filtered low)
      (names tracking (low ∷ []))
      calls
      (routes_of tracking best')
on_withdraw-Knows_example =
    on_withdraw-Knows tracking 1 1 (tracking.filtered low) (names tracking (low ∷ [])) low
      (low ∷ []) (some (low ∷ [])) (λ h. refl)

on_event-IsTracked_example :
    let (st, calls) = on_event tracking (initial tracking) (arrival low) in
    IsTracked tracking st (λ e. hear_all tracking e (λ f. false) calls)
unfolding is_new is_new_in initial contains
on_event-IsTracked_example =
    on_event-IsTracked tracking (initial tracking) (λ e f. false) (arrival low)
      (Reach-IsTracked tracking Reach.start) refl

Reach-IsTracked_example :
    let (st, calls) = on_event tracking (initial tracking) (arrival low) in
    let (st', calls') = on_event tracking st (arrival high) in
    IsTracked tracking st'
      (λ e. hear_all tracking e (hear_all tracking e (λ f. false) calls) calls')
unfolding is_new is_new_in initial contains on_event on_mapped on_entry write ℕ_discrete
    on_advertise entry_discrete
Reach-IsTracked_example =
    Reach-IsTracked tracking
      (Reach.next (arrival high) (Reach.next (arrival low) Reach.start refl) refl)
