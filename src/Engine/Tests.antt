-- ===== src/Engine/Tests.antt =====
-- The theorems about route targets at concrete routes.
use networking_bagpipe_l.Common.{◌≡◌, refl, [], ◌∷◌}
use networking_bagpipe_l.Engine.{bgp_peer, route_targets, ecoms, set_route_targets}
use networking_bagpipe_l.Engine.Toy.{toy, a_route}
use networking_bagpipe_l.Engine.Targets.{is_plain, route_targets-set_route_targets}

targets_of_route : route_targets toy (a_route (bgp_peer 0)) ≡ 7 ∷ 8 ∷ []
unfolding route_targets
targets_of_route = refl

route_targets-set_route_targets_example :
    (route_targets toy (set_route_targets toy (a_route (bgp_peer 0)) (9 ∷ [])) ≡ 9 ∷ [])
    × (ecoms toy (set_route_targets toy (a_route (bgp_peer 0)) (9 ∷ [])) (is_plain toy)
        ≡ ecoms toy (a_route (bgp_peer 0)) (is_plain toy))
route_targets-set_route_targets_example =
    route_targets-set_route_targets toy (a_route (bgp_peer 0)) (9 ∷ [])
