-- ===== src/Engine/Targets.antt =====
-- The route targets of a route that was built or changed.
use networking_bagpipe_l.Common.{
  ◌≡◌, refl, Bool, not, some, List, [], ◌∷◌, ◌++◌, map, filter_list, is_some, append-nil, sym,
  arith,
}
use networking_bagpipe_l.Engine.{
  Exabgp, RouteEntry, targets_of, all_ecoms, route_targets, init, ecoms, set_route_targets,
}

filter_list-append {ℓ} :
    {A : Type ℓ} (p : A → Bool) (xs ys : List A)
    → filter_list p (xs ++ ys) ≡ filter_list p xs ++ filter_list p ys
filter_list-append p [] ys = refl
filter_list-append p (x ∷ xs) ys = ground (arith, filter_list-append p xs ys)

module _ (x : Exabgp) where
  targets_of-append :
      (es fs : List x.Ecom) → targets_of x (es ++ fs) ≡ targets_of x es ++ targets_of x fs
  unfolding targets_of
  targets_of-append [] fs = refl
  targets_of-append (e ∷ es) fs = ground (arith, targets_of-append es fs)

  targets_of-map : (rts : List x.RouteTarget) → targets_of x (map x.rt_ecom rts) ≡ rts
  unfolding targets_of
  targets_of-map [] = refl
  targets_of-map (rt ∷ rts) = ground (arith, x.as_route_target-rt_ecom rt, targets_of-map rts)

  -- an extended community that is no route target
  abbrev pub is_plain : x.Ecom → Bool
  is_plain e = not (is_some (x.as_route_target e))

  targets_of-filter_list : (es : List x.Ecom) → targets_of x (filter_list is_plain es) ≡ []
  unfolding targets_of
  targets_of-filter_list [] = refl
  targets_of-filter_list (e ∷ es) = ground (arith, targets_of-filter_list es)

  plain_again :
      (es : List x.Ecom) → filter_list is_plain (filter_list is_plain es) ≡ filter_list is_plain es
  plain_again [] = refl
  plain_again (e ∷ es) = ground (arith, plain_again es)

  no_plain : (rts : List x.RouteTarget) → filter_list is_plain (map x.rt_ecom rts) ≡ []
  no_plain [] = refl
  no_plain (rt ∷ rts) = ground (arith, x.as_route_target-rt_ecom rt, no_plain rts)

  all_ecoms-put_communities :
      (cs : List x.Ecom) (a : x.Attributes) → all_ecoms x (x.put_communities cs a) ≡ cs
  unfolding all_ecoms
  all_ecoms-put_communities cs a = rw (x.communities-put_communities cs a, all_ecoms)

  module _ {S : Type 0} where
    -- A route that is built with the route targets `rts` has those of its attributes, followed by
    -- `rts`.
    route_targets-init :
        (n : x.Nlri) (rts : List x.RouteTarget) (a : x.Attributes) (s : S)
        → route_targets x (init x n (some rts) (some a) s) ≡ targets_of x (all_ecoms x a) ++ rts
    unfolding init route_targets
    route_targets-init n [] a s = sym (append-nil (targets_of x (all_ecoms x a)))
    route_targets-init n (rt ∷ rts) a s = rw (
      all_ecoms-put_communities (all_ecoms x a ++ map x.rt_ecom (rt ∷ rts)) a,
      targets_of-append (all_ecoms x a) (map x.rt_ecom (rt ∷ rts)),
      targets_of-map (rt ∷ rts),
    )

    -- After `set_route_targets` the route has exactly the given route targets, whatever it had, and
    -- the same extended communities that are no route targets.
    pub route_targets-set_route_targets :
        (re : RouteEntry x S) (rts : List x.RouteTarget)
        → (route_targets x (set_route_targets x re rts) ≡ rts)
          × (ecoms x (set_route_targets x re rts) is_plain ≡ ecoms x re is_plain)
    unfolding route_targets set_route_targets ecoms
    route_targets-set_route_targets re rts =
        let old = all_ecoms x re.attributes in
        let plain = filter_list is_plain old in
        let put = all_ecoms-put_communities (plain ++ map x.rt_ecom rts) re.attributes in
        (
          rw (
            put,
            targets_of-append plain (map x.rt_ecom rts),
            targets_of-filter_list old,
            targets_of-map rts,
          ),
          rw (
            put,
            filter_list-append is_plain plain (map x.rt_ecom rts),
            plain_again old,
            no_plain rts,
            append-nil,
          ),
        )
