-- ===== src/VpnInstance/RouteTargets.antt =====
-- `update_route_targets`.
use networking_bagpipe_l.Common.{
  ℕ, ◌≡◌, refl, Bool, true, false, not, ◌&&◌, ◌||◌, none, some, List, [], ◌∷◌, ◌++◌, contains, add,
  contains-add, contains-filter, filter_list, eqb, ◌==◌, if◌then◌else◌, arith, ◌∙◌,
}
use networking_bagpipe_l.Engine.{Exabgp, init, set_route_targets}
use networking_bagpipe_l.VpnInstance.Base.{
  Site, Route, Call, advertise, withdraw, subscribe, unsubscribe, dataplane_plug, dataplane_unplug,
  State,
}
use networking_bagpipe_l.VpnInstance.Plug.{advertise_route, withdraw_route}

module _ (x : Exabgp) (s : Site x) where
  open x use {RouteTarget, rt_discrete}

  -- `set(l)`
  unfoldable pub as_set : List RouteTarget → List RouteTarget
  as_set [] = []
  as_set (rt ∷ l) = add rt_discrete rt (as_set l)

  -- `set(l) - set(m)`
  unfoldable pub difference : List RouteTarget → List RouteTarget → List RouteTarget
  difference l m = filter_list (λ rt. not (contains rt_discrete rt m)) (as_set l)

  abbrev pub call : Call x s → State x s → State x s
  call c st = record st { calls = st.calls ++ c ∷ [] }

  -- the two loops on route targets
  unfoldable pub unsubscribe_all : ℕ → ℕ → ℕ → List RouteTarget → State x s → State x s
  unsubscribe_all afi safi flow_vpn [] st = st
  unsubscribe_all afi safi flow_vpn (rt ∷ l) st =
      unsubscribe_all afi safi flow_vpn l
        (call (unsubscribe afi flow_vpn rt) (call (unsubscribe afi safi rt) st))

  unfoldable pub subscribe_all : ℕ → ℕ → ℕ → List RouteTarget → State x s → State x s
  subscribe_all afi safi flow_vpn [] st = st
  subscribe_all afi safi flow_vpn (rt ∷ l) st =
      subscribe_all afi safi flow_vpn l
        (call (subscribe afi flow_vpn rt) (call (subscribe afi safi rt) st))

  abbrev pub is_nil {ℓ} : {A : Type ℓ} → List A → Bool
  is_nil [] = true
  is_nil (_ ∷ _) = false

  -- `frozenset(l) == frozenset(m)`
  unfoldable pub is_same_set : List RouteTarget → List RouteTarget → Bool
  is_same_set l m = is_nil (difference l m) && is_nil (difference m l)

  -- a route with the new export route targets
  unfoldable pub updated_route : List RouteTarget → Route x s → Route x s
  updated_route rts re = set_route_targets x (init x re.nlri none (some re.attributes) none) rts

  unfoldable pub re_export : List RouteTarget → List (Route x s) → State x s → State x s
  re_export rts [] st = st
  re_export rts (re ∷ l) st = re_export rts l (
      if is_nil rts
      then withdraw_route x s re st
      else advertise_route x s (updated_route rts re) st)

  -- `update_route_targets`, on the values of `endpoint_2_route`
  unfoldable pub update_route_targets :
      ℕ → ℕ → ℕ → List RouteTarget → List RouteTarget → List (Route x s) → State x s → State x s
  update_route_targets afi safi flow_vpn new_import_rts new_export_rts routes st =
      let added = difference new_import_rts st.import_rts in
      let removed = difference st.import_rts new_import_rts in
      let left = unsubscribe_all afi safi flow_vpn removed st in
      let st' =
        subscribe_all afi safi flow_vpn added (record left { import_rts = new_import_rts }) in
      let exported = re_export new_export_rts routes (record st' { export_rts = new_export_rts }) in
      if is_same_set new_export_rts st'.export_rts then st' else exported

  -- whether the calls, from the first to the last, leave a subscription
  unfoldable pub is_subscribed : ℕ → ℕ → RouteTarget → Bool → List (Call x s) → Bool
  is_subscribed afi safi rt b [] = b
  is_subscribed afi safi rt b (subscribe a f r ∷ l) =
      is_subscribed afi safi rt (a == afi && f == safi && eqb rt_discrete rt r || b) l
  is_subscribed afi safi rt b (unsubscribe a f r ∷ l) =
      is_subscribed afi safi rt (not (a == afi && f == safi && eqb rt_discrete rt r) && b) l
  is_subscribed afi safi rt b (advertise re ∷ l) = is_subscribed afi safi rt b l
  is_subscribed afi safi rt b (withdraw re ∷ l) = is_subscribed afi safi rt b l
  is_subscribed afi safi rt b (dataplane_plug m i p n ∷ l) = is_subscribed afi safi rt b l
  is_subscribed afi safi rt b (dataplane_unplug m i p n z ∷ l) = is_subscribed afi safi rt b l

  is_subscribed-append :
      (afi safi : ℕ) (rt : RouteTarget) (l m : List (Call x s)) (b : Bool)
      → is_subscribed afi safi rt b (l ++ m)
        ≡ is_subscribed afi safi rt (is_subscribed afi safi rt b l) m
  unfolding is_subscribed
  is_subscribed-append afi safi rt [] m b = refl
  is_subscribed-append afi safi rt (subscribe a f r ∷ l) m b =
      is_subscribed-append afi safi rt l m _
  is_subscribed-append afi safi rt (unsubscribe a f r ∷ l) m b =
      is_subscribed-append afi safi rt l m _
  is_subscribed-append afi safi rt (advertise re ∷ l) m b = is_subscribed-append afi safi rt l m b
  is_subscribed-append afi safi rt (withdraw re ∷ l) m b = is_subscribed-append afi safi rt l m b
  is_subscribed-append afi safi rt (dataplane_plug _ _ _ _ ∷ l) m b =
      is_subscribed-append afi safi rt l m b
  is_subscribed-append afi safi rt (dataplane_unplug _ _ _ _ _ ∷ l) m b =
      is_subscribed-append afi safi rt l m b

  contains-as_set :
      (rt : RouteTarget) (l : List RouteTarget)
      → contains rt_discrete rt (as_set l) ≡ contains rt_discrete rt l
  unfolding as_set contains
  contains-as_set rt [] = refl
  contains-as_set rt (r ∷ l) =
      ground (arith, contains-add rt_discrete rt r (as_set l), contains-as_set rt l)

  contains-difference :
      (rt : RouteTarget) (l m : List RouteTarget)
      → contains rt_discrete rt (difference l m)
        ≡ (contains rt_discrete rt l && not (contains rt_discrete rt m))
  unfolding difference
  contains-difference rt l m = ground (
    arith,
    contains-filter rt_discrete rt (λ r. not (contains rt_discrete r m)) (as_set l),
    contains-as_set rt l,
  )

  -- the last subscription of the route target, at one of the two SAFIs
  abbrev pub follows : ℕ → ℕ → RouteTarget → State x s → Bool
  follows afi f rt st = is_subscribed afi f rt false st.calls

  follows-call :
      (afi f : ℕ) (rt : RouteTarget) (c : Call x s) (st : State x s)
      → follows afi f rt (call c st) ≡ is_subscribed afi f rt (follows afi f rt st) (c ∷ [])
  follows-call afi f rt c st = is_subscribed-append afi f rt st.calls (c ∷ []) false

  module _ (afi safi flow_vpn f : ℕ) (mine : (f == safi || f == flow_vpn) ≡ true)
      (rt : RouteTarget) where
    unsubscribe_all-follows :
        (l : List RouteTarget) (st : State x s)
        → follows afi f rt (unsubscribe_all afi safi flow_vpn l st)
          ≡ (follows afi f rt st && not (contains rt_discrete rt l))
    unfolding unsubscribe_all contains is_subscribed
    unsubscribe_all-follows [] st = ground arith
    unsubscribe_all-follows (r ∷ l) st =
        let st₁ = call (unsubscribe afi safi r) st in
        let st₂ = call (unsubscribe afi flow_vpn r) st₁ in
        ground (
          arith,
          mine,
          unsubscribe_all-follows l st₂,
          follows-call afi f rt (unsubscribe afi flow_vpn r) st₁,
          follows-call afi f rt (unsubscribe afi safi r) st,
        )

    subscribe_all-follows :
        (l : List RouteTarget) (st : State x s)
        → follows afi f rt (subscribe_all afi safi flow_vpn l st)
          ≡ (follows afi f rt st || contains rt_discrete rt l)
    unfolding subscribe_all contains is_subscribed
    subscribe_all-follows [] st = ground arith
    subscribe_all-follows (r ∷ l) st =
        let st₁ = call (subscribe afi safi r) st in
        let st₂ = call (subscribe afi flow_vpn r) st₁ in
        ground (
          arith,
          mine,
          subscribe_all-follows l st₂,
          follows-call afi f rt (subscribe afi flow_vpn r) st₁,
          follows-call afi f rt (subscribe afi safi r) st,
        )

    re_export-follows :
        (rts : List RouteTarget) (l : List (Route x s)) (st : State x s)
        → follows afi f rt (re_export rts l st) ≡ follows afi f rt st
    unfolding re_export is_subscribed
    re_export-follows rts [] st = refl
    re_export-follows [] (re ∷ l) st =
        re_export-follows [] l (withdraw_route x s re st) ∙ follows-call afi f rt (withdraw re) st
    re_export-follows (r ∷ rts) (re ∷ l) st =
        re_export-follows (r ∷ rts) l (advertise_route x s (updated_route (r ∷ rts) re) st)
        ∙ follows-call afi f rt (advertise (updated_route (r ∷ rts) re)) st

    -- If the subscriptions of the instance are its import route targets, at its own SAFI and at that
    -- of FlowSpec, they are the new ones after `update_route_targets`.
    pub update_route_targets-follows :
        (new_import_rts new_export_rts : List RouteTarget) (routes : List (Route x s))
        (st : State x s)
        → follows afi f rt st ≡ contains rt_discrete rt st.import_rts
        → follows afi f rt
            (update_route_targets afi safi flow_vpn new_import_rts new_export_rts routes st)
          ≡ contains rt_discrete rt new_import_rts
    unfolding update_route_targets
    update_route_targets-follows new_import_rts new_export_rts routes st h =
        let left = unsubscribe_all afi safi flow_vpn (difference st.import_rts new_import_rts) st in
        let st' =
          subscribe_all afi safi flow_vpn (difference new_import_rts st.import_rts)
            (record left { import_rts = new_import_rts }) in
        ground (
          arith,
          h,
          re_export-follows new_export_rts routes (record st' { export_rts = new_export_rts }),
          subscribe_all-follows (difference new_import_rts st.import_rts)
              (record left { import_rts = new_import_rts }),
          unsubscribe_all-follows (difference st.import_rts new_import_rts) st,
          contains-difference rt new_import_rts st.import_rts,
          contains-difference rt st.import_rts new_import_rts,
        )
