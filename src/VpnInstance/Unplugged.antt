-- ===== src/VpnInstance/Unplugged.antt =====
-- `vif_unplugged_real` as a whole, for an endpoint that is plugged.
use networking_bagpipe_l.Common.{
  ◌≡◌, ◌≢◌, refl, Bool, true, false, not, ◌&&◌, Option, none, some, List, [], ◌∷◌, ◌++◌, contains,
  contains-discard, discard, update, is_some, eqb, ◌==◌, if◌then◌else◌, arith, Option-cases, inl,
  inr, ap, subst, leb, length,
}
use networking_bagpipe_l.Common.Dicts.{get}
use networking_bagpipe_l.Common.Outcome.{ensure, Returns, Returns-after, Returns-with}
use networking_bagpipe_l.Engine.{Exabgp}
use networking_bagpipe_l.Allocator.{IdAllocator, is_allocated}
use networking_bagpipe_l.VpnInstance.Base.{
  Site, Direction, key_error, not_plugged_yet, endpoint_missing, incomplete, withdraw, Endpoint,
  endpoint_discrete, Route, PortData, Dataplane, dataplane_unplug, State, Call, endpoints_in,
  endpoints_of, members,
}
use networking_bagpipe_l.VpnInstance.Plug.{forward_to_port}
use networking_bagpipe_l.VpnInstance.Handlers.{
  require, unplug_from, has_mac, none_if_nil, vif_unplugged_real,
}
use networking_bagpipe_l.VpnInstance.Tidy.{
  Leaves, IsTidy, is_at, is_on-is_plugged, is_plugged, is_plugged_at, is_on,
}
use networking_bagpipe_l.VpnInstance.Closed.{Closed, closed-Leaves}
use networking_bagpipe_l.VpnInstance.Leave.{
  checked, Left, parses, parse_ip-parses, unplug_dataplane-works, leaves, free_rd_if,
  raise_if-known,
}
use networking_bagpipe_l.VpnInstance.Forget.{less_macs, less_ips, forgets}

module _ (x : Exabgp) (s : Site x) where
  open s use {
    Mac, Prefix, Port, Interface, interface_discrete, linuxif, mac_discrete, prefix_discrete, Ip,
  }

  -- the state in the end, but for the order of the assignments
  abbrev unplugged :
      Endpoint x s
      → Interface
      → IdAllocator (Endpoint x s)
      → IdAllocator (Endpoint x s)
      → List (Interface × List (Endpoint x s))
      → List (Call x s)
      → State x s
      → State x s
  unplugged e i labels rds new cs st = record st {
    localport_2_endpoints = new;
    endpoint_2_rd = update (endpoint_discrete x s) st.endpoint_2_rd e none;
    endpoint_2_route = update (endpoint_discrete x s) st.endpoint_2_route e none;
    mac_2_localport_data =
        if has_mac x s e.mac (endpoints_in x s new i)
        then st.mac_2_localport_data
        else update mac_discrete st.mac_2_localport_data e.mac none;
    ip_address_2_mac = less_macs x s e.mac e.ip (checked x s e.ip st.ip_address_2_mac);
    mac_2_ips = less_ips x s e.mac e.ip st.mac_2_ips;
    endpoint_2_desc = update (endpoint_discrete x s) st.endpoint_2_desc e false;
    label_allocator = labels;
    rd_allocator = rds;
    calls = cs;
  }

  members-none_if_nil {ℓ} : {A : Type ℓ} (l : List A) → members (none_if_nil x s l) ≡ l
  members-none_if_nil [] = refl
  members-none_if_nil (a ∷ l) = refl

  none_if_nil-filled {ℓ} : {A : Type ℓ} (l : List A) → none_if_nil x s l ≢ some []
  none_if_nil-filled [] = ground arith
  none_if_nil-filled (a ∷ l) = ground arith

  macs_less :
      (n : Mac) (o : Option Prefix) (f : Prefix → Option (List Mac)) (m : Mac) (p : Prefix)
      → contains mac_discrete m (members (less_macs x s n o (checked x s o f) p)) ≡ (
          contains mac_discrete m (members (f p))
          && not (
              eqb
                (endpoint_discrete x s)
                (record { mac = m; ip = some p })
                (record { mac = n; ip = o })))
  macs_less n none f m p = ground arith
  macs_less n (some q) f m p = ground (
    arith,
    members-none_if_nil (discard mac_discrete n (members (f q))),
    contains-discard mac_discrete m n (members (f q)),
  )

  ips_less :
      (n : Mac) (o : Option Prefix) (f : Mac → Option (List Prefix)) (m : Mac) (p : Prefix)
      → contains prefix_discrete p (members (less_ips x s n o f m)) ≡ (
          contains prefix_discrete p (members (f m))
          && not (
              eqb
                (endpoint_discrete x s)
                (record { mac = m; ip = some p })
                (record { mac = n; ip = o })))
  ips_less n none f m p = ground arith
  ips_less n (some q) f m p = ground (
    arith,
    members-none_if_nil (discard prefix_discrete q (members (f n))),
    contains-discard prefix_discrete p q (members (f n)),
  )

  macs-inhabited :
      (n : Mac) (o : Option Prefix) (f : Prefix → Option (List Mac)) (p : Prefix)
      → f p ≢ some []
      → less_macs x s n o (checked x s o f) p ≢ some []
  macs-inhabited n none f p h = h
  macs-inhabited n (some q) f p h =
      ground (arith, h, none_if_nil-filled (discard mac_discrete n (members (f q))))

  unplugged-Closed :
      (e : Endpoint x s) (i : Interface) (labels rds : IdAllocator (Endpoint x s))
      (new : List (Interface × List (Endpoint x s))) (cs : List (Call x s)) (last : Bool)
      (st : State x s)
      → IsTidy x s st
      → Left x s e i last st.localport_2_endpoints new
      → Closed x s e i st (unplugged e i labels rds new cs st)
  unplugged-Closed e i labels rds new cs last st tidy left = record {
    ports = left.endpoints;
    filled = left.full;
    data_of = λ m. ground arith;
    routes = λ a. ground arith;
    rds = λ a h. ground (arith, h);
    directions = λ a. refl;
    described = λ a. ground arith;
    macs_of = λ m p. macs_less e.mac e.ip st.ip_address_2_mac m p;
    inhabited = λ p. macs-inhabited e.mac e.ip st.ip_address_2_mac p (tidy.inhabited p);
    prefixes_of = λ m p. ips_less e.mac e.ip st.mac_2_ips m p;
  }

  module _ (dp : Dataplane x s) (e : Endpoint x s) (d : PortData x s) (direction : Option Direction)
      (rd : s.Rd) (st₀ : State x s) (tidy : IsTidy x s st₀)
      (e_on : is_on x s st₀ (linuxif d.port_info) e ≡ true)
      (forward : forward_to_port direction ≡ true)
      (works : (ip : Option Ip) (last : Bool)
        → dp.vif_unplugged e.mac ip d.port_info d.label direction last ≡ true)
      (prefix : parses x s e.ip ≡ true) (labelled : is_allocated d.label st₀.label_allocator ≡ true)
      (rd_of : st₀.endpoint_2_rd e ≡ some rd)
      (numbered : is_allocated (s.rd_number rd) st₀.rd_allocator ≡ true) where
    abbrev st₁ : State x s
    st₁ = record st₀ { ip_address_2_mac = checked x s e.ip st₀.ip_address_2_mac }

    e_located : is_at x s (st₀.mac_2_localport_data e.mac) (linuxif d.port_info) ≡ true
    e_located = tidy.located (linuxif d.port_info) e e_on

    e_plugged : is_plugged x s st₀ e ≡ true
    e_plugged = is_on-is_plugged x s st₀ (linuxif d.port_info) e tidy e_on

    unplug_from-Returns :
        (re : Route x s)
        → st₀.endpoint_2_route e ≡ some re
        → Returns
            (λ _ st'.
              Leaves x s (λ a. is_plugged x s st₀ a && not (eqb (endpoint_discrete x s) a e)) st')
            (unplug_from x s dp e d direction st₁)
    unfolding unplug_from is_on
    unplug_from-Returns re route_of =
        let i = linuxif d.port_info in
        let (ip, ip_of) = parse_ip-parses x s e.ip st₁ prefix in
        let last = leb (length (endpoints_of x s st₀ i)) 1 in
        let st₂ : State x s = record st₁ {
          calls = st₁.calls ++ withdraw re ∷ [];
          endpoint_2_route = update (endpoint_discrete x s) st₁.endpoint_2_route e none;
        } in
        let st₃ : State x s = record st₂ {
          calls = st₂.calls ++ dataplane_unplug e.mac ip d.port_info d.label last ∷ [];
        } in
        let (labels, new, left_port, left) =
          leaves x s e i d.label st₃ last refl labelled e_on (tidy.distinct i) tidy.filled in
        let st₄ : State x s = record st₃ {
          label_allocator = labels;
          localport_2_endpoints = new;
        } in
        let (rds, freed) =
          free_rd_if x s (forward_to_port direction) e rd st₄ forward rd_of numbered in
        let st₅ : State x s = record st₄ {
          rd_allocator = rds;
          endpoint_2_rd = update (endpoint_discrete x s) st₄.endpoint_2_rd e none;
        } in
        Returns-after _ ip_of (
          Returns-after _ (ap (λ (o : Option (Route x s)). require x s o key_error st₁) route_of) (
            Returns-after _
              (unplug_dataplane-works x s dp e ip d direction last st₂ forward (works ip last))
              (Returns-after _ left_port (
                Returns-after _ freed (
                  Returns-with
                    (forgets x s e i last st₅ left.alone (ground (arith, tidy.served e e_plugged)))
                    ((closed-Leaves x s e i st₀ _ tidy e_located
                      (unplugged-Closed e i labels rds new st₃.calls last st₀ tidy left))))))))

    -- the endpoint of a prefix is bound to its MAC address
    bound :
        (p : Prefix)
        → e.ip ≡ some p
        → contains mac_discrete e.mac (members (st₀.ip_address_2_mac p)) ≡ true
    bound p h = ground (arith, tidy.macs e.mac p, e_plugged, h)

  on_known_port :
      (st : State x s) (i : Interface) (e : Endpoint x s)
      → is_on x s st i e ≡ true
      → is_some (get interface_discrete i st.localport_2_endpoints) ≡ true
  unfolding is_on endpoints_in contains
  on_known_port st i e h = ground (arith, h)

  plugged_on :
      (st : State x s) (e : Endpoint x s) (d : PortData x s)
      → st.mac_2_localport_data e.mac ≡ some d
      → is_plugged x s st e ≡ true
      → is_on x s st (linuxif d.port_info) e ≡ true
  unfolding is_plugged_at
  plugged_on st e d h k = subst (λ (o : Option (PortData x s)). is_plugged_at x s st o e ≡ true) h k

  -- The unplug of an endpoint that is plugged returns and leaves tables that agree, where just that
  -- endpoint is no longer plugged: if the dataplane does not raise, the prefix of the endpoint is
  -- one, and its label, not 0, and its route distinguisher are allocated.
  pub vif_unplugged_real-IsTidy :
      (dp : Dataplane x s) (m : Mac) (o : Option Prefix) (d : PortData x s)
      (direction : Option Direction) (rd : s.Rd) (st : State x s)
      → IsTidy x s st
      → st.mac_2_localport_data m ≡ some d
      → is_plugged x s st (record { mac = m; ip = o }) ≡ true
      → st.endpoint_2_direction (record { mac = m; ip = o }) ≡ some direction
      → st.endpoint_2_rd (record { mac = m; ip = o }) ≡ some rd
      → ((ip : Option Ip) (last : Bool)
          → dp.vif_unplugged m ip d.port_info d.label direction last ≡ true)
      → parses x s o ≡ true
      → (d.label == 0) ≡ false
      → is_allocated d.label st.label_allocator ≡ true
      → is_allocated (s.rd_number rd) st.rd_allocator ≡ true
      → Returns
          (λ _ st'.
            Leaves x s
              (λ a.
                is_plugged x s st a
                && not (eqb (endpoint_discrete x s) a (record { mac = m; ip = o })))
              st')
          (vif_unplugged_real x s dp m o st)
  unfolding vif_unplugged_real
  vif_unplugged_real-IsTidy dp m o d direction rd st tidy data_of plugged direction_of rd_of works
        prefix nonzero labelled numbered =
      let e : Endpoint x s = record { mac = m; ip = o } in
      let e_on = plugged_on st e d data_of plugged in
      let forward : forward_to_port direction ≡ true =
        ground (arith, tidy.served e plugged, direction_of) in
      let checked_st : State x s = record st {
        ip_address_2_mac = checked x s o st.ip_address_2_mac;
      } in
      let known = on_known_port st (linuxif d.port_info) e e_on in
      elim (Option-cases (st.endpoint_2_route e)) [
        | inl n ↦ ground (arith, n, tidy.routed e, plugged)
        | inr (re, route_of) ↦
            Returns-after _
              (ap (λ (u : Option (PortData x s)). require x s u not_plugged_yet st) data_of)
              (Returns-after _
                (raise_if-known x s m o st (
                  bound dp e d direction rd st tidy e_on forward works prefix labelled rd_of
                    numbered))
                (Returns-after _
                  (ap (λ (u : Option s.Rd). require x s u endpoint_missing checked_st) rd_of)
                  (Returns-after _
                    (ap (λ (u : Option (Option Direction)). require x s u key_error checked_st)
                      direction_of)
                    (Returns-after _ (ap (λ b. ensure (not b) incomplete checked_st) nonzero) (
                      Returns-after _ (ap (λ b. ensure b incomplete checked_st) known) (
                        unplug_from-Returns dp e d direction rd st tidy e_on forward works prefix
                          labelled rd_of numbered re route_of))))))
      ]
