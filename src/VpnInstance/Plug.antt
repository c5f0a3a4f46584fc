-- ===== src/VpnInstance/Plug.antt =====
-- `vif_plugged`, with the route that it synthesizes.
use networking_bagpipe_l.Common.{
  ℕ, ℕ_discrete, Bool, true, false, not, ◌&&◌, Option, none, some, List, [], ◌∷◌, ◌++◌, contains,
  add, discard, update, filter_list, is_some, eqb, ◌==◌, if◌then◌else◌,
}
use networking_bagpipe_l.Common.Dicts.{put}
use networking_bagpipe_l.Engine.{Exabgp, set_route_targets}
use networking_bagpipe_l.Allocator
use networking_bagpipe_l.Allocator.{IdAllocator, get_new_label, get_new_rd}
use networking_bagpipe_l.RouteTable.Match.{option_discrete}
use networking_bagpipe_l.VpnInstance.Base.{
  Site, Direction, from_port, inconsistent_mac, malformed_address, max_id_reached, key_error,
  bad_direction, dataplane_failure, Endpoint, endpoint_discrete, Route, PortData, Dataplane,
  advertise, withdraw, dataplane_plug, State, Op, endpoints_of, members,
}
use networking_bagpipe_l.Common.Outcome.{ok, raise, ◌>>=◌, ◌>>◌, return, fail, modify, ensure}

abbrev pub default_local_pref : ℕ
default_local_pref = 100

abbrev pub forward_to_port : Option Direction → Bool
forward_to_port (some from_port) = false
forward_to_port _ = true

-- `local_pref or DEFAULT_LOCAL_PREF`
abbrev pub local_pref_or_default : Option ℕ → ℕ
local_pref_or_default none = default_local_pref
local_pref_or_default (some p) = if p == 0 then default_local_pref else p

module _ (x : Exabgp) (s : Site x) where
  open s use {
    Mac, Prefix, Port, Interface, interface_discrete, linuxif, Ip, Rd, mac_discrete,
    prefix_discrete, port_discrete,
  }

  abbrev pub parsed : Option (Ip × ℕ) → Op x s (Ip × ℕ)
  parsed none = fail malformed_address
  parsed (some a) = return a

  -- `_parse_ipaddress_prefix`, for a prefix that is not None
  unfoldable pub parse_ipaddress_prefix : Prefix → Op x s (Ip × ℕ)
  parse_ipaddress_prefix p = parsed (s.parse p)

  -- `_gen_encap_extended_communities`
  unfoldable pub gen_encap_extended_communities : List x.Ecom
  gen_encap_extended_communities = filter_list (λ e. not (s.is_default_encap e)) s.supported_encaps

  -- `synthesize_vif_bgp_route`, with the export route targets of the instance
  unfoldable pub synthesize_vif_bgp_route :
      List x.RouteTarget → Mac → Option Ip → Option ℕ → ℕ → ℕ → Rd → Option ℕ → Route x s
  synthesize_vif_bgp_route export_rts mac ip plen label order rd local_pref =
      let re = s.generate_vif_bgp_route mac ip plen label rd in
      let encapsulated = record re {
        attributes = s.add_communities gen_encap_extended_communities re.attributes;
      } in
      let targeted = set_route_targets x encapsulated export_rts in
      let ordered = s.add_communities (s.hash_sort_order order ∷ []) targeted.attributes in
      record targeted { attributes = s.add_localpref (local_pref_or_default local_pref) ordered }

  -- `_raise_if_mac2ip_inconsistency`. The reads of the defaultdict store its default.
  unfoldable pub raise_if_mac2ip_inconsistency : Mac → Option Prefix → Op x s (Unit {0})
  raise_if_mac2ip_inconsistency mac none st = ok tt st
  raise_if_mac2ip_inconsistency mac (some p) st =
      let macs = members (st.ip_address_2_mac p) in
      let st' = record st {
        ip_address_2_mac = update prefix_discrete st.ip_address_2_mac p (some macs);
      } in
      if contains mac_discrete mac macs then ok tt st' else raise inconsistent_mac st'

  -- `_check_ip_mac`: the address, the length of the prefix, `refresh_only`
  unfoldable pub check_prefix : Mac → Prefix → Bool → Ip × ℕ → Op x s (Option Ip × Option ℕ × Bool)
  check_prefix mac p advertise_subnet (ip, len) st =
      let plen = if advertise_subnet then len else 32 in
      let again = raise_if_mac2ip_inconsistency mac (some p) >> return (some ip, some plen, true) in
      if is_some (st.ip_address_2_mac p) && plen == 32
      then again st
      else ok (some ip, some plen, false) st

  unfoldable pub check_ip_mac : Mac → Option Prefix → Bool → Op x s (Option Ip × Option ℕ × Bool)
  check_ip_mac mac none advertise_subnet st =
      ok (none, none, is_some (st.mac_2_localport_data mac)) st
  check_ip_mac mac (some p) advertise_subnet st =
      (parse_ipaddress_prefix p >>= check_prefix mac p advertise_subnet) st

  -- the data of the port of a MAC address, with a new label if there are none
  unfoldable pub port_data : Endpoint x s → Port → ℕ → Option (PortData x s) → Op x s (PortData x s)
  port_data e port order (some d) st = ok d st
  port_data e port order none st = elim (get_new_label st.label_allocator e) [
    | Allocator.ok (label, labels) ↦
        ok (record { label = label; port_info = port; lb_consistent_hash_order = order })
          (record st { label_allocator = labels })
    | Allocator.raise _ ↦ raise max_id_reached st
  ]

  unfoldable pub get_port_data : Endpoint x s → Port → ℕ → Op x s (PortData x s)
  get_port_data e port order st = port_data e port order (st.mac_2_localport_data e.mac) st

  -- the calls of the dataplane, unless the plug is a refresh
  unfoldable pub plug_dataplane :
      Dataplane x s → Mac → Option Ip → Port → ℕ → Option Direction → Bool → Op x s (Unit {0})
  plug_dataplane dp mac ip port label direction true = return tt
  plug_dataplane dp mac ip port label direction false = do
    ensure (dp.validate_directions direction) bad_direction
    modify (λ st. record st { calls = st.calls ++ dataplane_plug mac ip port label ∷ [] })
    ensure (dp.vif_plugged mac ip port label direction) dataplane_failure

  abbrev pub with_rd : Endpoint x s → Allocator.Result (Rd × IdAllocator (Endpoint x s)) → Op x s Rd
  with_rd e (Allocator.ok (rd, rds)) st = ok rd (record st {
    rd_allocator = rds;
    endpoint_2_rd = update (endpoint_discrete x s) st.endpoint_2_rd e (some rd);
  })
  with_rd e (Allocator.raise _) st = raise max_id_reached st

  -- `_rd_for_endpoint`
  unfoldable pub rd_for_endpoint : Endpoint x s → Op x s Rd
  rd_for_endpoint e st = elim (st.endpoint_2_rd e) [
    | some rd ↦ ok rd st
    | none ↦ with_rd e (get_new_rd s.make_rd st.rd_allocator e) st
  ]

  -- `_advertise_route`, `_withdraw_route`
  abbrev pub advertise_route : Route x s → State x s → State x s
  advertise_route re st = record st { calls = st.calls ++ advertise re ∷ [] }

  abbrev pub withdraw_route : Route x s → State x s → State x s
  withdraw_route re st = record st { calls = st.calls ++ withdraw re ∷ [] }

  -- the route of the endpoint, where traffic is forwarded to the port
  unfoldable pub advertise_endpoint :
      Endpoint x s → Option Ip → Option ℕ → ℕ → ℕ → Option ℕ → Op x s (Unit {0})
  advertise_endpoint e ip plen label order local_pref = do
    endpoint_rd ← rd_for_endpoint e
    modify λ st.
        let rd =
          if eqb (option_discrete ℕ_discrete) plen (some 32) then st.instance_rd else endpoint_rd in
        let re = synthesize_vif_bgp_route st.export_rts e.mac ip plen label order rd local_pref in
        record (advertise_route re st) {
          endpoint_2_route = update (endpoint_discrete x s) st.endpoint_2_route e (some re);
          endpoint_2_rd = update (endpoint_discrete x s) st.endpoint_2_rd e (some endpoint_rd);
        }

  unfoldable pub advertise_if_forwarded :
      Option Direction → Endpoint x s → Option Ip → Option ℕ → ℕ → ℕ → Option ℕ → Op x s (Unit {0})
  advertise_if_forwarded direction e ip plen label order local_pref =
      if forward_to_port direction
      then advertise_endpoint e ip plen label order local_pref
      else return tt

  -- the records of the endpoint, but for those of its IP prefix
  unfoldable pub record_endpoint :
      Endpoint x s → Option ℕ → Option Direction → PortData x s → Interface → State x s → State x s
  record_endpoint e local_pref direction d i st = record st {
    localport_2_endpoints =
        put interface_discrete i (add (endpoint_discrete x s) e (endpoints_of x s st i))
          st.localport_2_endpoints;
    endpoint_2_lp = update (endpoint_discrete x s) st.endpoint_2_lp e (some local_pref);
    endpoint_2_direction =
        update (endpoint_discrete x s) st.endpoint_2_direction e (some direction);
    mac_2_localport_data = update mac_discrete st.mac_2_localport_data e.mac (some d);
  }

  unfoldable pub record_prefix : Mac → Prefix → State x s → State x s
  record_prefix mac p st = record st {
    ip_address_2_mac =
        update prefix_discrete st.ip_address_2_mac p
          (some (add mac_discrete mac (members (st.ip_address_2_mac p))));
    mac_2_ips =
        update mac_discrete st.mac_2_ips mac
          (some (add prefix_discrete p (members (st.mac_2_ips mac))));
  }

  abbrev pub wildcard : Mac → Endpoint x s
  wildcard mac = record { mac = mac; ip = none }

  -- the end of the endpoint that the MAC address has with any IP address
  unfoldable pub drop_wildcard : Mac → Interface → Option (Route x s) → Op x s (Unit {0})
  drop_wildcard mac i none st = raise key_error st
  drop_wildcard mac i (some re) st =
      let w = wildcard mac in
      let st' = record (withdraw_route re st) {
        endpoint_2_route = update (endpoint_discrete x s) st.endpoint_2_route w none;
        localport_2_endpoints =
            put interface_discrete i (discard (endpoint_discrete x s) w (endpoints_of x s st i))
              st.localport_2_endpoints;
      } in
      if st.endpoint_2_desc w
      then ok tt (record st' {
        endpoint_2_desc = update (endpoint_discrete x s) st.endpoint_2_desc w false;
      })
      else raise key_error st'

  unfoldable pub replace_wildcard : Mac → Interface → Op x s (Unit {0})
  replace_wildcard mac i st =
      if contains (endpoint_discrete x s) (wildcard mac) (endpoints_of x s st i)
      then drop_wildcard mac i (st.endpoint_2_route (wildcard mac)) st
      else ok tt st

  unfoldable pub record_address : Mac → Option Prefix → Interface → Op x s (Unit {0})
  record_address mac none i = return tt
  record_address mac (some p) i = do modify (record_prefix mac p); replace_wildcard mac i
