-- ===== src/VpnInstance/Handlers.antt =====
-- `vif_plugged` and `vif_unplugged`.
use networking_bagpipe_l.Common.{
  ℕ, Bool, true, false, not, ◌||◌, Option, none, some, List, [], ◌∷◌, ◌++◌, contains, discard,
  update, is_some, eqb, ◌==◌, leb, length, if◌then◌else◌,
}
use networking_bagpipe_l.Common.Dicts.{get, put, del}
use networking_bagpipe_l.Common.Outcome.{
  Outcome, ok, raise, ◌>>=◌, ◌>>◌, return, modify, ensure, on_error,
}
use networking_bagpipe_l.Engine.{Exabgp}
use networking_bagpipe_l.Allocator
use networking_bagpipe_l.Allocator.{release, release_rd}
use networking_bagpipe_l.VpnInstance.Base.{
  Site, Direction, Error, inconsistent_port, not_plugged_yet, endpoint_missing, key_error,
  incomplete, not_allocated, dataplane_failure, unplug_errors, Endpoint, endpoint_discrete,
  PortData, Dataplane, dataplane_unplug, State, Op, endpoints_of, members,
}
use networking_bagpipe_l.VpnInstance.Plug.{
  forward_to_port, parse_ipaddress_prefix, raise_if_mac2ip_inconsistency, check_ip_mac,
  get_port_data, plug_dataplane, advertise_if_forwarded, record_endpoint, record_address,
  withdraw_route,
}

module _ (x : Exabgp) (s : Site x) where
  open s use {
    Mac, Prefix, Port, Interface, interface_discrete, linuxif, Ip, Rd, mac_discrete,
    prefix_discrete, port_discrete,
  }

  -- the body of the `try` of `vif_plugged`
  unfoldable pub plug_endpoint :
      Dataplane x s
      → Endpoint x s
      → Port
      → Bool
      → ℕ
      → Option ℕ
      → Option Direction
      → Op x s (Unit {0})
  plug_endpoint dp e port advertise_subnet order local_pref direction = do
    modify λ st. record st {
      endpoint_2_desc = update (endpoint_discrete x s) st.endpoint_2_desc e true;
    }
    (ip, plen, refresh_only) ← check_ip_mac x s e.mac e.ip advertise_subnet
    d ← get_port_data x s e port order
    plug_dataplane x s dp e.mac ip port d.label direction refresh_only
    advertise_if_forwarded x s direction e ip plen d.label order local_pref
    modify (record_endpoint x s e local_pref direction d (linuxif port))
    record_address x s e.mac e.ip (linuxif port)

  -- the handler of its exceptions
  unfoldable pub forget_port :
      Interface → Endpoint x s → Option (List (Endpoint x s)) → State x s → State x s
  forget_port i e none st = st
  forget_port i e (some l) st = elim (discard (endpoint_discrete x s) e l) [
    | [] ↦ record st { localport_2_endpoints = del interface_discrete i st.localport_2_endpoints }
    | a ∷ l' ↦ record st {
      localport_2_endpoints = put interface_discrete i (a ∷ l') st.localport_2_endpoints;
    }
  ]

  unfoldable pub forget_prefix : Mac → Option Prefix → State x s → State x s
  forget_prefix mac none st = st
  forget_prefix mac (some p) st = elim (st.ip_address_2_mac p) [
    | none ↦ st
    | some macs ↦ record st {
      ip_address_2_mac =
          update prefix_discrete st.ip_address_2_mac p (some (discard mac_discrete mac macs));
    }
  ]

  unfoldable pub forget_plug : Endpoint x s → Interface → State x s → State x s
  forget_plug e i st =
      let st' = forget_port i e (get interface_discrete i st.localport_2_endpoints) st in
      forget_prefix e.mac e.ip (record st' {
        mac_2_localport_data = update mac_discrete st'.mac_2_localport_data e.mac none;
      })

  -- whether the MAC address is not bound to another port
  unfoldable pub fits_port : Option (PortData x s) → Port → Bool
  fits_port none port = true
  fits_port (some d) port = eqb port_discrete d.port_info port

  unfoldable pub vif_plugged :
      Dataplane x s
      → Mac
      → Option Prefix
      → Port
      → Bool
      → ℕ
      → Option ℕ
      → Option Direction
      → Op x s (Unit {0})
  vif_plugged dp mac prefix port advertise_subnet order local_pref direction st =
      let e : Endpoint x s = record { mac = mac; ip = prefix } in
      let plug =
        on_error (plug_endpoint dp e port advertise_subnet order local_pref direction)
          (forget_plug e (linuxif port)) in
      if fits_port (st.mac_2_localport_data mac) port then plug st else raise inconsistent_port st

  -- a value that must be there, for `d[k]` and `d.pop(k)`
  abbrev pub require : {A : Type 0} → Option A → Error → Op x s A
  require none err st = raise err st
  require (some a) err st = ok a st

  abbrev pub allocated :
      Allocator.Result (Allocator.IdAllocator (Endpoint x s))
      → Op x s (Allocator.IdAllocator (Endpoint x s))
  allocated (Allocator.ok a) st = ok a st
  allocated (Allocator.raise _) st = raise not_allocated st

  -- the release of the label, and the end of the records of the port
  unfoldable pub free_port : Interface → ℕ → Op x s (Unit {0})
  free_port i label = do
    labels ← λ st. allocated (release st.label_allocator label) st
    modify λ st. record st {
      label_allocator = labels;
      localport_2_endpoints = del interface_discrete i st.localport_2_endpoints;
    }

  -- `localport_2_endpoints[linuxif].remove(endpoint)`
  unfoldable pub leave_port : Interface → Endpoint x s → Op x s (Unit {0})
  leave_port i e st =
      let l = endpoints_of x s st i in
      let st' = record st {
        localport_2_endpoints =
            put interface_discrete i (discard (endpoint_discrete x s) e l) st.localport_2_endpoints;
      } in
      if contains (endpoint_discrete x s) e l then ok tt st' else raise key_error st

  unfoldable pub free_rd : Endpoint x s → Op x s (Unit {0})
  free_rd e = do
    rd ← λ st. require (st.endpoint_2_rd e) key_error st
    modify
        λ st. record st { endpoint_2_rd = update (endpoint_discrete x s) st.endpoint_2_rd e none }
    rds ← λ st. allocated (release_rd s.rd_number st.rd_allocator rd) st
    modify λ st. record st { rd_allocator = rds }

  -- whether one of the endpoints has the MAC address
  unfoldable pub has_mac : Mac → List (Endpoint x s) → Bool
  has_mac mac [] = false
  has_mac mac (e ∷ l) = eqb mac_discrete e.mac mac || has_mac mac l

  abbrev pub none_if_nil {ℓ} : {A : Type ℓ} → List A → Option (List A)
  none_if_nil [] = none
  none_if_nil (a ∷ l) = some (a ∷ l)

  unfoldable pub forget_mac : Mac → Interface → Bool → State x s → State x s
  forget_mac mac i last st =
      if last || not (has_mac mac (endpoints_of x s st i))
      then record st { mac_2_localport_data = update mac_discrete st.mac_2_localport_data mac none }
      else st

  unfoldable pub forget_address : Mac → Option Prefix → State x s → State x s
  forget_address mac none st = st
  forget_address mac (some p) st = record st {
    ip_address_2_mac =
        update prefix_discrete st.ip_address_2_mac p
          (none_if_nil (discard mac_discrete mac (members (st.ip_address_2_mac p))));
    mac_2_ips =
        update mac_discrete st.mac_2_ips mac
          (none_if_nil (discard prefix_discrete p (members (st.mac_2_ips mac))));
  }

  -- `del self.endpoint_2_desc[endpoint]`
  unfoldable pub forget_desc : Endpoint x s → Op x s (Unit {0})
  forget_desc e = do
    described ← λ st. ok (st.endpoint_2_desc e) st
    ensure described key_error
    modify λ st. record st {
      endpoint_2_desc = update (endpoint_discrete x s) st.endpoint_2_desc e false;
    }

  -- the address of the endpoint, for the dataplane
  unfoldable pub parse_ip : Option Prefix → Op x s (Option Ip)
  parse_ip none = return none
  parse_ip (some p) = do (ip, len) ← parse_ipaddress_prefix x s p; return (some ip)

  unfoldable pub unplug_dataplane :
      Dataplane x s
      → Endpoint x s
      → Option Ip
      → PortData x s
      → Option Direction
      → Bool
      → Op x s (Unit {0})
  unplug_dataplane dp e ip d direction last =
      if forward_to_port direction
      then (do
        modify λ st. record st {
          calls = st.calls ++ dataplane_unplug e.mac ip d.port_info d.label last ∷ [];
        }
        ensure (dp.vif_unplugged e.mac ip d.port_info d.label direction last) dataplane_failure)
      else return tt

  -- what `vif_unplugged_real` does for an endpoint on a port that it knows
  unfoldable pub unplug_from :
      Dataplane x s → Endpoint x s → PortData x s → Option Direction → Op x s (Unit {0})
  unplug_from dp e d direction = do
    let i = linuxif d.port_info
    ip ← parse_ip e.ip
    re ← λ st. require (st.endpoint_2_route e) key_error st
    modify λ st. record (withdraw_route x s re st) {
      endpoint_2_route = update (endpoint_discrete x s) st.endpoint_2_route e none;
    }
    last ← λ st. ok (leb (length (endpoints_of x s st i)) 1) st
    unplug_dataplane dp e ip d direction last
    if last then free_port i d.label else leave_port i e
    if forward_to_port direction then free_rd e else return tt
    modify (forget_mac e.mac i last)
    modify (forget_address e.mac e.ip)
    forget_desc e

  unfoldable pub vif_unplugged_real : Dataplane x s → Mac → Option Prefix → Op x s (Unit {0})
  vif_unplugged_real dp mac prefix = do
    let e : Endpoint x s = record { mac = mac; ip = prefix }
    d ← λ st. require (st.mac_2_localport_data mac) not_plugged_yet st
    raise_if_mac2ip_inconsistency x s mac prefix
    rd ← λ st. require (st.endpoint_2_rd e) endpoint_missing st
    direction ← λ st. require (st.endpoint_2_direction e) key_error st
    ensure (not (d.label == 0)) incomplete
    known ← λ st.
        ok (is_some (get interface_discrete (linuxif d.port_info) st.localport_2_endpoints)) st
    ensure known incomplete
    unplug_from dp e d direction

  -- the loop of a wildcard unplug; the Boolean says whether there were errors
  unfoldable pub unplug_each : Dataplane x s → Mac → List Prefix → Bool → Op x s Bool
  unplug_each dp mac [] errors st = ok errors st
  unplug_each dp mac (p ∷ ps) errors st = elim (vif_unplugged_real dp mac (some p) st) [
    | ok _ st' ↦ unplug_each dp mac ps errors st'
    | raise _ st' ↦ unplug_each dp mac ps true st'
  ]

  -- `except exc.APINotPluggedYet`
  abbrev pub ignore_not_plugged :
      Outcome Error (State x s) (Unit {0}) → Outcome Error (State x s) (Unit {0})
  ignore_not_plugged (raise not_plugged_yet st) = ok tt st
  ignore_not_plugged o = o

  unfoldable pub unplug_wildcard : Dataplane x s → Mac → Op x s (Unit {0})
  unplug_wildcard dp mac st =
      if is_some (st.endpoint_2_rd (record { mac = mac; ip = none }))
      then ignore_not_plugged (vif_unplugged_real dp mac none st)
      else ok tt st

  -- Reading `mac_2_ips[mac_address]` stores the default.
  unfoldable pub vif_unplugged : Dataplane x s → Mac → Option Prefix → Op x s (Unit {0})
  vif_unplugged dp mac (some p) = vif_unplugged_real dp mac (some p)
  vif_unplugged dp mac none = do
    prefixes ← λ st. ok (members (st.mac_2_ips mac)) st
    modify λ st. record st { mac_2_ips = update mac_discrete st.mac_2_ips mac (some prefixes) }
    errors ← unplug_each dp mac prefixes false
    ensure (not errors) unplug_errors
    unplug_wildcard dp mac
