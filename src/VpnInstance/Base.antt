-- ===== src/VpnInstance/Base.antt =====
-- The state of a VPN instance, and operations that change it or raise.
use networking_bagpipe_l.Common.{ℕ, ◌≡◌, Bool, Option, none, some, List, []}
use networking_bagpipe_l.Common.Dicts.{get}
use networking_bagpipe_l.Common.Outcome.{M}
use networking_bagpipe_l.Engine.{Exabgp, Source, RouteEntry}
use networking_bagpipe_l.Allocator.{IdAllocator}

pub record Site (x : Exabgp) : Type 1 where
  pub Mac : Type 0
  pub mac_discrete : Discrete Mac
  -- the text of an IP prefix, never empty
  pub Prefix : Type 0
  pub prefix_discrete : Discrete Prefix
  -- the dict `localport`, and its item 'linuxif'
  pub Port : Type 0
  pub port_discrete : Discrete Port
  pub Interface : Type 0
  pub interface_discrete : Discrete Interface
  pub linuxif : Port → Interface
  -- `netaddr.IPNetwork`: the address and the length of the prefix, if the text is one
  pub Ip : Type 0
  pub parse : Prefix → Option (Ip × ℕ)
  pub Rd : Type 0
  pub make_rd : ℕ → Rd
  pub rd_number : Rd → ℕ
  pub rd_number-make_rd : (i : ℕ) → rd_number (make_rd i) ≡ i
  pub generate_vif_bgp_route : Mac → Option Ip → Option ℕ → ℕ → Rd → RouteEntry x (Option Source)
  -- the encapsulations that the dataplane driver supports, and whether one is the default
  pub supported_encaps : List x.Ecom
  pub is_default_encap : x.Ecom → Bool
  -- the community `ConsistentHashSortOrder`
  pub hash_sort_order : ℕ → x.Ecom
  -- `attributes.add` of extended communities and of a local preference
  pub add_communities : List x.Ecom → x.Attributes → x.Attributes
  pub add_localpref : ℕ → x.Attributes → x.Attributes

pub data Direction : Type 0 where
  both to_port from_port : Direction

pub data Error : Type 0 where
  inconsistent_port inconsistent_mac not_plugged_yet endpoint_missing incomplete key_error
        not_allocated :
      Error
  malformed_address max_id_reached bad_direction dataplane_failure unplug_errors : Error

-- the set under a key of a defaultdict
abbrev pub members {ℓ} : {A : Type ℓ} → Option (List A) → List A
members none = []
members (some l) = l

module _ (x : Exabgp) (s : Site x) where
  open s use {
    Mac, Prefix, Port, Interface, interface_discrete, Ip, Rd, mac_discrete, prefix_discrete,
  }

  pub record Endpoint : Type 0 where
    pub mac : Mac
    pub ip : Option Prefix

  unfoldable pub endpoint_discrete : Discrete Endpoint
  endpoint_discrete = hlevel (mac_discrete, prefix_discrete)

  abbrev pub Route : Type 0
  Route = RouteEntry x (Option Source)

  -- `mac_2_localport_data[mac]`
  pub record PortData : Type 0 where
    pub label : ℕ
    pub port_info : Port
    pub lb_consistent_hash_order : ℕ

  -- The answers of the dataplane, false where it raises.
  pub record Dataplane : Type 0 where
    pub validate_directions : Option Direction → Bool
    pub vif_plugged : Mac → Option Ip → Port → ℕ → Option Direction → Bool
    pub vif_unplugged : Mac → Option Ip → Port → ℕ → Option Direction → Bool → Bool

  -- What an operation does outside: routes and subscriptions for the route table manager, calls of the dataplane.
  pub data Call : Type 0 where
    advertise withdraw : Route → Call
    subscribe unsubscribe : ℕ → ℕ → x.RouteTarget → Call
    dataplane_plug : Mac → Option Ip → Port → ℕ → Call
    dataplane_unplug : Mac → Option Ip → Port → ℕ → Bool → Call

  -- The attributes of an instance, the two allocators of the manager, and the calls so far.
  -- `localport_2_endpoints` is asked for its keys; the other dicts are functions.
  pub record State : Type 0 where
    pub instance_rd : Rd
    pub import_rts : List x.RouteTarget
    pub export_rts : List x.RouteTarget
    pub localport_2_endpoints : List (Interface × List Endpoint)
    pub endpoint_2_rd : Endpoint → Option Rd
    pub endpoint_2_route : Endpoint → Option Route
    pub mac_2_localport_data : Mac → Option PortData
    pub ip_address_2_mac : Prefix → Option (List Mac)
    pub mac_2_ips : Mac → Option (List Prefix)
    pub endpoint_2_lp : Endpoint → Option (Option ℕ)
    pub endpoint_2_direction : Endpoint → Option (Option Direction)
    -- its keys; the descriptions are for display
    pub endpoint_2_desc : Endpoint → Bool
    pub label_allocator : IdAllocator Endpoint
    pub rd_allocator : IdAllocator Endpoint
    pub calls : List Call

  abbrev pub Op : Type 0 → Type 0
  Op A = M Error State A

  -- `localport_2_endpoints[i]`, on a defaultdict
  unfoldable pub endpoints_in : List (Interface × List Endpoint) → Interface → List Endpoint
  endpoints_in d i = members (get interface_discrete i d)

  abbrev pub endpoints_of : State → Interface → List Endpoint
  endpoints_of st i = endpoints_in st.localport_2_endpoints i
