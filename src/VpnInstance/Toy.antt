-- ===== src/VpnInstance/Toy.antt =====
-- A small site, at which the theorems are applied to concrete plugs.
use networking_bagpipe_l.Common.{
  ℕ, ℕ_discrete, ◌+◌, true, false, none, some, [], ◌∷◌, ◌++◌, ◌-◌, ltb, eqb, ◌==◌, if◌then◌else◌,
  arith,
}
use networking_bagpipe_l.Allocator.{init_labels, init_rds}
use networking_bagpipe_l.Engine.{all_ecoms}
use networking_bagpipe_l.Engine.Toy.{other, toy, no_attributes}
use networking_bagpipe_l.VpnInstance.Base.{
  Site, Endpoint, endpoint_discrete, Route, PortData, Dataplane, State,
}

-- Addresses, ports and route distinguishers are numbers; prefixes from 100 on are no prefixes.
abbrev pub site : Site toy
site = record {
  Mac = ℕ;
  mac_discrete = ℕ_discrete;
  Prefix = ℕ;
  prefix_discrete = ℕ_discrete;
  Port = ℕ;
  port_discrete = ℕ_discrete;
  Interface = ℕ;
  interface_discrete = ℕ_discrete;
  linuxif = λ p. p;
  Ip = ℕ;
  parse = λ p. if ltb p 100 then some (p, 32) else none;
  Rd = ℕ;
  make_rd = λ i. i + 1000;
  rd_number = λ rd. rd - 1000;
  rd_number-make_rd = λ i. omega arith;
  generate_vif_bgp_route = λ mac ip plen label rd. record {
    nlri = label;
    afi = 1;
    safi = 128;
    attributes = no_attributes;
    source = none;
  };
  supported_encaps = [];
  is_default_encap = λ e. true;
  hash_sort_order = other;
  add_communities = λ cs a. record a { communities = some (all_ecoms toy a ++ cs) };
  add_localpref = λ p a. record a { localpref = some p };
}

-- a dataplane that never raises, and one that always does
abbrev pub working : Dataplane toy site
working = record {
  validate_directions = λ d. true;
  vif_plugged = λ mac ip port label d. true;
  vif_unplugged = λ mac ip port label d last. true;
}

abbrev pub failing : Dataplane toy site
failing = record working { vif_plugged = λ mac ip port label d. false }

abbrev pub empty : State toy site
empty = record {
  instance_rd = 1;
  import_rts = 7 ∷ [];
  export_rts = 7 ∷ [];
  localport_2_endpoints = [];
  endpoint_2_rd = λ e. none;
  endpoint_2_route = λ e. none;
  mac_2_localport_data = λ m. none;
  ip_address_2_mac = λ p. none;
  mac_2_ips = λ m. none;
  endpoint_2_lp = λ e. none;
  endpoint_2_direction = λ e. none;
  endpoint_2_desc = λ e. false;
  label_allocator = init_labels;
  rd_allocator = init_rds;
  calls = [];
}

-- the MAC address 1 with the prefix 9, on the port 5
abbrev pub endpoint : Endpoint toy site
endpoint = record { mac = 1; ip = some 9 }

abbrev pub port_5 : PortData toy site
port_5 = record { label = 16; port_info = 5; lb_consistent_hash_order = 0 }

abbrev pub route : Route toy site
route = record { nlri = 16; afi = 1; safi = 128; attributes = no_attributes; source = none }

abbrev pub plugged : State toy site
plugged = record empty {
  localport_2_endpoints = (5, endpoint ∷ []) ∷ [];
  endpoint_2_rd = λ e. if eqb (endpoint_discrete toy site) e endpoint then some 1000 else none;
  endpoint_2_route = λ e. if eqb (endpoint_discrete toy site) e endpoint then some route else none;
  mac_2_localport_data = λ m. if m == 1 then some port_5 else none;
  ip_address_2_mac = λ p. if p == 9 then some (1 ∷ []) else none;
  mac_2_ips = λ m. if m == 1 then some (9 ∷ []) else none;
  endpoint_2_direction =
      λ e. if eqb (endpoint_discrete toy site) e endpoint then some none else none;
  endpoint_2_desc = λ e. eqb (endpoint_discrete toy site) e endpoint;
  label_allocator = record init_labels { current_id = 17; allocated_ids = (16, endpoint) ∷ [] };
  rd_allocator = record init_rds { current_id = 1; allocated_ids = (0, endpoint) ∷ [] };
}
