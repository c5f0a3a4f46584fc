-- ===== src/VpnInstance/Prepared.antt =====
-- What the steps of a plug leave unchanged, up to the records of the endpoint.
use networking_bagpipe_l.Common.{
  ℕ, ◌≡◌, refl, Bool, true, false, ◌&&◌, ◌||◌, Option, none, some, List, [], ◌∷◌, ◌++◌, contains,
  update, is_some, eqb, ◌==◌, if◌then◌else◌, arith, Option-cases, inl, inr, ap, eqb-path,
}
use networking_bagpipe_l.Common.Outcome.{
  ok, raise, ensure, Ends, ended, raised, Ends-after, Ends-if,
}
use networking_bagpipe_l.Engine.{Exabgp}
use networking_bagpipe_l.Allocator
use networking_bagpipe_l.Allocator.{get_new_label, get_new_rd}
use networking_bagpipe_l.VpnInstance.Base.{
  Site, Direction, Error, max_id_reached, malformed_address, bad_direction, dataplane_failure, Call,
  dataplane_plug, Endpoint, endpoint_discrete, PortData, Dataplane, State, members,
}
use networking_bagpipe_l.VpnInstance.Plug.{
  forward_to_port, parsed, with_rd, parse_ipaddress_prefix, raise_if_mac2ip_inconsistency,
  check_prefix, check_ip_mac, port_data, get_port_data, plug_dataplane, rd_for_endpoint,
  advertise_endpoint, advertise_if_forwarded,
}
use networking_bagpipe_l.VpnInstance.Handlers.{fits_port}
use networking_bagpipe_l.VpnInstance.Recorded.{Opened}

module _ (x : Exabgp) (s : Site x) where
  open s use {
    Mac, Prefix, Port, Interface, interface_discrete, linuxif, mac_discrete, prefix_discrete,
    port_discrete, Ip,
  }

  -- Only the description of the endpoint has changed.
  pub record Prepared (e : Endpoint x s) (st₀ st : State x s) : Type 0 where
    pub ports : st.localport_2_endpoints ≡ st₀.localport_2_endpoints
    pub data_of : (m : Mac) → st.mac_2_localport_data m ≡ st₀.mac_2_localport_data m
    pub prefixes_of : (m : Mac) → st.mac_2_ips m ≡ st₀.mac_2_ips m
    pub directions : (a : Endpoint x s) → st.endpoint_2_direction a ≡ st₀.endpoint_2_direction a
    pub macs_of : (p : Prefix) → st.ip_address_2_mac p ≡ st₀.ip_address_2_mac p
    pub routes : (a : Endpoint x s) → st.endpoint_2_route a ≡ st₀.endpoint_2_route a
    pub rds :
        (a : Endpoint x s)
        → eqb (endpoint_discrete x s) a e ≡ false
        → st.endpoint_2_rd a ≡ st₀.endpoint_2_rd a
    pub described :
        (a : Endpoint x s)
        → st.endpoint_2_desc a ≡ (eqb (endpoint_discrete x s) a e || st₀.endpoint_2_desc a)

  module _ (e : Endpoint x s) (st₀ : State x s) where
    default_of : (o : Option (List Mac)) → is_some o ≡ true → some (members o) ≡ o
    default_of none h = ground arith
    default_of (some l) h = refl

    with_default :
        (p : Prefix) (st : State x s)
        → is_some (st.ip_address_2_mac p) ≡ true
        → Prepared e st₀ st
        → Prepared e st₀ (record st {
          ip_address_2_mac =
              update prefix_discrete st.ip_address_2_mac p (some (members (st.ip_address_2_mac p)));
        })
    with_default p st h prep = record {
      ports = prep.ports;
      data_of = prep.data_of;
      prefixes_of = prep.prefixes_of;
      directions = prep.directions;
      macs_of = λ q. ground (arith, prep.macs_of q, default_of (st.ip_address_2_mac p) h);
      routes = prep.routes;
      rds = prep.rds;
      described = prep.described;
    }

    relabelled :
        (labels : Allocator.IdAllocator (Endpoint x s)) (st : State x s)
        → Prepared e st₀ st
        → Prepared e st₀ (record st { label_allocator = labels })
    relabelled labels st prep = record {
      ports = prep.ports;
      data_of = prep.data_of;
      prefixes_of = prep.prefixes_of;
      directions = prep.directions;
      macs_of = prep.macs_of;
      routes = prep.routes;
      rds = prep.rds;
      described = prep.described;
    }

    called :
        (c : Call x s) (st : State x s)
        → Prepared e st₀ st
        → Prepared e st₀ (record st { calls = st.calls ++ c ∷ [] })
    called c st prep = record {
      ports = prep.ports;
      data_of = prep.data_of;
      prefixes_of = prep.prefixes_of;
      directions = prep.directions;
      macs_of = prep.macs_of;
      routes = prep.routes;
      rds = prep.rds;
      described = prep.described;
    }

    raise_if-Prepared :
        (m : Mac) (p : Prefix) (st : State x s)
        → is_some (st.ip_address_2_mac p) ≡ true
        → Prepared e st₀ st
        → Ends (λ _ st'. Prepared e st₀ st') (raise_if_mac2ip_inconsistency x s m (some p) st)
    unfolding raise_if_mac2ip_inconsistency
    raise_if-Prepared m p st h prep =
        Ends-if (contains mac_discrete m (members (st.ip_address_2_mac p))) _ _
          (λ _. ended tt _ (with_default p st h prep)) (λ _. raised _ _)

    check_prefix-Prepared :
        (m : Mac) (p : Prefix) (subnet : Bool) (a : Ip × ℕ) (st : State x s)
        → Prepared e st₀ st
        → Ends (λ _ st'. Prepared e st₀ st') (check_prefix x s m p subnet a st)
    unfolding check_prefix
    check_prefix-Prepared m p subnet (ip, len) st prep =
        Ends-if (is_some (st.ip_address_2_mac p) && (if subnet then len else 32) == 32) _ _
          (λ h.
            Ends-after (raise_if_mac2ip_inconsistency x s m (some p) st) _
              (raise_if-Prepared m p st (ground (arith, h)) prep)
              (λ u st' prep'. ended _ st' prep'))
          (λ _. ended _ st prep)

    parse-Prepared :
        (p : Prefix) (st : State x s)
        → Prepared e st₀ st
        → Ends (λ _ st'. Prepared e st₀ st') (parse_ipaddress_prefix x s p st)
    unfolding parse_ipaddress_prefix
    parse-Prepared p st prep = of_answer (s.parse p)
      where
        of_answer : (o : Option (Ip × ℕ)) → Ends (λ _ st'. Prepared e st₀ st') (parsed x s o st)
        of_answer none = raised malformed_address st
        of_answer (some a) = ended a st prep

    pub check_ip_mac-Prepared :
        (m : Mac) (o : Option Prefix) (subnet : Bool) (st : State x s)
        → Prepared e st₀ st
        → Ends (λ _ st'. Prepared e st₀ st') (check_ip_mac x s m o subnet st)
    unfolding check_ip_mac
    check_ip_mac-Prepared m none subnet st prep = ended _ st prep
    check_ip_mac-Prepared m (some p) subnet st prep =
        Ends-after (parse_ipaddress_prefix x s p st) (check_prefix x s m p subnet)
          (parse-Prepared p st prep) (check_prefix-Prepared m p subnet)

    port_data-Prepared :
        (port : Port) (order : ℕ) (o : Option (PortData x s)) (st : State x s)
        → fits_port x s o port ≡ true
        → Prepared e st₀ st
        → Ends
            (λ d st'. (linuxif d.port_info ≡ linuxif port) × Prepared e st₀ st')
            (port_data x s e port order o st)
    unfolding port_data fits_port
    port_data-Prepared port order (some d) st fits prep =
        ended d st (ap linuxif (eqb-path port_discrete d.port_info port fits), prep)
    port_data-Prepared port order none st fits prep = labelled (get_new_label st.label_allocator e)
      where
        labelled :
            (r : Allocator.Result (ℕ × Allocator.IdAllocator (Endpoint x s)))
            → Ends
                (λ (d : PortData x s) st'.
                  (linuxif d.port_info ≡ linuxif port) × Prepared e st₀ st')
                (elim r [
                  | Allocator.ok (label, labels) ↦
                      ok
                        (record {
                          label = label;
                          port_info = port;
                          lb_consistent_hash_order = order;
                        })
                        (record st { label_allocator = labels })
                  | Allocator.raise _ ↦ raise max_id_reached st
                ])
        labelled (Allocator.ok (label, labels)) =
            ended _ (record st { label_allocator = labels }) (refl, relabelled labels st prep)
        labelled (Allocator.raise r) = raised _ st

    pub get_port_data-Prepared :
        (port : Port) (order : ℕ) (st : State x s)
        → fits_port x s (st₀.mac_2_localport_data e.mac) port ≡ true
        → Prepared e st₀ st
        → Ends
            (λ d st'. (linuxif d.port_info ≡ linuxif port) × Prepared e st₀ st')
            (get_port_data x s e port order st)
    unfolding get_port_data
    get_port_data-Prepared port order st fits prep =
        port_data-Prepared port order (st.mac_2_localport_data e.mac) st
          (ground (arith, fits, prep.data_of e.mac)) prep

    pub plug_dataplane-Prepared :
        (dp : Dataplane x s) (m : Mac) (ip : Option Ip) (port : Port) (label : ℕ)
        (direction : Option Direction) (refresh : Bool) (st : State x s)
        → Prepared e st₀ st
        → Ends
            (λ _ st'. Prepared e st₀ st')
            (plug_dataplane x s dp m ip port label direction refresh st)
    unfolding plug_dataplane
    plug_dataplane-Prepared dp m ip port label direction true st prep = ended tt st prep
    plug_dataplane-Prepared dp m ip port label direction false st prep =
        Ends-after (ensure (dp.validate_directions direction) bad_direction st) _
          (ensured (dp.validate_directions direction) bad_direction st prep)
          (λ u st' prep'.
            ensured (dp.vif_plugged m ip port label direction) dataplane_failure
              (record st' { calls = st'.calls ++ dataplane_plug m ip port label ∷ [] })
              (called (dataplane_plug m ip port label) st' prep'))
      where
        ensured :
            (b : Bool) (err : Error) (st' : State x s)
            → Prepared e st₀ st'
            → Ends (λ _ st''. Prepared e st₀ st'') (ensure b err st')
        ensured true err st' p = ended tt st' p
        ensured false err st' p = raised err st'

    with_rd-Prepared :
        (r : Allocator.Result (s.Rd × Allocator.IdAllocator (Endpoint x s))) (st : State x s)
        → Prepared e st₀ st
        → Ends (λ _ st'. Prepared e st₀ st') (with_rd x s e r st)
    with_rd-Prepared (Allocator.ok (rd, rds)) st prep = ended rd _ (record {
      ports = prep.ports;
      data_of = prep.data_of;
      prefixes_of = prep.prefixes_of;
      directions = prep.directions;
      macs_of = prep.macs_of;
      routes = prep.routes;
      rds = λ a h. ground (arith, prep.rds a h);
      described = prep.described;
    })
    with_rd-Prepared (Allocator.raise r) st prep = raised _ st

    rd_for_endpoint-Prepared :
        (st : State x s)
        → Prepared e st₀ st
        → Ends (λ _ st'. Prepared e st₀ st') (rd_for_endpoint x s e st)
    unfolding rd_for_endpoint
    rd_for_endpoint-Prepared st prep = elim (Option-cases (st.endpoint_2_rd e)) [
      | inl n ↦
          rw (n, rd_for_endpoint)
            (with_rd-Prepared (get_new_rd s.make_rd st.rd_allocator e) st prep)
      | inr (rd, h) ↦ rw (h, rd_for_endpoint) (ended rd st prep)
    ]

    pub advertise-Opened :
        (direction : Option Direction) (ip : Option Ip) (plen : Option ℕ) (label order : ℕ)
        (lp : Option ℕ) (st : State x s)
        → forward_to_port direction ≡ true
        → Prepared e st₀ st
        → Ends
            (λ _ st'. Opened x s e st₀ st')
            (advertise_if_forwarded x s direction e ip plen label order lp st)
    unfolding advertise_if_forwarded advertise_endpoint
    advertise-Opened direction ip plen label order lp st forward prep = rw forward (
        Ends-after (rd_for_endpoint x s e st) _ (rd_for_endpoint-Prepared st prep) (λ rd st' prep'.
          ended tt _ (record {
            ports = prep'.ports;
            data_of = prep'.data_of;
            prefixes_of = prep'.prefixes_of;
            directions = prep'.directions;
            macs_of = prep'.macs_of;
            routes = λ a. ground (arith, prep'.routes a);
            rds = λ a. ground (arith, prep'.rds a);
            described = prep'.described;
          })))
