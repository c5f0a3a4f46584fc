-- ===== src/VpnInstance/Leave.antt =====
-- The steps of `vif_unplugged_real`, for an endpoint that is plugged.
use networking_bagpipe_l.Common.{
  ℕ, ◌≡◌, ◌≢◌, refl, Bool, true, false, Option, none, some, List, [], ◌∷◌, ◌++◌, contains, discard,
  update, is_some, eqb, if◌then◌else◌, arith, Option-cases, inl, inr, ap, ◌∙◌, leb, length,
  IsDistinct,
}
use networking_bagpipe_l.Common.Dicts.{get, put, del, get-put, get-del}
use networking_bagpipe_l.Common.Outcome.{ok, return, after_ok}
use networking_bagpipe_l.Engine.{Exabgp}
use networking_bagpipe_l.Allocator
use networking_bagpipe_l.Allocator.{IdAllocator, is_allocated, release, release_rd}
use networking_bagpipe_l.VpnInstance.Base.{
  Site, Direction, key_error, Endpoint, endpoint_discrete, PortData, Dataplane, dataplane_unplug,
  State, endpoints_in, endpoints_of, members,
}
use networking_bagpipe_l.VpnInstance.Plug.{
  forward_to_port, parse_ipaddress_prefix, raise_if_mac2ip_inconsistency,
}
use networking_bagpipe_l.VpnInstance.Handlers.{
  require, allocated, has_mac, parse_ip, unplug_dataplane, free_port, leave_port, free_rd,
}
use networking_bagpipe_l.VpnInstance.Tidy.{endpoints_in-put, endpoints_in-del}

module _ (x : Exabgp) (s : Site x) where
  open s use {
    Mac, Prefix, Port, Interface, interface_discrete, linuxif, mac_discrete, prefix_discrete, Ip,
  }

  -- `ip_address_2_mac` when its default has been stored
  abbrev pub checked : Option Prefix → (Prefix → Option (List Mac)) → Prefix → Option (List Mac)
  checked none f = f
  checked (some p) f = update prefix_discrete f p (some (members (f p)))

  pub raise_if-known :
      (m : Mac) (o : Option Prefix) (st : State x s)
      → ((p : Prefix)
          → o ≡ some p
          → contains mac_discrete m (members (st.ip_address_2_mac p)) ≡ true)
      → raise_if_mac2ip_inconsistency x s m o st
        ≡ ok tt (record st { ip_address_2_mac = checked o st.ip_address_2_mac })
  unfolding raise_if_mac2ip_inconsistency
  raise_if-known m none st h = refl
  raise_if-known m (some p) st h = rw (h p refl) refl

  -- the prefix is one, if there is a prefix
  abbrev pub parses : Option Prefix → Bool
  parses none = true
  parses (some p) = is_some (s.parse p)

  pub parse_ip-parses :
      (o : Option Prefix) (st : State x s)
      → parses o ≡ true
      → (ip : Option Ip) × (parse_ip x s o st ≡ ok ip st)
  unfolding parse_ip parse_ipaddress_prefix
  parse_ip-parses none st h = (none, refl)
  parse_ip-parses (some p) st h = elim (Option-cases (s.parse p)) [
    | inl n ↦ ground (arith, h, n)
    | inr ((ip, len), e) ↦ (some ip, rw (e, parse_ipaddress_prefix) refl)
  ]

  pub unplug_dataplane-works :
      (dp : Dataplane x s) (e : Endpoint x s) (ip : Option Ip) (d : PortData x s)
      (direction : Option Direction) (last : Bool) (st : State x s)
      → forward_to_port direction ≡ true
      → dp.vif_unplugged e.mac ip d.port_info d.label direction last ≡ true
      → unplug_dataplane x s dp e ip d direction last st
        ≡ ok tt (record st {
          calls = st.calls ++ dataplane_unplug e.mac ip d.port_info d.label last ∷ [];
        })
  unfolding unplug_dataplane
  unplug_dataplane-works dp e ip d direction last st h k = rw (h, k) refl

  -- the endpoints of the interfaces without one of them
  pub record Left (e : Endpoint x s) (i : Interface) (last : Bool)
      (old new : List (Interface × List (Endpoint x s))) : Type 0 where
    pub endpoints :
        (j : Interface)
        → endpoints_in x s new j ≡ (
            if eqb interface_discrete j i
            then discard (endpoint_discrete x s) e (endpoints_in x s old i)
            else endpoints_in x s old j)
    pub full : (j : Interface) → get interface_discrete j new ≢ some []
    pub alone : last ≡ true → has_mac x s e.mac (endpoints_in x s new i) ≡ false

  discard-alone :
      (e : Endpoint x s) (l : List (Endpoint x s))
      → contains (endpoint_discrete x s) e l ≡ true
      → leb (length l) 1 ≡ true
      → discard (endpoint_discrete x s) e l ≡ []
  unfolding discard contains
  discard-alone e [] h k = refl
  discard-alone e (a ∷ []) h k = ground (arith, h)
  discard-alone e (a ∷ b ∷ l) h k = ground (arith, k)

  discard-others :
      (e : Endpoint x s) (l : List (Endpoint x s))
      → IsDistinct (endpoint_discrete x s) l
      → leb (length l) 1 ≡ false
      → discard (endpoint_discrete x s) e l ≢ []
  unfolding discard contains
  discard-others e [] u k h = ground (arith, k)
  discard-others e (a ∷ []) u k h = ground (arith, k)
  discard-others e (a ∷ b ∷ l) u k h = ground (arith, u, h)

  abbrev released : IdAllocator (Endpoint x s) → ℕ → IdAllocator (Endpoint x s)
  released a i = record a {
    allocated_ids = Allocator.del i a.allocated_ids;
    released_ids = a.released_ids ++ i ∷ [];
  }

  release-allocated :
      (a : IdAllocator (Endpoint x s)) (i : ℕ)
      → is_allocated i a ≡ true
      → release a i ≡ Allocator.ok (released a i)
  unfolding release
  release-allocated a i h = rw h refl

  pub free_port-allocated :
      (e : Endpoint x s) (i : Interface) (label : ℕ) (st : State x s)
      → is_allocated label st.label_allocator ≡ true
      → contains (endpoint_discrete x s) e (endpoints_of x s st i) ≡ true
      → leb (length (endpoints_of x s st i)) 1 ≡ true
      → ((j : Interface) → get interface_discrete j st.localport_2_endpoints ≢ some [])
      → (labels : IdAllocator (Endpoint x s)) × (free_port x s i label st
          ≡ ok tt (record st {
            label_allocator = labels;
            localport_2_endpoints = del interface_discrete i st.localport_2_endpoints;
          }))
        × Left e i true st.localport_2_endpoints (del interface_discrete i st.localport_2_endpoints)
  unfolding free_port has_mac
  free_port-allocated e i label st h c k full = (
    released st.label_allocator label,
    after_ok _ (ap (λ r. allocated x s r st) (release-allocated st.label_allocator label h)),
    record {
      endpoints = λ j. ground (
        arith,
        endpoints_in-del x s st.localport_2_endpoints i j,
        discard-alone e (endpoints_of x s st i) c k,
      );
      full = λ j. ground (arith, get-del interface_discrete j i st.localport_2_endpoints, full j);
      alone = λ q. ground (arith, endpoints_in-del x s st.localport_2_endpoints i i);
    },
  )

  pub leave_port-known :
      (e : Endpoint x s) (i : Interface) (st : State x s)
      → contains (endpoint_discrete x s) e (endpoints_of x s st i) ≡ true
      → leb (length (endpoints_of x s st i)) 1 ≡ false
      → IsDistinct (endpoint_discrete x s) (endpoints_of x s st i)
      → ((j : Interface) → get interface_discrete j st.localport_2_endpoints ≢ some [])
      → (new : List (Interface × List (Endpoint x s))) × (leave_port x s i e st
          ≡ ok tt (record st { localport_2_endpoints = new }))
        × Left e i false st.localport_2_endpoints new
  unfolding leave_port
  leave_port-known e i st c k u full = (
    put interface_discrete i (discard (endpoint_discrete x s) e (endpoints_of x s st i))
        st.localport_2_endpoints,
    rw c refl,
    record {
      endpoints = λ j.
          endpoints_in-put x s st.localport_2_endpoints i j
            (discard (endpoint_discrete x s) e (endpoints_of x s st i));
      full = λ j. ground (
        arith,
        get-put interface_discrete j i (discard (endpoint_discrete x s) e (endpoints_of x s st i))
            st.localport_2_endpoints,
        discard-others e (endpoints_of x s st i) u k,
        full j,
      );
      alone = λ q. ground (arith, q);
    },
  )

  -- both ways to leave an interface
  pub leaves :
      (e : Endpoint x s) (i : Interface) (label : ℕ) (st : State x s) (last : Bool)
      → leb (length (endpoints_of x s st i)) 1 ≡ last
      → is_allocated label st.label_allocator ≡ true
      → contains (endpoint_discrete x s) e (endpoints_of x s st i) ≡ true
      → IsDistinct (endpoint_discrete x s) (endpoints_of x s st i)
      → ((j : Interface) → get interface_discrete j st.localport_2_endpoints ≢ some [])
      → (labels : IdAllocator (Endpoint x s)) × (new : List (Interface × List (Endpoint x s)))
        × ((if last then free_port x s i label else leave_port x s i e) st
            ≡ ok tt (record st { label_allocator = labels; localport_2_endpoints = new }))
        × Left e i last st.localport_2_endpoints new
  leaves e i label st true k h c u full =
      let (labels, freed, left) = free_port-allocated e i label st h c k full in
      (labels, _, freed, left)
  leaves e i label st false k h c u full =
      let (new, left_port, left) = leave_port-known e i st c k u full in
      (st.label_allocator, new, left_port, left)

  pub free_rd-allocated :
      (e : Endpoint x s) (rd : s.Rd) (st : State x s)
      → st.endpoint_2_rd e ≡ some rd
      → is_allocated (s.rd_number rd) st.rd_allocator ≡ true
      → (rds : IdAllocator (Endpoint x s)) × (free_rd x s e st
          ≡ ok tt (record st {
            rd_allocator = rds;
            endpoint_2_rd = update (endpoint_discrete x s) st.endpoint_2_rd e none;
          }))
  unfolding free_rd release_rd
  free_rd-allocated e rd st h k = (
    released st.rd_allocator (s.rd_number rd),
    after_ok _ (ap (λ (o : Option s.Rd). require x s o key_error st) h)
        ∙ after_ok _ (
            ap
              (λ r. allocated x s r (record st {
                endpoint_2_rd = update (endpoint_discrete x s) st.endpoint_2_rd e none;
              }))
              (release-allocated st.rd_allocator (s.rd_number rd) k)),
  )

  pub free_rd_if :
      (b : Bool) (e : Endpoint x s) (rd : s.Rd) (st : State x s)
      → b ≡ true
      → st.endpoint_2_rd e ≡ some rd
      → is_allocated (s.rd_number rd) st.rd_allocator ≡ true
      → (rds : IdAllocator (Endpoint x s)) × ((if b then free_rd x s e else return tt) st
          ≡ ok tt (record st {
            rd_allocator = rds;
            endpoint_2_rd = update (endpoint_discrete x s) st.endpoint_2_rd e none;
          }))
  free_rd_if true e rd st q h k = free_rd-allocated e rd st h k
  free_rd_if false e rd st q h k = ground (arith, q)
