-- ===== src/VpnInstance/Closed.antt =====
-- The tables without an endpoint that was plugged.
use networking_bagpipe_l.Common.{
  ◌≡◌, ◌≢◌, refl, Bool, true, false, not, ◌&&◌, Option, none, some, [], contains, contains-discard,
  discard, eqb, if◌then◌else◌, arith, Bool-cases, inl, inr, sym, ap, subst, eqb-path, ◌∙◌,
  IsDistinct, discard-IsDistinct,
}
use networking_bagpipe_l.Common.Dicts.{get}
use networking_bagpipe_l.Engine.{Exabgp}
use networking_bagpipe_l.VpnInstance.Base.{
  Site, Endpoint, endpoint_discrete, PortData, State, endpoints_of, members,
}
use networking_bagpipe_l.VpnInstance.Handlers.{has_mac}
use networking_bagpipe_l.VpnInstance.Tidy.{
  Leaves, is_on, is_at, is_plugged_at, is_plugged, IsTidy, has_mac-discard, has_mac-contains,
}

module _ (x : Exabgp) (s : Site x) where
  open s use {
    Mac, Prefix, Port, Interface, interface_discrete, linuxif, mac_discrete, prefix_discrete,
  }

  -- What has changed when the endpoint has left its interface.
  pub record Closed (e : Endpoint x s) (i : Interface) (st₀ st : State x s) : Type 0 where
    pub ports :
        (j : Interface)
        → endpoints_of x s st j ≡ (
            if eqb interface_discrete j i
            then discard (endpoint_discrete x s) e (endpoints_of x s st₀ i)
            else endpoints_of x s st₀ j)
    pub filled : (j : Interface) → get interface_discrete j st.localport_2_endpoints ≢ some []
    pub data_of :
        (m : Mac)
        → st.mac_2_localport_data m ≡ (
            if eqb mac_discrete m e.mac && not (has_mac x s e.mac (endpoints_of x s st i))
            then none
            else st₀.mac_2_localport_data m)
    pub routes :
        (a : Endpoint x s)
        → st.endpoint_2_route a
          ≡ (if eqb (endpoint_discrete x s) a e then none else st₀.endpoint_2_route a)
    pub rds :
        (a : Endpoint x s)
        → eqb (endpoint_discrete x s) a e ≡ false
        → st.endpoint_2_rd a ≡ st₀.endpoint_2_rd a
    pub directions : (a : Endpoint x s) → st.endpoint_2_direction a ≡ st₀.endpoint_2_direction a
    pub described :
        (a : Endpoint x s)
        → st.endpoint_2_desc a ≡ (st₀.endpoint_2_desc a && not (eqb (endpoint_discrete x s) a e))
    pub macs_of :
        (m : Mac) (p : Prefix)
        → contains mac_discrete m (members (st.ip_address_2_mac p)) ≡ (
            contains mac_discrete m (members (st₀.ip_address_2_mac p))
            && not (eqb (endpoint_discrete x s) (record { mac = m; ip = some p }) e))
    pub inhabited : (p : Prefix) → st.ip_address_2_mac p ≢ some []
    pub prefixes_of :
        (m : Mac) (p : Prefix)
        → contains prefix_discrete p (members (st.mac_2_ips m)) ≡ (
            contains prefix_discrete p (members (st₀.mac_2_ips m))
            && not (eqb (endpoint_discrete x s) (record { mac = m; ip = some p }) e))

  module _ (e : Endpoint x s) (i : Interface) (st₀ st : State x s) (tidy : IsTidy x s st₀)
      (e_at : is_at x s (st₀.mac_2_localport_data e.mac) i ≡ true)
      (closed : Closed e i st₀ st) where
    is_on-closed :
        (j : Interface) (a : Endpoint x s)
        → is_on x s st j a ≡ (
            is_on x s st₀ j a
            && not (eqb interface_discrete j i && eqb (endpoint_discrete x s) a e))
    unfolding is_on
    is_on-closed j a = ground (
      arith,
      closed.ports j,
      contains-discard (endpoint_discrete x s) a e (endpoints_of x s st₀ i),
    )

    -- an endpoint stays plugged while its MAC address stays known
    is_plugged_at-closed :
        (a : Endpoint x s) (o : Option (PortData x s))
        → (eqb (endpoint_discrete x s) a e ≡ true → is_at x s o i ≡ true)
        → is_plugged_at x s st o a
          ≡ (is_plugged_at x s st₀ o a && not (eqb (endpoint_discrete x s) a e))
    unfolding is_plugged_at is_at
    is_plugged_at-closed a none h = refl
    is_plugged_at-closed a (some d) h = ground (arith, is_on-closed (linuxif d.port_info) a, h)

    e_at_as :
        (a : Endpoint x s)
        → eqb (endpoint_discrete x s) a e ≡ true
        → is_at x s (st₀.mac_2_localport_data a.mac) i ≡ true
    e_at_as a h = ground (arith, h, e_at)

    same_interface :
        (m : Mac) (j : Interface) (o : Option (PortData x s))
        → is_at x s o i ≡ true
        → is_at x s o j ≡ true
        → j ≡ i
    unfolding is_at
    same_interface m j none h k = ground (arith, h)
    same_interface m j (some d) h k = ground (arith, h, k)

    -- where the MAC address of the endpoint is forgotten, none of its endpoints was plugged but it
    forgotten :
        (a : Endpoint x s) (o : Option (PortData x s))
        → is_at x s o i ≡ true
        → eqb mac_discrete a.mac e.mac ≡ true
        → has_mac x s e.mac (endpoints_of x s st i) ≡ false
        → (is_plugged_at x s st₀ o a && not (eqb (endpoint_discrete x s) a e)) ≡ false
    unfolding is_plugged_at is_at is_on
    forgotten a none h k n = refl
    forgotten a (some d) h k n = ground (
      arith,
      h,
      k,
      n,
      has_mac-contains x s (endpoints_of x s st i) a,
      closed.ports i,
      contains-discard (endpoint_discrete x s) a e (endpoints_of x s st₀ i),
    )

    abbrev is_forgotten : Mac → Bool
    is_forgotten m = eqb mac_discrete m e.mac && not (has_mac x s e.mac (endpoints_of x s st i))

    data_kept :
        (m : Mac) → is_forgotten m ≡ false → st.mac_2_localport_data m ≡ st₀.mac_2_localport_data m
    data_kept m h = ground (arith, h, closed.data_of m)

    data_gone : (m : Mac) → is_forgotten m ≡ true → st.mac_2_localport_data m ≡ none
    data_gone m h = ground (arith, h, closed.data_of m)

    mac_at :
        (m : Mac)
        → eqb mac_discrete m e.mac ≡ true
        → is_at x s (st₀.mac_2_localport_data m) i ≡ true
    mac_at m h =
        subst (λ (n : Mac). is_at x s (st₀.mac_2_localport_data n) i ≡ true)
          (sym (eqb-path mac_discrete m e.mac h)) e_at

    is_plugged-closed :
        (a : Endpoint x s)
        → is_plugged x s st a ≡ (is_plugged x s st₀ a && not (eqb (endpoint_discrete x s) a e))
    unfolding is_plugged_at
    is_plugged-closed a = elim (Bool-cases (is_forgotten a.mac)) [
      | inl h ↦
          ap (λ (o : Option (PortData x s)). is_plugged_at x s st o a) (data_gone a.mac h)
          ∙ sym (
              forgotten a (st₀.mac_2_localport_data a.mac) (mac_at a.mac (ground (arith, h)))
                (ground (arith, h)) (ground (arith, h)))
      | inr h ↦
          ap (λ (o : Option (PortData x s)). is_plugged_at x s st o a) (data_kept a.mac h)
          ∙ is_plugged_at-closed a (st₀.mac_2_localport_data a.mac) (e_at_as a)
    ]

    located-closed :
        (j : Interface) (a : Endpoint x s)
        → is_on x s st j a ≡ true
        → is_at x s (st.mac_2_localport_data a.mac) j ≡ true
    unfolding is_on
    located-closed j a h = elim (Bool-cases (is_forgotten a.mac)) [
      | inl f ↦ ground (
        arith,
        h,
        f,
        is_on-closed j a,
        same_interface a.mac j (st₀.mac_2_localport_data a.mac) (mac_at a.mac (ground (arith, f))),
        tidy.located j a,
        has_mac-contains x s (endpoints_of x s st i) a,
      )
      | inr f ↦ ground (arith, h, is_on-closed j a, data_kept a.mac f, tidy.located j a)
    ]

    used-closed :
        (m : Mac) (j : Interface)
        → is_at x s (st.mac_2_localport_data m) j ≡ true
        → has_mac x s m (endpoints_of x s st j) ≡ true
    unfolding is_at
    used-closed m j h = elim (Bool-cases (is_forgotten m)) [
      | inl f ↦ ground (arith, h, data_gone m f)
      | inr f ↦ ground (
        arith,
        h,
        f,
        data_kept m f,
        tidy.used m j,
        closed.ports j,
        has_mac-discard x s m e (endpoints_of x s st₀ i),
      )
    ]

    IsDistinct-closed : (j : Interface) → IsDistinct (endpoint_discrete x s) (endpoints_of x s st j)
    IsDistinct-closed j = ground (
      arith,
      closed.ports j,
      discard-IsDistinct (endpoint_discrete x s) e (endpoints_of x s st₀ i) (tidy.distinct i),
      tidy.distinct j,
    )

    -- Without the endpoint the tables agree, and the others are plugged as before.
    pub closed-Leaves :
        Leaves x s (λ a. is_plugged x s st₀ a && not (eqb (endpoint_discrete x s) a e)) st
    closed-Leaves = record {
      tidy = record {
        located = located-closed;
        used = used-closed;
        routed = λ a. ground (arith, is_plugged-closed a, closed.routes a, tidy.routed a);
        served = λ a h. ground (
          arith,
          is_plugged-closed a,
          closed.rds a,
          closed.described a,
          closed.directions a,
          tidy.served a,
        );
        macs = λ m p. ground (
          arith,
          is_plugged-closed (record { mac = m; ip = some p }),
          closed.macs_of m p,
          tidy.macs m p,
        );
        prefixes = λ m p. ground (
          arith,
          is_plugged-closed (record { mac = m; ip = some p }),
          closed.prefixes_of m p,
          tidy.prefixes m p,
        );
        inhabited = closed.inhabited;
        filled = closed.filled;
        distinct = IsDistinct-closed;
      };
      plugs = is_plugged-closed;
    }
