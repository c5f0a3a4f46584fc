-- ===== src/VpnInstance/Recorded.antt =====
-- The records of a plugged endpoint keep the invariant of the tables.
use networking_bagpipe_l.Common.{
  ℕ, ◌≡◌, ◌≢◌, refl, true, false, ◌&&◌, ◌||◌, Option, none, some, List, [], ◌∷◌, contains,
  contains-add, add, update, is_some, eqb, if◌then◌else◌, arith, IsDistinct, add-IsDistinct,
  Bool-cases, inl, inr, sym, ap, subst, eqb-path, ◌∙◌,
}
use networking_bagpipe_l.Common.Dicts.{get, get-put}
use networking_bagpipe_l.Engine.{Exabgp}
use networking_bagpipe_l.VpnInstance.Base.{
  Site, Direction, Endpoint, endpoint_discrete, PortData, State, endpoints_of, members,
}
use networking_bagpipe_l.VpnInstance.Plug.{forward_to_port, record_endpoint}
use networking_bagpipe_l.VpnInstance.Handlers.{has_mac}
use networking_bagpipe_l.VpnInstance.Tidy.{
  is_on, is_at, is_plugged_at, is_plugged, IsTidy, endpoints_in-put, has_mac-add,
}

module _ (x : Exabgp) (s : Site x) where
  open s use {
    Mac, Prefix, Port, Interface, interface_discrete, linuxif, mac_discrete, prefix_discrete,
  }

  -- What the steps of a plug before the records have done: they have changed only what is about the
  -- endpoint itself, and made its route.
  pub record Opened (e : Endpoint x s) (st₀ st : State x s) : Type 0 where
    pub ports : st.localport_2_endpoints ≡ st₀.localport_2_endpoints
    pub data_of : (m : Mac) → st.mac_2_localport_data m ≡ st₀.mac_2_localport_data m
    pub prefixes_of : (m : Mac) → st.mac_2_ips m ≡ st₀.mac_2_ips m
    pub directions : (a : Endpoint x s) → st.endpoint_2_direction a ≡ st₀.endpoint_2_direction a
    pub macs_of : (p : Prefix) → st.ip_address_2_mac p ≡ st₀.ip_address_2_mac p
    pub routes :
        (a : Endpoint x s)
        → is_some (st.endpoint_2_route a)
          ≡ (eqb (endpoint_discrete x s) a e || is_some (st₀.endpoint_2_route a))
    pub rds :
        (a : Endpoint x s)
        → is_some (st.endpoint_2_rd a)
          ≡ (eqb (endpoint_discrete x s) a e || is_some (st₀.endpoint_2_rd a))
    pub described :
        (a : Endpoint x s)
        → st.endpoint_2_desc a ≡ (eqb (endpoint_discrete x s) a e || st₀.endpoint_2_desc a)

  abbrev macs_with : Mac → Option Prefix → (Prefix → Option (List Mac)) → Prefix → Option (List Mac)
  macs_with m none f = f
  macs_with m (some p) f = update prefix_discrete f p (some (add mac_discrete m (members (f p))))

  abbrev prefixes_with :
      Mac → Option Prefix → (Mac → Option (List Prefix)) → Mac → Option (List Prefix)
  prefixes_with m none f = f
  prefixes_with m (some p) f =
      update mac_discrete f m (some (add prefix_discrete p (members (f m))))

  -- the records of the prefix of an endpoint, if it has one
  unfoldable pub record_ip : Endpoint x s → State x s → State x s
  record_ip e st = record st {
    ip_address_2_mac = macs_with e.mac e.ip st.ip_address_2_mac;
    mac_2_ips = prefixes_with e.mac e.ip st.mac_2_ips;
  }

  module _ (st₀ st : State x s) (e : Endpoint x s) (lp : Option ℕ) (direction : Option Direction)
      (d : PortData x s) (i : Interface) (tidy : IsTidy x s st₀) (opened : Opened e st₀ st)
      (same : linuxif d.port_info ≡ i)
      (fits : (j : Interface) → is_at x s (st₀.mac_2_localport_data e.mac) j ≡ true → j ≡ i) where
    abbrev recorded : State x s
    recorded = record_endpoint x s e lp direction d i st

    is_on-recorded :
        (j : Interface) (a : Endpoint x s)
        → is_on x s recorded j a
          ≡ (eqb interface_discrete j i && eqb (endpoint_discrete x s) a e || is_on x s st₀ j a)
    unfolding record_endpoint is_on
    is_on-recorded j a = ground (
      arith,
      endpoints_in-put x s st.localport_2_endpoints i j
          (add (endpoint_discrete x s) e (endpoints_of x s st i)),
      contains-add (endpoint_discrete x s) a e (endpoints_of x s st i),
      opened.ports,
    )

    -- an endpoint of the same MAC address was on the interface if it was plugged
    was_plugged :
        (a : Endpoint x s) (o : Option (PortData x s))
        → ((j : Interface) → is_at x s o j ≡ true → j ≡ i)
        → (is_on x s st₀ i a ≡ true → is_at x s o i ≡ true)
        → is_plugged_at x s st₀ o a ≡ is_on x s st₀ i a
    unfolding is_plugged_at is_at
    was_plugged a none f l = ground (arith, l)
    was_plugged a (some d₀) f l = ground (arith, f (linuxif d₀.port_info))

    other_endpoint :
        (a : Endpoint x s)
        → eqb mac_discrete a.mac e.mac ≡ false
        → eqb (endpoint_discrete x s) a e ≡ false
    other_endpoint a h = ground arith

    plugged_other :
        (a : Endpoint x s) (o : Option (PortData x s))
        → eqb mac_discrete a.mac e.mac ≡ false
        → is_plugged_at x s recorded o a ≡ is_plugged_at x s st₀ o a
    unfolding is_plugged_at
    plugged_other a none h = refl
    plugged_other a (some d₀) h =
        ground (arith, is_on-recorded (linuxif d₀.port_info) a, other_endpoint a h)

    fits_as :
        (m : Mac)
        → eqb mac_discrete m e.mac ≡ true
        → (j : Interface) → is_at x s (st₀.mac_2_localport_data m) j ≡ true
        → j ≡ i
    fits_as m h j at_j = fits j (
        subst (λ (n : Mac). is_at x s (st₀.mac_2_localport_data n) j ≡ true)
          (eqb-path mac_discrete m e.mac h) at_j)

    pub is_plugged-recorded :
        (a : Endpoint x s)
        → is_plugged x s recorded a ≡ (eqb (endpoint_discrete x s) a e || is_plugged x s st₀ a)
    unfolding record_endpoint is_plugged_at
    is_plugged-recorded a = elim (Bool-cases (eqb mac_discrete a.mac e.mac)) [
      | inl m ↦ rw m (
          ground (
            arith,
            same,
            is_on-recorded i a,
            is_on-recorded (linuxif d.port_info) a,
            was_plugged a (st₀.mac_2_localport_data a.mac) (fits_as a.mac m) (tidy.located i a),
          ))
      | inr n ↦ rw n (
          ground (
            arith,
            plugged_other a (st.mac_2_localport_data a.mac) n,
            other_endpoint a n,
            ap (λ (o : Option (PortData x s)). is_plugged_at x s st₀ o a) (opened.data_of a.mac),
          ))
    ]

    macs_with_lem :
        (o : Option Prefix) (m : Mac) (p : Prefix)
        → e.ip ≡ o
        → contains mac_discrete m (members (macs_with e.mac o st.ip_address_2_mac p)) ≡ (
            eqb (endpoint_discrete x s) (record { mac = m; ip = some p }) e
            || contains mac_discrete m (members (st.ip_address_2_mac p)))
    macs_with_lem none m p h = ground arith
    macs_with_lem (some q) m p h =
        ground (arith, contains-add mac_discrete m e.mac (members (st.ip_address_2_mac q)))

    prefixes_with_lem :
        (o : Option Prefix) (m : Mac) (p : Prefix)
        → e.ip ≡ o
        → contains prefix_discrete p (members (prefixes_with e.mac o st.mac_2_ips m)) ≡ (
            eqb (endpoint_discrete x s) (record { mac = m; ip = some p }) e
            || contains prefix_discrete p (members (st.mac_2_ips m)))
    prefixes_with_lem none m p h = ground arith
    prefixes_with_lem (some q) m p h =
        ground (arith, contains-add prefix_discrete p q (members (st.mac_2_ips e.mac)))

    add-nonempty {ℓ} : {A : Type ℓ} (dec : Discrete A) (a : A) (l : List A) → add dec a l ≢ []
    unfolding add contains
    add-nonempty dec a [] h = cc
    add-nonempty dec a (b ∷ l) h = ground arith

    inhabited_with :
        (o : Option Prefix) (p : Prefix) → macs_with e.mac o st.ip_address_2_mac p ≢ some []
    inhabited_with none p h = tidy.inhabited p (sym (opened.macs_of p) ∙ h)
    inhabited_with (some q) p h = ground (
      arith,
      add-nonempty mac_discrete e.mac (members (st.ip_address_2_mac q)),
      tidy.inhabited p,
      opened.macs_of p,
    )

    is_plugged_at-record_ip :
        (a : Endpoint x s) (o : Option (PortData x s))
        → is_plugged_at x s (record_ip e recorded) o a ≡ is_plugged_at x s recorded o a
    unfolding is_plugged_at record_ip is_on
    is_plugged_at-record_ip a none = refl
    is_plugged_at-record_ip a (some d₀) = refl

    -- the end of the records, the endpoint is plugged with those that were
    pub is_plugged_after :
        (a : Endpoint x s)
        → is_plugged x s (record_ip e recorded) a
          ≡ (eqb (endpoint_discrete x s) a e || is_plugged x s st₀ a)
    unfolding record_ip
    is_plugged_after a =
        is_plugged_at-record_ip a (recorded.mac_2_localport_data a.mac) ∙ is_plugged-recorded a

    pub is_on_after :
        (j : Interface) (a : Endpoint x s)
        → is_on x s (record_ip e recorded) j a
          ≡ (eqb interface_discrete j i && eqb (endpoint_discrete x s) a e || is_on x s st₀ j a)
    unfolding record_ip is_on
    is_on_after j a = is_on-recorded j a

    located_after :
        (j : Interface) (a : Endpoint x s)
        → is_on x s (record_ip e recorded) j a ≡ true
        → is_at x s ((record_ip e recorded).mac_2_localport_data a.mac) j ≡ true
    unfolding record_ip record_endpoint is_at
    located_after j a h = elim (Bool-cases (eqb mac_discrete a.mac e.mac)) [
      | inl m ↦ rw m (ground (arith, same, is_on_after j a, fits_as a.mac m j, tidy.located j a))
      | inr n ↦ rw n (
          ground
            (arith, is_on_after j a, other_endpoint a n, opened.data_of a.mac, tidy.located j a))
    ]

    endpoints_after :
        (j : Interface)
        → endpoints_of x s (record_ip e recorded) j ≡ (
            if eqb interface_discrete j i
            then add (endpoint_discrete x s) e (endpoints_of x s st₀ i)
            else endpoints_of x s st₀ j)
    unfolding record_ip record_endpoint
    endpoints_after j = ground (
      arith,
      endpoints_in-put x s st.localport_2_endpoints i j
          (add (endpoint_discrete x s) e (endpoints_of x s st i)),
      opened.ports,
    )

    used_after :
        (m : Mac) (j : Interface)
        → is_at x s ((record_ip e recorded).mac_2_localport_data m) j ≡ true
        → has_mac x s m (endpoints_of x s (record_ip e recorded) j) ≡ true
    unfolding record_ip record_endpoint is_at
    used_after m j h = ground (
      arith,
      same,
      endpoints_after j,
      has_mac-add x s m e (endpoints_of x s st₀ i),
      opened.data_of m,
      tidy.used m j,
    )

    IsDistinct-after :
        (j : Interface)
        → IsDistinct (endpoint_discrete x s) (endpoints_of x s (record_ip e recorded) j)
    IsDistinct-after j = ground (
      arith,
      endpoints_after j,
      add-IsDistinct (endpoint_discrete x s) e (endpoints_of x s st₀ i) (tidy.distinct i),
      tidy.distinct j,
    )

    filled_after :
        (j : Interface)
        → get interface_discrete j (record_ip e recorded).localport_2_endpoints ≢ some []
    unfolding record_ip record_endpoint
    filled_after j = ground (
      arith,
      get-put interface_discrete j i (add (endpoint_discrete x s) e (endpoints_of x s st i))
          st.localport_2_endpoints,
      add-nonempty (endpoint_discrete x s) e (endpoints_of x s st i),
      tidy.filled j,
      opened.ports,
    )

    -- With its records, an endpoint that forwards traffic to its port is plugged as the others are.
    pub recorded-IsTidy : forward_to_port direction ≡ true → IsTidy x s (record_ip e recorded)
    unfolding record_ip record_endpoint
    recorded-IsTidy forward = record {
      located = located_after;
      used = used_after;
      routed = λ a. ground (arith, is_plugged_after a, opened.routes a, tidy.routed a);
      served = λ a h. ground (
        arith,
        is_plugged_after a,
        opened.rds a,
        opened.described a,
        opened.directions a,
        tidy.served a,
      );
      macs = λ m p. ground (
        arith,
        macs_with_lem e.ip m p refl,
        is_plugged_after (record { mac = m; ip = some p }),
        opened.macs_of p,
        tidy.macs m p,
      );
      prefixes = λ m p. ground (
        arith,
        prefixes_with_lem e.ip m p refl,
        is_plugged_after (record { mac = m; ip = some p }),
        opened.prefixes_of m,
        tidy.prefixes m p,
      );
      inhabited = inhabited_with e.ip;
      filled = filled_after;
      distinct = IsDistinct-after;
    }
