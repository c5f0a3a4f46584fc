-- ===== src/VpnInstance/Dropped.antt =====
-- The end of an endpoint of any address, when the MAC address has another.
use networking_bagpipe_l.Common.{
  ◌≡◌, ◌≢◌, refl, Bool, true, false, not, ◌&&◌, Option, none, some, List, [], ◌∷◌, ◌++◌, contains,
  contains-discard, discard, update, eqb, if◌then◌else◌, arith, IsDistinct, discard-IsDistinct,
}
use networking_bagpipe_l.Common.Dicts.{get, put, get-put}
use networking_bagpipe_l.Common.Outcome.{Ends, ended, raised, Ends-if}
use networking_bagpipe_l.Engine.{Exabgp}
use networking_bagpipe_l.VpnInstance.Base.{
  Site, Endpoint, endpoint_discrete, Route, PortData, State, Call, withdraw, endpoints_in,
  endpoints_of,
}
use networking_bagpipe_l.VpnInstance.Plug.{wildcard, drop_wildcard, replace_wildcard}
use networking_bagpipe_l.VpnInstance.Handlers.{has_mac}
use networking_bagpipe_l.VpnInstance.Tidy.{
  Leaves, is_on, is_at, is_plugged_at, is_plugged, IsTidy, endpoints_in-put, has_mac-discard,
  has_mac-contains,
}

module _ (x : Exabgp) (s : Site x) where
  open s use {
    Mac, Prefix, Port, Interface, interface_discrete, linuxif, mac_discrete, prefix_discrete,
  }

  module _ (st : State x s) (m : Mac) (i : Interface) (e : Endpoint x s) (tidy : IsTidy x s st)
      (other : eqb (endpoint_discrete x s) e (wildcard x s m) ≡ false) (mine : e.mac ≡ m)
      (e_on : is_on x s st i e ≡ true) (w_on : is_on x s st i (wildcard x s m) ≡ true)
      (cs : List (Call x s)) where
    abbrev dropped : State x s
    dropped = record st {
      calls = cs;
      endpoint_2_route = update (endpoint_discrete x s) st.endpoint_2_route (wildcard x s m) none;
      localport_2_endpoints =
          put interface_discrete i
            (discard (endpoint_discrete x s) (wildcard x s m) (endpoints_of x s st i))
            st.localport_2_endpoints;
      endpoint_2_desc = update (endpoint_discrete x s) st.endpoint_2_desc (wildcard x s m) false;
    }

    endpoints-dropped :
        (j : Interface)
        → endpoints_of x s dropped j ≡ (
            if eqb interface_discrete j i
            then discard (endpoint_discrete x s) (wildcard x s m) (endpoints_of x s st i)
            else endpoints_of x s st j)
    endpoints-dropped j =
        endpoints_in-put x s st.localport_2_endpoints i j
          (discard (endpoint_discrete x s) (wildcard x s m) (endpoints_of x s st i))

    is_on-dropped :
        (j : Interface) (a : Endpoint x s)
        → is_on x s dropped j a ≡ (
            is_on x s st j a
            && not (eqb interface_discrete j i && eqb (endpoint_discrete x s) a (wildcard x s m)))
    unfolding is_on
    is_on-dropped j a = ground (
      arith,
      endpoints-dropped j,
      contains-discard (endpoint_discrete x s) a (wildcard x s m) (endpoints_of x s st i),
    )

    is_plugged_at-dropped :
        (a : Endpoint x s) (o : Option (PortData x s))
        → (eqb (endpoint_discrete x s) a (wildcard x s m) ≡ true → is_at x s o i ≡ true)
        → is_plugged_at x s dropped o a
          ≡ (is_plugged_at x s st o a && not (eqb (endpoint_discrete x s) a (wildcard x s m)))
    unfolding is_plugged_at is_at
    is_plugged_at-dropped a none h = refl
    is_plugged_at-dropped a (some d) h = ground (arith, is_on-dropped (linuxif d.port_info) a, h)

    at_port :
        (a : Endpoint x s)
        → eqb (endpoint_discrete x s) a (wildcard x s m) ≡ true
        → is_at x s (st.mac_2_localport_data a.mac) i ≡ true
    at_port a h = ground (arith, h, w_on, tidy.located i (wildcard x s m))

    is_plugged-dropped :
        (a : Endpoint x s)
        → is_plugged x s dropped a
          ≡ (is_plugged x s st a && not (eqb (endpoint_discrete x s) a (wildcard x s m)))
    is_plugged-dropped a = is_plugged_at-dropped a (st.mac_2_localport_data a.mac) (at_port a)

    e_stays : is_on x s dropped i e ≡ true
    e_stays = ground (arith, is_on-dropped i e, e_on, other)

    used-dropped :
        (n : Mac) (j : Interface)
        → is_at x s (st.mac_2_localport_data n) j ≡ true
        → has_mac x s n (endpoints_of x s dropped j) ≡ true
    unfolding is_on contains
    used-dropped n j h = ground (
      arith,
      endpoints-dropped j,
      has_mac-discard x s n (wildcard x s m) (endpoints_of x s st i),
      has_mac-contains x s (endpoints_of x s dropped i) e e_stays,
      tidy.used n j h,
      mine,
    )

    filled-dropped :
        (j : Interface) → get interface_discrete j dropped.localport_2_endpoints ≢ some []
    unfolding is_on endpoints_in contains
    filled-dropped j = ground (
      arith,
      get-put interface_discrete j i
          (discard (endpoint_discrete x s) (wildcard x s m) (endpoints_of x s st i))
          st.localport_2_endpoints,
      e_stays,
      tidy.filled j,
    )

    IsDistinct-dropped :
        (j : Interface) → IsDistinct (endpoint_discrete x s) (endpoints_of x s dropped j)
    IsDistinct-dropped j = ground (
      arith,
      endpoints-dropped j,
      discard-IsDistinct (endpoint_discrete x s) (wildcard x s m) (endpoints_of x s st i)
          (tidy.distinct i),
      tidy.distinct j,
    )

    dropped-IsTidy : IsTidy x s dropped
    dropped-IsTidy = record {
      located = λ j a h. ground (arith, is_on-dropped j a, tidy.located j a);
      used = used-dropped;
      routed = λ a. ground (arith, is_plugged-dropped a, tidy.routed a);
      served = λ a h. ground (arith, is_plugged-dropped a, tidy.served a);
      macs = λ n p.
          ground (arith, is_plugged-dropped (record { mac = n; ip = some p }), tidy.macs n p);
      prefixes = λ n p.
          ground (arith, is_plugged-dropped (record { mac = n; ip = some p }), tidy.prefixes n p);
      inhabited = tidy.inhabited;
      filled = filled-dropped;
      distinct = IsDistinct-dropped;
    }

  module _ (st : State x s) (m : Mac) (i : Interface) (p : Prefix) (tidy : IsTidy x s st)
      (e_on : is_on x s st i (record { mac = m; ip = some p }) ≡ true) where
    abbrev without_wildcard : Endpoint x s → Bool
    without_wildcard a = is_plugged x s st a && not (eqb (endpoint_discrete x s) a (wildcard x s m))

    e_other : eqb (endpoint_discrete x s) (record { mac = m; ip = some p }) (wildcard x s m) ≡ false
    e_other = ground arith

    drop_wildcard-Leaves :
        (o : Option (Route x s))
        → is_on x s st i (wildcard x s m) ≡ true
        → Ends (λ _ st'. Leaves x s without_wildcard st') (drop_wildcard x s m i o st)
    unfolding drop_wildcard
    drop_wildcard-Leaves none h = raised _ st
    drop_wildcard-Leaves (some re) h =
        Ends-if (st.endpoint_2_desc (wildcard x s m)) _ _
          (λ d. ended tt _ (record {
            tidy =
                dropped-IsTidy st m i (record { mac = m; ip = some p }) tidy e_other refl e_on h
                  (st.calls ++ withdraw re ∷ []);
            plugs =
                is_plugged-dropped st m i (record { mac = m; ip = some p }) tidy e_other refl e_on h
                  (st.calls ++ withdraw re ∷ []);
          }))
          (λ d. raised _ _)

    -- where it is not on the interface, it is not plugged at all
    off_everywhere :
        (o : Option (PortData x s))
        → is_at x s o i ≡ true
        → is_on x s st i (wildcard x s m) ≡ false
        → is_plugged_at x s st o (wildcard x s m) ≡ false
    unfolding is_plugged_at is_at
    off_everywhere none h k = refl
    off_everywhere (some d) h k = ground (arith, h, k)

    pub replace_wildcard-Leaves :
        Ends (λ _ st'. Leaves x s without_wildcard st') (replace_wildcard x s m i st)
    unfolding replace_wildcard is_on
    replace_wildcard-Leaves =
        Ends-if (contains (endpoint_discrete x s) (wildcard x s m) (endpoints_of x s st i)) _ _
          (λ h. drop_wildcard-Leaves (st.endpoint_2_route (wildcard x s m)) h)
          (λ h. ended tt st (record {
            tidy = tidy;
            plugs = λ a. ground (
              arith,
              off_everywhere (st.mac_2_localport_data m)
                  (tidy.located i (record { mac = m; ip = some p }) e_on) h,
            );
          }))
