-- ===== src/VpnInstance/Tidy.antt =====
-- The invariant of the tables of a VPN instance.
use networking_bagpipe_l.Common.{
  ◌≡◌, ◌≢◌, refl, Bool, true, false, ◌&&◌, ◌||◌, Option, none, some, List, [], ◌∷◌, contains, add,
  discard, is_some, eqb, if◌then◌else◌, arith, IsDistinct,
}
use networking_bagpipe_l.Common.Dicts.{get, put, del, get-put, get-del}
use networking_bagpipe_l.Engine.{Exabgp}
use networking_bagpipe_l.VpnInstance.Base.{
  Site, Direction, Endpoint, endpoint_discrete, PortData, State, endpoints_in, endpoints_of,
  members,
}
use networking_bagpipe_l.VpnInstance.Plug.{forward_to_port}
use networking_bagpipe_l.VpnInstance.Handlers.{has_mac}

abbrev pub is_forwarded : Option (Option Direction) → Bool
is_forwarded none = false
is_forwarded (some d) = forward_to_port d

module _ (x : Exabgp) (s : Site x) where
  open s use {
    Mac, Prefix, Port, Interface, interface_discrete, linuxif, mac_discrete, prefix_discrete,
  }

  unfoldable pub is_on : State x s → Interface → Endpoint x s → Bool
  is_on st i e = contains (endpoint_discrete x s) e (endpoints_of x s st i)

  -- the MAC address is known on the interface
  unfoldable pub is_at : Option (PortData x s) → Interface → Bool
  is_at none i = false
  is_at (some d) i = eqb interface_discrete (linuxif d.port_info) i

  -- the endpoint is on the interface of its MAC address
  unfoldable pub is_plugged_at : State x s → Option (PortData x s) → Endpoint x s → Bool
  is_plugged_at st none e = false
  is_plugged_at st (some d) e = is_on st (linuxif d.port_info) e

  abbrev pub is_plugged : State x s → Endpoint x s → Bool
  is_plugged st e = is_plugged_at st (st.mac_2_localport_data e.mac) e

  -- The tables agree on which endpoints are plugged. Such an endpoint forwards traffic to its port,
  -- and has a route, a route distinguisher and a description.
  pub record IsTidy (st : State x s) : Type 0 where
    pub located :
        (i : Interface) (e : Endpoint x s)
        → is_on st i e ≡ true
        → is_at (st.mac_2_localport_data e.mac) i ≡ true
    pub used :
        (m : Mac) (i : Interface)
        → is_at (st.mac_2_localport_data m) i ≡ true
        → has_mac x s m (endpoints_of x s st i) ≡ true
    pub routed : (e : Endpoint x s) → is_some (st.endpoint_2_route e) ≡ is_plugged st e
    pub served :
        (e : Endpoint x s)
        → is_plugged st e ≡ true
        → (is_some (st.endpoint_2_rd e)
            && (is_forwarded (st.endpoint_2_direction e) && st.endpoint_2_desc e))
          ≡ true
    pub macs :
        (m : Mac) (p : Prefix)
        → contains mac_discrete m (members (st.ip_address_2_mac p))
          ≡ is_plugged st (record { mac = m; ip = some p })
    pub prefixes :
        (m : Mac) (p : Prefix)
        → contains prefix_discrete p (members (st.mac_2_ips m))
          ≡ is_plugged st (record { mac = m; ip = some p })
    pub inhabited : (p : Prefix) → st.ip_address_2_mac p ≢ some []
    pub filled : (i : Interface) → get interface_discrete i st.localport_2_endpoints ≢ some []
    pub distinct : (i : Interface) → IsDistinct (endpoint_discrete x s) (endpoints_of x s st i)

  -- the tables agree, and just these endpoints are plugged
  pub record Leaves (plugged : Endpoint x s → Bool) (st : State x s) : Type 0 where
    pub tidy : IsTidy st
    pub plugs : (a : Endpoint x s) → is_plugged st a ≡ plugged a

  pub endpoints_in-put :
      (d : List (Interface × List (Endpoint x s))) (i j : Interface) (l : List (Endpoint x s))
      → endpoints_in x s (put interface_discrete i l d) j
        ≡ (if eqb interface_discrete j i then l else endpoints_in x s d j)
  unfolding endpoints_in
  endpoints_in-put d i j l = ground (arith, get-put interface_discrete j i l d)

  pub endpoints_in-del :
      (d : List (Interface × List (Endpoint x s))) (i j : Interface)
      → endpoints_in x s (del interface_discrete i d) j
        ≡ (if eqb interface_discrete j i then [] else endpoints_in x s d j)
  unfolding endpoints_in
  endpoints_in-del d i j = ground (arith, get-del interface_discrete j i d)

  -- an endpoint that is on some interface is plugged, and on that interface
  pub is_on-is_plugged :
      (st : State x s) (i : Interface) (e : Endpoint x s)
      → IsTidy st
      → is_on st i e ≡ true
      → is_plugged st e ≡ true
  unfolding is_at is_plugged_at
  is_on-is_plugged st i e t h = is_at_plugged (st.mac_2_localport_data e.mac) (t.located i e h)
    where
      is_at_plugged : (o : Option (PortData x s)) → is_at o i ≡ true → is_plugged_at st o e ≡ true
      is_at_plugged none q = cc
      is_at_plugged (some d) q = ground (arith, h)

  pub has_mac-contains :
      (l : List (Endpoint x s)) (e : Endpoint x s)
      → contains (endpoint_discrete x s) e l ≡ true
      → has_mac x s e.mac l ≡ true
  unfolding has_mac contains
  has_mac-contains [] e h = ground arith
  has_mac-contains (a ∷ l) e h = ground (arith, has_mac-contains l e)

  pub has_mac-add :
      (m : Mac) (e : Endpoint x s) (l : List (Endpoint x s))
      → has_mac x s m (add (endpoint_discrete x s) e l)
        ≡ (eqb mac_discrete e.mac m || has_mac x s m l)
  unfolding has_mac add
  has_mac-add m e [] = ground arith
  has_mac-add m e (a ∷ l) = ground (arith, has_mac-add m e l)

  pub has_mac-discard :
      (m : Mac) (e : Endpoint x s) (l : List (Endpoint x s))
      → eqb mac_discrete e.mac m ≡ false
      → has_mac x s m (discard (endpoint_discrete x s) e l) ≡ has_mac x s m l
  unfolding has_mac discard
  has_mac-discard m e [] h = refl
  has_mac-discard m e (a ∷ l) h = ground (arith, has_mac-discard m e l h)
