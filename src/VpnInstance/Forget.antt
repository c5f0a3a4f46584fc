-- ===== src/VpnInstance/Forget.antt =====
-- The end of the records of an endpoint that was unplugged.
use networking_bagpipe_l.Common.{
  ◌≡◌, refl, Bool, true, false, Option, none, some, List, discard, update, if◌then◌else◌, arith,
}
use networking_bagpipe_l.Common.Outcome.{ok}
use networking_bagpipe_l.Engine.{Exabgp}
use networking_bagpipe_l.VpnInstance.Base.{
  Site, Endpoint, endpoint_discrete, State, endpoints_of, members,
}
use networking_bagpipe_l.VpnInstance.Handlers.{
  has_mac, forget_mac, forget_address, forget_desc, none_if_nil,
}

module _ (x : Exabgp) (s : Site x) where
  open s use {
    Mac, Prefix, Port, Interface, interface_discrete, linuxif, mac_discrete, prefix_discrete, Ip,
  }

  -- the tables of the prefixes without the endpoint
  abbrev pub less_macs :
      Mac → Option Prefix → (Prefix → Option (List Mac)) → Prefix → Option (List Mac)
  less_macs m none f = f
  less_macs m (some p) f =
      update prefix_discrete f p (none_if_nil x s (discard mac_discrete m (members (f p))))

  abbrev pub less_ips :
      Mac → Option Prefix → (Mac → Option (List Prefix)) → Mac → Option (List Prefix)
  less_ips m none f = f
  less_ips m (some p) f =
      update mac_discrete f m (none_if_nil x s (discard prefix_discrete p (members (f m))))

  pub forget_address_lem :
      (m : Mac) (o : Option Prefix) (st : State x s)
      → forget_address x s m o st ≡ record st {
        ip_address_2_mac = less_macs m o st.ip_address_2_mac;
        mac_2_ips = less_ips m o st.mac_2_ips;
      }
  unfolding forget_address
  forget_address_lem m none st = refl
  forget_address_lem m (some p) st = refl

  pub forget_mac_lem :
      (m : Mac) (i : Interface) (last : Bool) (st : State x s)
      → (last ≡ true → has_mac x s m (endpoints_of x s st i) ≡ false)
      → forget_mac x s m i last st ≡ record st {
        mac_2_localport_data =
            if has_mac x s m (endpoints_of x s st i)
            then st.mac_2_localport_data
            else update mac_discrete st.mac_2_localport_data m none;
      }
  unfolding forget_mac
  forget_mac_lem m i last st h = ground (arith, h)

  pub forget_desc-described :
      (e : Endpoint x s) (st : State x s)
      → st.endpoint_2_desc e ≡ true
      → forget_desc x s e st
        ≡ ok tt (record st {
          endpoint_2_desc = update (endpoint_discrete x s) st.endpoint_2_desc e false;
        })
  unfolding forget_desc
  forget_desc-described e st h = rw h refl

  -- the end of the records of an endpoint
  pub forgets :
      (e : Endpoint x s) (i : Interface) (last : Bool) (st : State x s)
      → (last ≡ true → has_mac x s e.mac (endpoints_of x s st i) ≡ false)
      → st.endpoint_2_desc e ≡ true
      → forget_desc x s e (forget_address x s e.mac e.ip (forget_mac x s e.mac i last st))
        ≡ ok tt (record st {
          mac_2_localport_data =
              if has_mac x s e.mac (endpoints_of x s st i)
              then st.mac_2_localport_data
              else update mac_discrete st.mac_2_localport_data e.mac none;
          ip_address_2_mac = less_macs e.mac e.ip st.ip_address_2_mac;
          mac_2_ips = less_ips e.mac e.ip st.mac_2_ips;
          endpoint_2_desc = update (endpoint_discrete x s) st.endpoint_2_desc e false;
        })
  forgets e i last st h k =
      rw (forget_mac_lem e.mac i last st h, forget_address_lem e.mac e.ip _)
        (forget_desc-described e _ k)
