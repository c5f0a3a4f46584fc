-- ===== src/VpnInstance/Plugged.antt =====
-- `vif_plugged` as a whole, on the tables of the instance.
use networking_bagpipe_l.Common.{
  ℕ, ◌≡◌, refl, Bool, true, not, ◌&&◌, ◌||◌, Option, none, some, update, is_some, eqb, eqb_self,
  arith,
}
use networking_bagpipe_l.Common.Outcome.{
  Ends, ended, raised, Ends-after, Ends-if, Ends-handled, Ends-as,
}
use networking_bagpipe_l.Engine.{Exabgp}
use networking_bagpipe_l.VpnInstance.Base.{
  Site, Direction, Endpoint, endpoint_discrete, PortData, Dataplane, State,
}
use networking_bagpipe_l.VpnInstance.Plug.{
  forward_to_port, record_endpoint, record_address, record_prefix, wildcard,
}
use networking_bagpipe_l.VpnInstance.Handlers.{plug_endpoint, fits_port, vif_plugged}
use networking_bagpipe_l.VpnInstance.Tidy.{Leaves, is_at, is_plugged, IsTidy}
use networking_bagpipe_l.VpnInstance.Recorded.{
  Opened, record_ip, recorded-IsTidy, is_plugged_after, is_on_after,
}
use networking_bagpipe_l.VpnInstance.Dropped.{replace_wildcard-Leaves}
use networking_bagpipe_l.VpnInstance.Prepared.{
  Prepared, check_ip_mac-Prepared, get_port_data-Prepared, plug_dataplane-Prepared,
  advertise-Opened,
}

module _ (x : Exabgp) (s : Site x) where
  open s use {
    Mac, Prefix, Port, Interface, interface_discrete, linuxif, mac_discrete, prefix_discrete,
    port_discrete, Ip,
  }

  -- what is plugged after the plug of an endpoint
  abbrev pub plugged_with : State x s → Endpoint x s → Endpoint x s → Bool
  plugged_with st e a =
      eqb (endpoint_discrete x s) a e
      || is_plugged x s st a
        && not (is_some e.ip && eqb (endpoint_discrete x s) a (wildcard x s e.mac))

  module _ (e : Endpoint x s) (st₀ : State x s) (tidy : IsTidy x s st₀) where
    described_first :
        Prepared x s e st₀ (record st₀ {
          endpoint_2_desc = update (endpoint_discrete x s) st₀.endpoint_2_desc e true;
        })
    described_first = record {
      ports = refl;
      data_of = λ m. refl;
      prefixes_of = λ m. refl;
      directions = λ a. refl;
      macs_of = λ p. refl;
      routes = λ a. refl;
      rds = λ a h. refl;
      described = λ a. ground arith;
    }

    Opened-by_plug :
        (dp : Dataplane x s) (port : Port) (subnet : Bool) (order : ℕ) (lp : Option ℕ)
        (direction : Option Direction)
        → forward_to_port direction ≡ true
        → fits_port x s (st₀.mac_2_localport_data e.mac) port ≡ true
        → (Q : Unit {0} → State x s → Type 0)
        → ((d : PortData x s) (st : State x s)
            → linuxif d.port_info ≡ linuxif port
            → Opened x s e st₀ st
            → Ends Q (
                record_address x s e.mac e.ip
                  (linuxif port)
                  (record_endpoint x s e lp direction d (linuxif port) st)))
        → Ends Q (plug_endpoint x s dp e port subnet order lp direction st₀)
    unfolding plug_endpoint
    Opened-by_plug dp port subnet order lp direction forward fits Q k =
        Ends-after _ _ (check_ip_mac-Prepared x s e st₀ e.mac e.ip subnet _ described_first)
          (λ (ip, plen, refresh) st₁ prep₁.
            Ends-after _ _ (get_port_data-Prepared x s e st₀ port order st₁ fits prep₁)
              (λ d st₂ (same, prep₂).
                Ends-after _ _
                  (plug_dataplane-Prepared x s e st₀ dp e.mac ip port d.label direction refresh st₂
                    prep₂)
                  (λ u st₃ prep₃.
                    Ends-after _ _
                      (advertise-Opened x s e st₀ direction ip plen d.label order lp st₃ forward
                        prep₃)
                      (λ v st₄ opened. k d st₄ same opened))))

  recorded_address :
      (m : Mac) (o : Option Prefix) (st₀ st : State x s) (lp : Option ℕ)
      (direction : Option Direction) (d : PortData x s) (i : Interface)
      → IsTidy x s st₀
      → Opened x s (record { mac = m; ip = o }) st₀ st
      → linuxif d.port_info ≡ i
      → ((j : Interface) → is_at x s (st₀.mac_2_localport_data m) j ≡ true → j ≡ i)
      → forward_to_port direction ≡ true
      → Ends
          (λ _ st'. Leaves x s (plugged_with st₀ (record { mac = m; ip = o })) st')
          (record_address x s m o i
            (record_endpoint x s (record { mac = m; ip = o }) lp direction d i st))
  unfolding record_address record_prefix record_ip
  recorded_address m none st₀ st lp direction d i tidy opened same fits forward =
      let e : Endpoint x s = record { mac = m; ip = none } in
      ended tt _ (record {
        tidy = recorded-IsTidy x s st₀ st e lp direction d i tidy opened same fits forward;
        plugs = λ a.
            ground (arith, is_plugged_after x s st₀ st e lp direction d i tidy opened same fits a);
      })
  recorded_address m (some p) st₀ st lp direction d i tidy opened same fits forward =
      let e : Endpoint x s = record { mac = m; ip = some p } in
      Ends-as
        (λ u st' leaves. record {
          tidy = leaves.tidy;
          plugs = λ a. ground (
            arith,
            leaves.plugs a,
            is_plugged_after x s st₀ st e lp direction d i tidy opened same fits a,
          );
        })
        (replace_wildcard-Leaves x s _ m i p
          (recorded-IsTidy x s st₀ st e lp direction d i tidy opened same fits forward)
          (ground (
            arith,
            is_on_after x s st₀ st e lp direction d i tidy opened same fits i e,
            eqb_self (endpoint_discrete x s) e,
          )))

  one_port :
      (o : Option (PortData x s)) (port : Port)
      → fits_port x s o port ≡ true
      → (j : Interface) → is_at x s o j ≡ true
      → j ≡ linuxif port
  unfolding fits_port is_at
  one_port none port h j k = ground (arith, k)
  one_port (some d) port h j k = ground (arith, h, k)

  -- A plug that forwards traffic to the port and returns leaves tables that agree. The endpoint is
  -- plugged, the endpoint of the same MAC address and any IP address no longer is when the new one
  -- has an IP prefix, and all others are as before.
  pub vif_plugged-IsTidy :
      (dp : Dataplane x s) (m : Mac) (o : Option Prefix) (port : Port) (subnet : Bool) (order : ℕ)
      (lp : Option ℕ) (direction : Option Direction) (st₀ : State x s)
      → IsTidy x s st₀
      → forward_to_port direction ≡ true
      → Ends
          (λ _ st'. Leaves x s (plugged_with st₀ (record { mac = m; ip = o })) st')
          (vif_plugged x s dp m o port subnet order lp direction st₀)
  unfolding vif_plugged
  vif_plugged-IsTidy dp m o port subnet order lp direction st₀ tidy forward =
      Ends-if (fits_port x s (st₀.mac_2_localport_data m) port) _ _
        (λ fits. Ends-handled _ _ (
          Opened-by_plug (record { mac = m; ip = o }) st₀ tidy dp port subnet order lp direction
            forward fits _
            (λ d st same opened.
              recorded_address m o st₀ st lp direction d (linuxif port) tidy opened same
                (one_port (st₀.mac_2_localport_data m) port fits) forward)))
        (λ _. raised _ _)
