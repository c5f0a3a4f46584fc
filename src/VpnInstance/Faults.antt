-- ===== src/VpnInstance/Faults.antt =====
-- The exceptions of `vif_plugged` and `vif_unplugged_real`, and the tables that they leave.
use networking_bagpipe_l.Common.{
  ℕ, ◌≡◌, refl, Bool, true, false, Option, none, some, List, [], ◌∷◌, ◌++◌, contains, discard,
  update, subst, Option-cases, inl, inr, if◌then◌else◌, arith, sym, ap, ◌∙◌,
}
use networking_bagpipe_l.Common.Dicts.{get}
use networking_bagpipe_l.Common.Outcome.{
  ok, Raises, raises_in, Raises-first, Raises-later, Raises-handled, after_ok,
}
use networking_bagpipe_l.Engine.{Exabgp}
use networking_bagpipe_l.Allocator
use networking_bagpipe_l.Allocator.{IdAllocator, get_new_label}
use networking_bagpipe_l.VpnInstance.Base.{
  Site, Direction, not_plugged_yet, inconsistent_mac, dataplane_failure, dataplane_plug, Endpoint,
  endpoint_discrete, PortData, Dataplane, State, members,
}
use networking_bagpipe_l.VpnInstance.Plug.{
  raise_if_mac2ip_inconsistency, check_prefix, check_ip_mac, parse_ipaddress_prefix, parsed,
  get_port_data, port_data, plug_dataplane,
}
use networking_bagpipe_l.VpnInstance.Leave.{parses}
use networking_bagpipe_l.VpnInstance.Handlers.{
  require, plug_endpoint, forget_plug, forget_port, forget_prefix, fits_port, vif_plugged,
  vif_unplugged_real, vif_unplugged,
}

module _ (x : Exabgp) (s : Site x) where
  open s use {
    Mac, Prefix, Port, linuxif, Interface, interface_discrete, mac_discrete, prefix_discrete, Ip,
  }

  raise_if-Raises :
      (m : Mac) (p : Prefix) (st : State x s) (P : State x s → Type 0)
      → contains mac_discrete m (members (st.ip_address_2_mac p)) ≡ false
      → P (record st {
        ip_address_2_mac =
            update prefix_discrete st.ip_address_2_mac p (some (members (st.ip_address_2_mac p)));
      })
      → Raises inconsistent_mac P (raise_if_mac2ip_inconsistency x s m (some p) st)
  unfolding raise_if_mac2ip_inconsistency
  raise_if-Raises m p st P h k = rw h (raises_in _ k)

  parse-ok :
      (p : Prefix) (a : Ip × ℕ) (st : State x s)
      → s.parse p ≡ some a
      → parse_ipaddress_prefix x s p st ≡ ok a st
  unfolding parse_ipaddress_prefix
  parse-ok p a st h = ap (λ (o : Option (Ip × ℕ)). parsed x s o st) h

  -- a prefix that is bound to other MAC addresses
  check_prefix-Raises :
      (m : Mac) (p : Prefix) (ip : Ip) (len : ℕ) (macs : List Mac) (st : State x s)
      → st.ip_address_2_mac p ≡ some macs
      → contains mac_discrete m macs ≡ false
      → Raises inconsistent_mac
          (λ st'. (st'.ip_address_2_mac p ≡ some macs))
          (check_prefix x s m p false (ip, len) st)
  unfolding check_prefix
  check_prefix-Raises m p ip len macs st bound other =
      rw bound (Raises-first _ (raise_if-Raises m p st _ (rw bound other) (ground (arith, bound))))

  check_ip_mac-Raises :
      (m : Mac) (p : Prefix) (a : Ip × ℕ) (macs : List Mac) (st : State x s)
      → s.parse p ≡ some a
      → st.ip_address_2_mac p ≡ some macs
      → contains mac_discrete m macs ≡ false
      → Raises inconsistent_mac
          (λ st'. (st'.ip_address_2_mac p ≡ some macs))
          (check_ip_mac x s m (some p) false st)
  unfolding check_ip_mac
  check_ip_mac-Raises m p (ip, len) macs st parses bound other =
      Raises-later (check_prefix x s m p false) (parse-ok p (ip, len) st parses)
        (check_prefix-Raises m p ip len macs st bound other)

  forget_port-macs :
      (i : Interface) (e : Endpoint x s) (o : Option (List (Endpoint x s))) (st : State x s)
      → (forget_port x s i e o st).ip_address_2_mac ≡ st.ip_address_2_mac
  unfolding forget_port
  forget_port-macs i e none st = refl
  forget_port-macs i e (some l) st = ground arith

  forget_prefix-bound :
      (m : Mac) (p : Prefix) (macs : List Mac) (st : State x s)
      → st.ip_address_2_mac p ≡ some macs
      → forget_prefix x s m (some p) st ≡ record st {
        ip_address_2_mac =
            update prefix_discrete st.ip_address_2_mac p (some (discard mac_discrete m macs));
      }
  unfolding forget_prefix
  forget_prefix-bound m p macs st bound = rw (bound, forget_prefix) refl

  -- the port of the MAC address is forgotten, and the others keep the prefix
  abbrev pub Forgets : Mac → Prefix → List Mac → State x s → Type 0
  Forgets m p macs st =
      (st.mac_2_localport_data m ≡ none)
      × (st.ip_address_2_mac p ≡ some (discard mac_discrete m macs))

  forget_plug-Forgets :
      (m : Mac) (p : Prefix) (i : Interface) (macs : List Mac) (st : State x s)
      → st.ip_address_2_mac p ≡ some macs
      → Forgets m p macs (forget_plug x s (record { mac = m; ip = some p }) i st)
  unfolding forget_plug
  forget_plug-Forgets m p i macs st bound =
      let e : Endpoint x s = record { mac = m; ip = some p } in
      let st' = forget_port x s i e (get interface_discrete i st.localport_2_endpoints) st in
      let same = forget_port-macs i e (get interface_discrete i st.localport_2_endpoints) st in
      subst (Forgets m p macs)
        (sym (
          forget_prefix-bound m p macs
            (record st' {
              mac_2_localport_data = update mac_discrete st'.mac_2_localport_data m none;
            })
            (ap (λ (f : Prefix → Option (List Mac)). f p) same ∙ bound)))
        (ground arith, ground arith)

  -- A plug of a prefix that is bound to other MAC addresses only, advertised as a /32, raises. It
  -- ends the data of the port of its MAC address, which other prefixes may have needed.
  pub vif_plugged-Raises :
      (dp : Dataplane x s) (m : Mac) (p : Prefix) (a : Ip × ℕ) (macs : List Mac) (port : Port)
      (order : ℕ) (lp : Option ℕ) (direction : Option Direction) (st : State x s)
      → s.parse p ≡ some a
      → st.ip_address_2_mac p ≡ some macs
      → contains mac_discrete m macs ≡ false
      → fits_port x s (st.mac_2_localport_data m) port ≡ true
      → Raises inconsistent_mac
          (Forgets m p macs)
          (vif_plugged x s dp m (some p) port false order lp direction st)
  unfolding vif_plugged plug_endpoint
  vif_plugged-Raises dp m p a macs port order lp direction st parses bound other fits = rw fits (
      Raises-handled (forget_plug x s (record { mac = m; ip = some p }) (linuxif port))
        (forget_plug-Forgets m p (linuxif port) macs)
        (Raises-first _ (check_ip_mac-Raises m p a macs _ parses bound other)))

  -- An unplug of a prefix that is not known, for a MAC address that is, raises. From then on the
  -- prefix has an empty set of MAC addresses.
  pub vif_unplugged-Raises :
      (dp : Dataplane x s) (m : Mac) (p : Prefix) (d : PortData x s) (st : State x s)
      → st.mac_2_localport_data m ≡ some d
      → st.ip_address_2_mac p ≡ none
      → Raises inconsistent_mac
          (λ st'. (st'.ip_address_2_mac p ≡ some []))
          (vif_unplugged x s dp m (some p) st)
  unfolding vif_unplugged vif_unplugged_real contains
  vif_unplugged-Raises dp m p d st data_of unknown =
      Raises-later _ (ap (λ (u : Option (PortData x s)). require x s u not_plugged_yet st) data_of)
        (Raises-first _ (raise_if-Raises m p st _ (rw unknown refl) (ground (arith, unknown))))

  get_port_data-new :
      (e : Endpoint x s) (port : Port) (order label : ℕ) (labels : IdAllocator (Endpoint x s))
      (st : State x s)
      → st.mac_2_localport_data e.mac ≡ none
      → get_new_label st.label_allocator e ≡ Allocator.ok (label, labels)
      → get_port_data x s e port order st
        ≡ ok
            (record { label = label; port_info = port; lb_consistent_hash_order = order })
            (record st { label_allocator = labels })
  unfolding get_port_data port_data
  get_port_data-new e port order label labels st new fresh =
      ap (λ (o : Option (PortData x s)). port_data x s e port order o st) new
      ∙ rw (fresh, port_data) refl

  failing_plug :
      (dp : Dataplane x s) (m : Mac) (ip : Option Ip) (port : Port) (label : ℕ)
      (direction : Option Direction) (refresh : Bool) (P : State x s → Type 0) (st : State x s)
      → refresh ≡ false
      → dp.validate_directions direction ≡ true
      → dp.vif_plugged m ip port label direction ≡ false
      → P (record st { calls = st.calls ++ dataplane_plug m ip port label ∷ [] })
      → Raises dataplane_failure P (plug_dataplane x s dp m ip port label direction refresh st)
  unfolding plug_dataplane
  failing_plug dp m ip port label direction refresh P st r valid fails k =
      rw (r, valid, fails) (raises_in _ k)

  -- the labels and the data of the ports
  record KeepsPorts (st st' : State x s) : Type 0 where
    labels : st'.label_allocator ≡ st.label_allocator
    data_of : st'.mac_2_localport_data ≡ st.mac_2_localport_data

  forget_port-KeepsPorts :
      (i : Interface) (e : Endpoint x s) (o : Option (List (Endpoint x s))) (st : State x s)
      → KeepsPorts st (forget_port x s i e o st)
  unfolding forget_port
  forget_port-KeepsPorts i e none st = record { labels = refl; data_of = refl }
  forget_port-KeepsPorts i e (some l) st = record { labels = ground arith; data_of = ground arith }

  forget_prefix-KeepsPorts :
      (m : Mac) (o : Option Prefix) (st : State x s) → KeepsPorts st (forget_prefix x s m o st)
  unfolding forget_prefix
  forget_prefix-KeepsPorts m none st = record { labels = refl; data_of = refl }
  forget_prefix-KeepsPorts m (some p) st = record { labels = ground arith; data_of = ground arith }

  check_ip_mac-new :
      (m : Mac) (o : Option Prefix) (subnet : Bool) (st : State x s)
      → parses x s o ≡ true
      → st.mac_2_localport_data m ≡ none
      → ((p : Prefix) → o ≡ some p → st.ip_address_2_mac p ≡ none)
      → (ip : Option Ip) × (plen : Option ℕ) × (check_ip_mac x s m o subnet st
          ≡ ok (ip, plen, false) st)
  unfolding check_ip_mac check_prefix
  check_ip_mac-new m none subnet st h new free = (none, none, rw new refl)
  check_ip_mac-new m (some p) subnet st h new free = elim (Option-cases (s.parse p)) [
    | inl n ↦ ground (arith, h, n)
    | inr ((ip, len), e) ↦ (
      some ip,
      some (if subnet then len else 32),
      after_ok (check_prefix x s m p subnet) (parse-ok p (ip, len) st e)
          ∙ rw (free p refl, check_prefix) refl,
    )
  ]

  -- A plug of a new MAC address, without an IP prefix or with one that is bound to no MAC address,
  -- where the dataplane raises, keeps the label that it took: the label is not released, and the
  -- data of each MAC address are those from before the plug.
  pub vif_plugged-leak :
      (dp : Dataplane x s) (m : Mac) (o : Option Prefix) (port : Port) (subnet : Bool) (order : ℕ)
      (lp : Option ℕ) (direction : Option Direction) (label : ℕ)
      (labels : IdAllocator (Endpoint x s)) (st : State x s)
      → parses x s o ≡ true
      → st.mac_2_localport_data m ≡ none
      → ((p : Prefix) → o ≡ some p → st.ip_address_2_mac p ≡ none)
      → get_new_label st.label_allocator (record { mac = m; ip = o }) ≡ Allocator.ok (label, labels)
      → dp.validate_directions direction ≡ true
      → ((ip : Option Ip) → dp.vif_plugged m ip port label direction ≡ false)
      → Raises dataplane_failure
          (λ st'.
            (st'.label_allocator ≡ labels)
            × ((n : Mac) → st'.mac_2_localport_data n ≡ st.mac_2_localport_data n))
          (vif_plugged x s dp m o port subnet order lp direction st)
  unfolding vif_plugged plug_endpoint fits_port forget_plug
  vif_plugged-leak dp m o port subnet order lp direction label labels st h new free fresh valid
        fails =
      let e : Endpoint x s = record { mac = m; ip = o } in
      let st₀ : State x s = record st {
        endpoint_2_desc = update (endpoint_discrete x s) st.endpoint_2_desc e true;
      } in
      let (ip, plen, checks) = check_ip_mac-new m o subnet st₀ h new free in
      rw new (
        Raises-handled
          {P = λ st'.
            (st'.label_allocator ≡ labels) × (st'.mac_2_localport_data ≡ st.mac_2_localport_data)}
          (forget_plug x s e (linuxif port))
          (λ st' (l, d).
            let k =
              forget_port-KeepsPorts (linuxif port) e
                (get interface_discrete (linuxif port) st'.localport_2_endpoints) st' in
            let u =
              forget_port x s (linuxif port) e
                (get interface_discrete (linuxif port) st'.localport_2_endpoints) st' in
            let k' = forget_prefix-KeepsPorts m o (record u {
              mac_2_localport_data = update mac_discrete u.mac_2_localport_data m none;
            }) in
            (
              k'.labels ∙ k.labels ∙ l,
              λ n. ground (
                arith,
                new,
                ap (λ (g : Mac → Option (PortData x s)). g n) d,
                ap (λ (g : Mac → Option (PortData x s)). g n) k.data_of,
                ap (λ (g : Mac → Option (PortData x s)). g n) k'.data_of,
              ),
            ))
          (Raises-later _ checks (
            Raises-later _ (get_port_data-new e port order label labels _ new fresh) (
              Raises-first _ (
                failing_plug dp m ip port label direction false _ _ refl valid (fails ip)
                  (refl, refl))))))
