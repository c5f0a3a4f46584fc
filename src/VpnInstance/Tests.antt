-- ===== src/VpnInstance/Tests.antt =====
-- The theorems on a VPN instance at concrete plugs.
use networking_bagpipe_l.Common.{
  ℕ, ℕ_discrete, IsDistinct, ◌≡◌, refl, Bool, true, false, not, ◌&&◌, none, some, [], ◌∷◌, contains,
  eqb, arith, if◌then◌else◌, ◌||◌, ◌==◌, ltb,
}
use Prim.Native.Nat.{bit_and, bit_or}
use networking_bagpipe_l.Common.Dicts.{get}
use networking_bagpipe_l.Common.Outcome.{Ends, Returns, Raises}
use networking_bagpipe_l.Allocator.{init_labels, get_new_label, is_allocated}
use networking_bagpipe_l.Engine.Toy.{toy}
use networking_bagpipe_l.VpnInstance.Base.{
  State, subscribe, inconsistent_mac, dataplane_failure, Endpoint, endpoint_discrete, endpoints_in,
  members,
}
use networking_bagpipe_l.VpnInstance.Handlers.{
  has_mac, fits_port, vif_plugged, vif_unplugged_real, vif_unplugged,
}
use networking_bagpipe_l.VpnInstance.Tidy.{IsTidy, Leaves, is_plugged, is_on, is_at, is_plugged_at}
use networking_bagpipe_l.VpnInstance.Plugged.{vif_plugged-IsTidy, plugged_with}
use networking_bagpipe_l.VpnInstance.Unplugged.{vif_unplugged_real-IsTidy}
use networking_bagpipe_l.VpnInstance.Faults.{
  vif_plugged-Raises, vif_unplugged-Raises, vif_plugged-leak, Forgets,
}
use networking_bagpipe_l.VpnInstance.Ports.{
  Flow, range, construct_port_rules, is_valid, is_among, fits_rules, is_lost,
  construct_port_rules_lem,
}
use networking_bagpipe_l.VpnInstance.RouteTargets.{
  follows, is_subscribed, update_route_targets, update_route_targets-follows,
}
use networking_bagpipe_l.VpnInstance.Tables.{is_empty, is_empty-is_plugged}
use networking_bagpipe_l.VpnInstance.Toy.{
  route, site, working, failing, empty, endpoint, port_5, plugged,
}

empty-IsTidy : IsTidy toy site empty
unfolding is_on is_at is_plugged_at get contains endpoints_in
empty-IsTidy = record {
  located = λ i e h. h;
  used = λ m i h. ground (arith, h);
  routed = λ e. refl;
  served = λ e h. ground (arith, h);
  macs = λ m p. refl;
  prefixes = λ m p. refl;
  inhabited = λ p. ground arith;
  filled = λ i. ground arith;
  distinct = λ i. tt;
}

vif_plugged-IsTidy_example :
    Ends
      (λ _ st'. Leaves toy site (plugged_with toy site empty (record { mac = 1; ip = some 9 })) st')
      (vif_plugged toy site working 1 (some 9) 5 false 0 none none empty)
vif_plugged-IsTidy_example =
    vif_plugged-IsTidy toy site working 1 (some 9) 5 false 0 none none empty empty-IsTidy refl

located_plugged :
    (i : ℕ) (e : Endpoint toy site)
    → is_on toy site plugged i e
      ≡ (eqb ℕ_discrete i 5 && eqb (endpoint_discrete toy site) e endpoint)
unfolding is_on endpoints_in get contains
located_plugged i e = ground arith

plugged_one :
    (e : Endpoint toy site)
    → is_plugged toy site plugged e ≡ eqb (endpoint_discrete toy site) e endpoint
unfolding is_plugged_at
plugged_one e = ground (arith, located_plugged 5 e)

used_plugged :
    (m i : ℕ)
    → is_at toy site (plugged.mac_2_localport_data m) i ≡ true
    → has_mac toy site m (endpoints_in toy site plugged.localport_2_endpoints i) ≡ true
unfolding is_at get endpoints_in has_mac
used_plugged m i h = ground (arith, h)

IsDistinct-at :
    (b : Bool)
    → IsDistinct (endpoint_discrete toy site) (members (if b then some (endpoint ∷ []) else none))
unfolding contains
IsDistinct-at true = (refl, tt)
IsDistinct-at false = tt

plugged-IsTidy : IsTidy toy site plugged
unfolding is_at get contains endpoints_in
plugged-IsTidy = record {
  located = λ i e h. ground (arith, h, located_plugged i e);
  used = λ m i h. used_plugged m i h;
  routed = λ e. ground (arith, plugged_one e);
  served = λ e h. ground (arith, h, plugged_one e);
  macs = λ m p. ground (arith, plugged_one (record { mac = m; ip = some p }));
  prefixes = λ m p. ground (arith, plugged_one (record { mac = m; ip = some p }));
  inhabited = λ p. ground arith;
  filled = λ i. ground arith;
  distinct = λ i. IsDistinct-at (eqb ℕ_discrete i 5);
}

vif_unplugged_real-IsTidy_example :
    Returns
      (λ _ st'.
        Leaves toy site
          (λ a.
            is_plugged toy site plugged a
            && not (eqb (endpoint_discrete toy site) a (record { mac = 1; ip = some 9 })))
          st')
      (vif_unplugged_real toy site working 1 (some 9) plugged)
unfolding is_plugged_at is_on contains endpoints_in get ℕ_discrete endpoint_discrete is_allocated
vif_unplugged_real-IsTidy_example =
    vif_unplugged_real-IsTidy toy site working 1 (some 9) port_5 none 1000 plugged plugged-IsTidy
      refl refl refl refl (λ ip last. refl) refl refl refl refl

-- another MAC address on the prefix 9
vif_plugged-Raises_example :
    Raises inconsistent_mac
      (Forgets toy site 2 9 (1 ∷ []))
      (vif_plugged toy site working 2 (some 9) 6 false 0 none none plugged)
unfolding contains ℕ_discrete fits_port
vif_plugged-Raises_example =
    vif_plugged-Raises toy site working 2 9 (9, 32) (1 ∷ []) 6 0 none none plugged refl refl refl
      refl

vif_unplugged-Raises_example :
    Raises inconsistent_mac
      (λ st'. (st'.ip_address_2_mac 8 ≡ some []))
      (vif_unplugged toy site working 1 (some 8) plugged)
vif_unplugged-Raises_example = vif_unplugged-Raises toy site working 1 8 port_5 plugged refl refl

vif_plugged-leak_example :
    Raises dataplane_failure
      (λ st'.
        (st'.label_allocator ≡ (record init_labels {
          current_id = 17;
          allocated_ids = (16, record { mac = 3; ip = some 9 }) ∷ [];
        }))
        × ((n : ℕ) → st'.mac_2_localport_data n ≡ empty.mac_2_localport_data n))
      (vif_plugged toy site failing 3 (some 9) 7 false 0 none none empty)
unfolding get_new_label init_labels
vif_plugged-leak_example =
    vif_plugged-leak toy site failing 3 (some 9) 7 false 0 none none 16 _ empty refl refl
      (λ p e. refl) refl refl (λ ip. refl)

-- the bits of the operators
abbrev bits : Flow
bits = record {
  Operator = ℕ;
  eq = 1;
  gt = 2;
  lt = 4;
  and = 64;
  join = bit_or;
  fits = λ op n p.
      (bit_and op 1 == 1 && p == n)
      || (bit_and op 2 == 2 && ltb n p)
      || (bit_and op 4 == 4 && ltb p n);
  fits-eq = λ n p. ground arith;
  fits-gt = λ n p. ground arith;
  fits-lt = λ n p. ground arith;
  fits-gt_eq = λ n p. ground arith;
  fits-and_lt_eq = λ n p. ground arith;
}

construct_port_rules_lem_example :
    fits_rules bits (construct_port_rules bits (range 0 1023)) 1023
    ≡ (is_among (range 0 1023) 1023 && not (is_lost (range 0 1023) 1023))
unfolding is_valid
construct_port_rules_lem_example =
    construct_port_rules_lem bits (range 0 1023) 1023 refl (omega arith)

-- an instance that has subscribed to its import route target
abbrev subscribed : State toy site
subscribed = record empty { calls = subscribe 1 128 7 ∷ subscribe 1 133 7 ∷ [] }

update_route_targets-follows_example :
    follows toy site 1 133 7
      (update_route_targets toy site 1 128 133 (8 ∷ []) (8 ∷ []) (route ∷ []) subscribed)
    ≡ contains ℕ_discrete 7 (8 ∷ [])
unfolding is_subscribed contains ℕ_discrete
update_route_targets-follows_example =
    update_route_targets-follows toy site 1 128 133 133 refl 7 (8 ∷ []) (8 ∷ []) (route ∷ [])
      subscribed refl

is_empty-is_plugged_example :
    (((a : Endpoint toy site) → is_plugged toy site plugged a ≡ false)
      → is_empty toy site plugged ≡ true)
    × (is_empty toy site plugged ≡ true
        → (a : Endpoint toy site) → is_plugged toy site plugged a ≡ false)
is_empty-is_plugged_example = is_empty-is_plugged toy site plugged plugged-IsTidy
