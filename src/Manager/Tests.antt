-- ===== src/Manager/Tests.antt =====
-- The theorems about RTC routes at a concrete subscription.
use networking_bagpipe_l.Common.{
  ℕ, suc, ◌+◌, ◌≡◌, refl, true, Option, none, some, [], ◌∷◌, ℕ_discrete, contains, is_some,
}
use networking_bagpipe_l.Engine.{vpn_instance, bgp_manager}
use networking_bagpipe_l.Engine.Toy.{toy}
use networking_bagpipe_l.RouteTable.Defs.{Subscription}
use networking_bagpipe_l.RouteTable.Consistent.{initial}
use networking_bagpipe_l.Manager.{has_rtc, rtc_advertisement_for_sub, rtc_withdrawal_for_sub}
use networking_bagpipe_l.Manager.Rtc.{
  handle_all, rtc_withdrawal_for_sub-none, rtc_advertisement_for_sub-some,
}

-- the NLRI of a route target: 1000 and its number
abbrev nlri_of : Option ℕ → ℕ
nlri_of none = 1000
nlri_of (some rt) = suc (rt + 1000)

-- two subscriptions to the route target 7, for IP VPN and EVPN
abbrev ipvpn : Subscription toy
ipvpn = record {
  matching = record { afi = some 1; safi = some 128; route_target = some 7 };
  worker = vpn_instance 1;
}

abbrev evpn : Subscription toy
evpn = record {
  matching = record { afi = some 25; safi = some 70; route_target = some 7 };
  worker = vpn_instance 2;
}

rtc_advertisement_for_sub-some_example :
    is_some (
      (handle_all toy
          (initial toy)
          (rtc_advertisement_for_sub toy (128 ∷ 70 ∷ []) nlri_of ipvpn)).source_nlri_2_entry
        bgp_manager
        (nlri_of (some 7)))
    ≡ true
unfolding has_rtc contains ℕ_discrete
rtc_advertisement_for_sub-some_example =
    rtc_advertisement_for_sub-some toy (128 ∷ 70 ∷ []) nlri_of (initial toy) ipvpn refl

rtc_withdrawal_for_sub-none_example :
    (handle_all toy
        (handle_all toy (initial toy) (rtc_advertisement_for_sub toy (128 ∷ 70 ∷ []) nlri_of evpn))
        (rtc_withdrawal_for_sub toy (128 ∷ 70 ∷ []) nlri_of ipvpn)).source_nlri_2_entry
      bgp_manager
      (nlri_of (some 7))
    ≡ none
unfolding has_rtc contains ℕ_discrete
rtc_withdrawal_for_sub-none_example =
    rtc_withdrawal_for_sub-none toy (128 ∷ 70 ∷ []) nlri_of
      (handle_all toy (initial toy) (rtc_advertisement_for_sub toy (128 ∷ 70 ∷ []) nlri_of evpn))
      ipvpn evpn refl refl
