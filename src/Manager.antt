-- ===== src/Manager.antt =====
-- The BGP manager: networking_bagpipe/bagpipe_bgp/engine/bgp_manager.py. It is the client of the
-- two callbacks of the route table manager, for which it enqueues route target constraint (RTC)
-- routes, whose source it is. The NLRI that `exa.RTC.new` makes of a route target, with the AS and
-- the local address of the configuration, is a parameter, as are the numbers in RTC_SAFIS.
pub mod Rtc
mod Tests
use networking_bagpipe_l.Common.{
  ℕ, ℕ_discrete, Bool, true, false, Option, none, some, List, [], ◌∷◌, contains, if◌then◌else◌,
}
use networking_bagpipe_l.Engine.{
  Exabgp, Source, bgp_manager, RouteEntry, EventType, advertise, withdraw, RouteEvent, init,
  init_event,
}
use networking_bagpipe_l.RouteTable.Match.{Match}
use networking_bagpipe_l.RouteTable.Defs.{Subscription, Event, route}

module _ (x : Exabgp) (rtc_safis : List ℕ) (rtc_nlri : Option x.RouteTarget → x.Nlri) where
  -- `_subscription_2_rtc_route_entry`
  unfoldable pub subscription_2_rtc_route_entry : Subscription x → RouteEntry x (Option Source)
  subscription_2_rtc_route_entry sub = init x (rtc_nlri sub.matching.route_target) none none none

  -- `sub.safi in RTC_SAFIS`
  unfoldable pub has_rtc : Option ℕ → Bool
  has_rtc none = false
  has_rtc (some safi) = contains ℕ_discrete safi rtc_safis

  -- the events that are enqueued for an event that was constructed
  unfoldable pub enqueue_event : Option (RouteEvent x) → List (Event x)
  enqueue_event none = []
  enqueue_event (some ev) = route ev ∷ []

  unfoldable pub rtc_for_sub : EventType → Subscription x → List (Event x)
  rtc_for_sub ty sub =
      if has_rtc sub.matching.safi
      then enqueue_event (init_event x ty (subscription_2_rtc_route_entry sub) (some bgp_manager))
      else []

  unfoldable pub rtc_advertisement_for_sub : Subscription x → List (Event x)
  rtc_advertisement_for_sub = rtc_for_sub advertise

  unfoldable pub rtc_withdrawal_for_sub : Subscription x → List (Event x)
  rtc_withdrawal_for_sub = rtc_for_sub withdraw
