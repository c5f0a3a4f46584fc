-- ===== src/Manager/Rtc.antt =====
-- What the route table manager makes of the RTC routes.
use networking_bagpipe_l.Common.{
  ℕ, ◌≡◌, refl, true, Option, none, some, List, [], ◌∷◌, arith, is_some, Bool-cases, inl, inr,
  eqb_self,
}
use networking_bagpipe_l.Engine.{Exabgp, source_discrete, bgp_manager, RouteEvent, init, init_event}
use networking_bagpipe_l.RouteTable.Defs.{State, Subscription, Event, Entry}
use networking_bagpipe_l.RouteTable.Routes.{
  on_event, receive_route_event, receive_as, receive_withdraw, receive_advertise, withdraw_entry,
  forget_route, record_route, is_same,
}
use networking_bagpipe_l.Manager.{
  has_rtc, rtc_for_sub, enqueue_event, subscription_2_rtc_route_entry, rtc_advertisement_for_sub,
  rtc_withdrawal_for_sub,
}

module _ (x : Exabgp) where
  -- the state after a list of events
  unfoldable pub handle_all : State x → List (Event x) → State x
  handle_all st [] = st
  handle_all st (ev ∷ evs) = handle_all (on_event x st ev).0 evs

  withdraw_entry-none :
      (st : State x) (e : Entry x) (o : Option (Entry x))
      → st.source_nlri_2_entry e.source e.nlri ≡ o
      → (withdraw_entry x st e o).0.source_nlri_2_entry e.source e.nlri ≡ none
  unfolding withdraw_entry forget_route
  withdraw_entry-none st e none h = h
  withdraw_entry-none st e (some r) h =
      rw (eqb_self source_discrete e.source, eqb_self x.nlri_discrete e.nlri) refl

  is_same-some : (o : Option (Entry x)) (e : Entry x) → is_same x o e ≡ true → is_some o ≡ true
  unfolding is_same
  is_same-some none e h = ground arith
  is_same-some (some r) e h = refl

  receive_advertise-some :
      (st : State x) (ev : RouteEvent x)
      → let e = ev.route_entry in
        is_some ((receive_advertise x st ev).0.source_nlri_2_entry e.source e.nlri) ≡ true
  unfolding receive_advertise record_route is_same
  receive_advertise-some st ev =
      let e = ev.route_entry in
      elim (Bool-cases (is_same x (st.source_nlri_2_entry e.source e.nlri) e)) [
        | inl same ↦ rw same (is_same-some (st.source_nlri_2_entry e.source e.nlri) e same)
        | inr new ↦
            rw (new, eqb_self source_discrete e.source, eqb_self x.nlri_discrete e.nlri) refl
      ]

  module _ (rtc_safis : List ℕ) (rtc_nlri : Option x.RouteTarget → x.Nlri) where
    -- The withdrawal for a subscription whose SAFI is one of RTC_SAFIS leaves no RTC route for its
    -- route target, whatever the other subscriptions to that route target are.
    pub rtc_withdrawal_for_sub-none :
        (st : State x) (sub other : Subscription x)
        → has_rtc x rtc_safis rtc_nlri sub.matching.safi ≡ true
        → other.matching.route_target ≡ sub.matching.route_target
        → (handle_all st (rtc_withdrawal_for_sub x rtc_safis rtc_nlri sub)).source_nlri_2_entry
            bgp_manager
            (rtc_nlri other.matching.route_target)
          ≡ none
    unfolding handle_all rtc_withdrawal_for_sub rtc_for_sub enqueue_event init_event
        subscription_2_rtc_route_entry init on_event receive_route_event receive_as receive_withdraw
    rtc_withdrawal_for_sub-none st sub other h same = rw (h, same) (withdraw_entry-none st _ _ refl)

    -- The advertisement for a subscription whose SAFI is one of RTC_SAFIS leaves an RTC route for its
    -- route target.
    pub rtc_advertisement_for_sub-some :
        (st : State x) (sub : Subscription x)
        → has_rtc x rtc_safis rtc_nlri sub.matching.safi ≡ true
        → is_some (
            (handle_all st (rtc_advertisement_for_sub x rtc_safis rtc_nlri sub)).source_nlri_2_entry
              bgp_manager
              (rtc_nlri sub.matching.route_target))
          ≡ true
    unfolding handle_all rtc_advertisement_for_sub rtc_for_sub enqueue_event init_event
        subscription_2_rtc_route_entry init on_event receive_route_event receive_as
    rtc_advertisement_for_sub-some st sub h = rw h (receive_advertise-some st _)
