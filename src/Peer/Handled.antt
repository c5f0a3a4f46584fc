-- ===== src/Peer/Handled.antt =====
-- Each event that the worker handles in one step keeps the invariant of the timers.
use networking_bagpipe_l.Common.{
  ℕ, ℕ_discrete, ◌≡◌, refl, Bool, true, false, ◌||◌, Option, List, ◌∷◌, eqb, eqb_self, ◌==◌, arith,
  Bool-cases, Option-cases, inl, inr, ap, sym, ◌∙◌,
}
use networking_bagpipe_l.Common.Dicts.{del, get-put}
use networking_bagpipe_l.Common.Outcome.{state_of}
use networking_bagpipe_l.Engine.{Exabgp, Source, RouteEvent}
use networking_bagpipe_l.Peer.Base.{
  idle, established, fsm_discrete, Event, connect_now, send_keep_alive, keep_alive_received,
  stop_event, to_idle, route_event, expires, Families, State, cancel, Phase, resting, waiting,
}
use networking_bagpipe_l.Peer.Worker.{
  init_keep_alive_reception_timer, init_connect_timer, on_keep_alive_received,
}
use networking_bagpipe_l.Peer.Session.{send_update, Connection, handle, on_event, to_idle_state}
use networking_bagpipe_l.Peer.Steps.{is_connect}
use networking_bagpipe_l.Peer.Watch.{ends_soon, runs, has_session, IsWatched, set_state_lem}
use networking_bagpipe_l.Peer.Kept.{Kept, stop_and_clean_lem, Goes-IsWatched}

module _ (x : Exabgp) where
  module _ (me : Source) (f : Families) where
    to_idle-IsWatched :
        (delay : ℕ) (st st' : State x)
        → Kept x st st'
        → IsWatched x st
        → IsWatched x (record (to_idle_state x me f delay st') { phase = resting })
    unfolding to_idle_state init_connect_timer has_session
    to_idle-IsWatched delay st st' k w = elim (Bool-cases (delay == 0)) [
      | inl z ↦
          rw (z, set_state_lem x idle st', stop_and_clean_lem x me _)
            (Goes-IsWatched x st _
              (record {
                should = k.should;
                was = k.was;
                please = λ h. k.please ∙ h;
                timer = λ i h. ground (arith, h, k.timer, k.next, w.fresh i);
              })
              w (λ a h. ground (arith, h)))
      | inr z ↦
          rw (z, set_state_lem x idle st', stop_and_clean_lem x me _)
            (Goes-IsWatched x st _
              (record {
                should = k.should;
                was = k.was;
                please = λ h. k.please ∙ h;
                timer = λ i h. ground (arith, h, k.timer, k.next, w.fresh i);
              })
              w (λ a h. ground (arith, h)))
    ]

    -- the session that there is when the worker takes an event that does not end it
    unended :
        (st : State x) (ev : Event x) (l : List (Event x))
        → IsWatched x st
        → st.phase ≡ waiting
        → st.queue ≡ ev ∷ l
        → ends_soon x (ev ∷ l) ≡ ends_soon x l
        → st.was_stopped ≡ false
        → has_session x resting st.fsm_state ≡ true
        → (runs x st.ka_reception_timer st.alarms || ends_soon x l) ≡ true
    unfolding has_session
    unended st ev l w p q h a r =
        ap (λ (b : Bool). runs x st.ka_reception_timer st.alarms || b)
          (sym (ap (λ (m : List (Event x)). ends_soon x m) q ∙ h))
        ∙ w.watched a (ap (λ (u : Phase). has_session x u st.fsm_state) p ∙ r)

    same_queue-Kept : (l : List (Event x)) (st : State x) → Kept x st (record st { queue = l })
    same_queue-Kept l st = record {
      should = refl;
      was = refl;
      please = refl;
      timer = refl;
      running = refl;
      next = refl;
      mail = refl;
      threads = refl;
    }

    received-IsWatched :
        (l : List (Event x)) (st : State x)
        → IsWatched x st
        → (st.was_stopped ≡ false
            → has_session x resting st.fsm_state ≡ true
            → (runs x st.ka_reception_timer st.alarms || ends_soon x l) ≡ true)
        → IsWatched x (record (state_of (on_keep_alive_received x (record st { queue = l }))) {
          phase = resting;
        })
    unfolding on_keep_alive_received init_keep_alive_reception_timer cancel runs
    received-IsWatched l st w h = elim (Option-cases st.ka_reception_timer) [
      | inl n ↦
          rw (n, on_keep_alive_received)
            (Goes-IsWatched x st _
              (record { should = refl; was = refl; please = λ u. u; timer = w.fresh }) w h)
      | inr (i, e) ↦
          rw (e, on_keep_alive_received)
            (Goes-IsWatched x st _
              (record {
                should = refl;
                was = refl;
                please = λ u. u;
                timer = λ j g. ground (arith, g);
              })
              w
              (λ a r. ground (
                arith,
                get-put ℕ_discrete st.next_timer st.next_timer (expires st.kat_expiry_time)
                    (del ℕ_discrete i st.alarms),
                eqb_self ℕ_discrete st.next_timer,
              )))
    ]

    update-IsWatched :
        (ev : RouteEvent x) (l : List (Event x)) (st : State x)
        → IsWatched x st
        → (st.was_stopped ≡ false
            → has_session x resting st.fsm_state ≡ true
            → (runs x st.ka_reception_timer st.alarms || ends_soon x l) ≡ true)
        → IsWatched x (record (state_of (send_update x me f ev (record st { queue = l }))) {
          phase = resting;
        })
    unfolding send_update
    update-IsWatched ev l st w h = elim (Bool-cases (eqb fsm_discrete st.fsm_state established)) [
      | inl e ↦
          rw (e, send_update)
            (Goes-IsWatched x st _
              (record { should = refl; was = refl; please = λ u. u; timer = w.fresh }) w h)
      | inr e ↦
          rw (e, send_update)
            (Goes-IsWatched x st _
              (record { should = refl; was = refl; please = λ u. u; timer = w.fresh }) w h)
    ]

    pub handle-IsWatched :
        (c : Connection) (ev : Event x) (l : List (Event x)) (st : State x)
        → st.phase ≡ waiting
        → st.queue ≡ ev ∷ l
        → (nlri_rt : x.Nlri → Option x.RouteTarget) → is_connect x me f nlri_rt ev ≡ false
        → IsWatched x st
        → IsWatched x (record (handle x me f c ev (record st { queue = l })) { phase = resting })
    unfolding handle on_event ends_soon
    handle-IsWatched c connect_now l st p q rt h w = ground (arith, h)
    handle-IsWatched c (to_idle delay) l st p q rt h w =
        to_idle-IsWatched delay st _ (same_queue-Kept l st) w
    handle-IsWatched c keep_alive_received l st p q rt h w =
        received-IsWatched l st w (unended st keep_alive_received l w p q refl)
    handle-IsWatched c send_keep_alive l st p q rt h w =
        Goes-IsWatched x st _
          (record { should = refl; was = refl; please = λ u. u; timer = w.fresh }) w
          (unended st send_keep_alive l w p q refl)
    handle-IsWatched c stop_event l st p q rt h w =
        Goes-IsWatched x st _
          (record { should = refl; was = refl; please = λ u. refl; timer = w.fresh }) w
          (unended st stop_event l w p q refl)
    handle-IsWatched c (route_event ev) l st p q rt h w =
        update-IsWatched ev l st w (unended st (route_event ev) l w p q refl)
