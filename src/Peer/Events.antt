-- ===== src/Peer/Events.antt =====
-- Each step of `_connect` keeps the invariant of the timers.
use networking_bagpipe_l.Common.{
  ℕ, ℕ_discrete, suc, ◌≡◌, refl, Bool, true, false, Option, none, List, [], ◌∷◌, eqb_self, arith,
  ap, ◌∙◌,
}
use networking_bagpipe_l.Common.Dicts.{put, get-put}
use networking_bagpipe_l.Common.Outcome.{Outcome, ok, raise, state_of}
use networking_bagpipe_l.Engine.{Exabgp, Source}
use networking_bagpipe_l.Peer.Base.{
  connect, active, established, Event, stopped, initiate_connection, open_wait_timeout, assertion,
  attribute_error, other, sends_keep_alive, expires, Error, Families, State, set_state, Phase,
  resting, connecting, timed,
}
use networking_bagpipe_l.Peer.Worker.{
  subscribe_to, init_send_keep_alive_timer, init_keep_alive_reception_timer, init_connect_timer,
}
use networking_bagpipe_l.Peer.Session.{
  start_session, to_active, to_established, subscribe_all, subscribe_active, fail_connect,
}
use networking_bagpipe_l.Peer.Steps.{in_phase, resume, dequeued, begin_connect}
use networking_bagpipe_l.Peer.Watch.{runs, has_session, IsWatched, set_state_lem}
use networking_bagpipe_l.Peer.Kept.{
  Kept, Keeps, Kept-trans, set_state-Kept, create_peer-Kept, stop_and_clean_lem, Goes-IsWatched,
  Kept-Goes, is_stop,
}

module _ (x : Exabgp) where
  module _ (me : Source) (f : Families) where
    Kept-phase :
        (p : Phase) (st st' : State x) → Kept x st st' → Kept x st (record st' { phase = p })
    Kept-phase p st st' k = record {
      should = k.should;
      was = k.was;
      please = k.please;
      timer = k.timer;
      running = k.running;
      next = k.next;
      mail = k.mail;
      threads = k.threads;
    }

    to_active-IsWatched :
        (st st' : State x)
        → Kept x st st'
        → IsWatched x st
        → IsWatched x (record (to_active x me f st') { phase = resting })
    unfolding to_active init_connect_timer has_session
    to_active-IsWatched st st' k w =
        rw (set_state_lem x active st', stop_and_clean_lem x me _)
          (Goes-IsWatched x st _
            (record {
              should = k.should;
              was = k.was;
              please = λ h. k.please ∙ h;
              timer = λ i h. ground (arith, h, k.timer, k.next, w.fresh i);
            })
            w (λ a h. ground (arith, h)))

    fail_connect-IsWatched :
        (e : Error) (st st' : State x)
        → Kept x st st'
        → (st.should_stop ≡ false → is_stop x e ≡ false)
        → IsWatched x st
        → IsWatched x (record (fail_connect x me f e st') { phase = resting })
    unfolding fail_connect
    fail_connect-IsWatched stopped st st' k h w =
        Goes-IsWatched x st _ (Kept-Goes x st _ (Kept-phase resting st st' k) w.fresh) w
          (λ a r. ground (arith, a, k.was, h, w.told))
    fail_connect-IsWatched initiate_connection st st' k h w = to_active-IsWatched st st' k w
    fail_connect-IsWatched open_wait_timeout st st' k h w = to_active-IsWatched st st' k w
    fail_connect-IsWatched assertion st st' k h w = to_active-IsWatched st st' k w
    fail_connect-IsWatched attribute_error st st' k h w = to_active-IsWatched st st' k w
    fail_connect-IsWatched other st st' k h w = to_active-IsWatched st st' k w

    pub quiet-IsWatched :
        (p : Phase) (st st' : State x)
        → Kept x st st'
        → has_session x p st'.fsm_state ≡ false
        → IsWatched x st
        → IsWatched x (record st' { phase = p })
    quiet-IsWatched p st st' k n w =
        Goes-IsWatched x st _ (Kept-Goes x st _ (Kept-phase p st st' k) w.fresh) w
          (λ a r. ground (arith, r, n))

    pub resume-IsWatched :
        (p : Phase) (nlri_rt : x.Nlri → Option x.RouteTarget) (st : State x)
        (o : Outcome Error (State x) (Unit {0}))
        → Keeps x st o
        → has_session x p (state_of o).fsm_state ≡ false
        → IsWatched x st
        → IsWatched x (resume x me f nlri_rt p o)
    resume-IsWatched p nlri_rt st (ok _ st') k n w = quiet-IsWatched p st st' k.kept n w
    resume-IsWatched p nlri_rt st (raise e st') k n w =
        fail_connect-IsWatched e st st' k.kept k.goes_on w

    pub begins-IsWatched :
        (l : List (Event x)) (nlri_rt : x.Nlri → Option x.RouteTarget) (st : State x)
        → IsWatched x st
        → IsWatched x (
            in_phase x me f nlri_rt connecting
              (begin_connect x me f nlri_rt (dequeued x me f nlri_rt l st)))
    unfolding has_session
    begins-IsWatched l nlri_rt st w =
        let st₁ : State x = record st { queue = l } in
        let k = Kept-trans x (set_state-Kept x connect st₁) (create_peer-Kept x _) in
        quiet-IsWatched connecting st (begin_connect x me f nlri_rt (dequeued x me f nlri_rt l st))
          (record {
            should = k.should;
            was = k.was;
            please = k.please;
            timer = k.timer;
            running = k.running;
            next = k.next;
            mail = k.mail;
            threads = k.threads;
          })
          refl w

    pub subscribe_all_lem :
        (l : List (ℕ × ℕ)) (rt : Option x.RouteTarget) (st : State x)
        → subscribe_all x me f l rt st
          ≡ record st { rtm_queue = (subscribe_all x me f l rt st).rtm_queue }
    unfolding subscribe_all
    subscribe_all_lem [] rt st = refl
    subscribe_all_lem ((afi, safi) ∷ l) rt st =
        subscribe_all_lem l rt (subscribe_to x me afi safi rt st)

    pub subscribe_active_lem :
        (b : Bool) (st : State x)
        → subscribe_active x me f b st
          ≡ record st { rtm_queue = (subscribe_active x me f b st).rtm_queue }
    unfolding subscribe_active
    subscribe_active_lem true st = refl
    subscribe_active_lem false st = subscribe_all_lem st.active_families none st

    pub to_established_lem :
        (st : State x)
        → to_established x me f st
          ≡ record (set_state x established st) { rtm_queue = (to_established x me f st).rtm_queue }
    unfolding to_established
    to_established_lem st =
        let st' = set_state x established st in subscribe_active_lem st'.rtc_active st'

    pub starts_session-IsWatched :
        (st : State x)
        → IsWatched x st
        → IsWatched x (record (start_session x me f st) { phase = timed })
    unfolding start_session init_keep_alive_reception_timer init_send_keep_alive_timer runs
    starts_session-IsWatched st w =
        Goes-IsWatched x st _
          (record { should = refl; was = refl; please = λ h. h; timer = λ i h. ground (arith, h) })
          w
          (λ a r. ground (
            arith,
            get-put ℕ_discrete (suc st.next_timer) (suc st.next_timer) (expires st.kat_expiry_time)
                (put ℕ_discrete st.next_timer (sends_keep_alive st.kat_period) st.alarms),
            eqb_self ℕ_discrete (suc st.next_timer),
          ))

    pub establishes-IsWatched :
        (st : State x)
        → st.phase ≡ timed
        → IsWatched x st
        → IsWatched x (record (to_established x me f st) { phase = resting })
    unfolding has_session
    establishes-IsWatched st h w =
        rw (to_established_lem st, set_state_lem x established st)
          (Goes-IsWatched x st _
            (record { should = refl; was = refl; please = λ u. u; timer = w.fresh }) w
            (λ a r. w.watched a (ap (λ (p : Phase). has_session x p st.fsm_state) h)))
