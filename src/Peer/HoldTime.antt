-- ===== src/Peer/HoldTime.antt =====
-- The times of keep-alives, and a timer that a new connection leaves.
use networking_bagpipe_l.Common.{
  ℕ, ℕ_discrete, suc, ◌+◌, ◌*◌, ◌/◌, ◌<◌, ◌≤◌, ◌≡◌, ◌≢◌, refl, true, some, List, ltb, arith, subst,
  ap, ◌∙◌, Bool-cases, inl, inr, eqb_self,
}
use networking_bagpipe_l.Common.Dicts.{get, put, get-put}
use networking_bagpipe_l.Common.Outcome.{
  Outcome, ok, raise, state_of, ensure, Ends, ended, raised, Ends-after, ends_ok,
}
use networking_bagpipe_l.Engine.{Exabgp, Source}
use networking_bagpipe_l.Peer.Base.{
  connect, established, attribute_error, Alarm, expires, sends_keep_alive, Error, Families, State,
  set_state,
}
use networking_bagpipe_l.Peer.Worker.{
  set_hold_time, init_send_keep_alive_timer, init_keep_alive_reception_timer,
}
use networking_bagpipe_l.Peer.Session.{
  Connection, initiate, connect_session, connected, start_session, create_peer, establish, end_of,
  finish_initiation, negotiate,
}
use networking_bagpipe_l.Peer.Watch.{set_state_lem}
use networking_bagpipe_l.Peer.Kept.{Kept, Kept-trans, set_state-Kept, initiate-Keeps}
use networking_bagpipe_l.Peer.Events.{to_established_lem}

module _ (x : Exabgp) where
  -- the times that a hold time gives
  record HasTimes (holdtime : ℕ) (st : State x) : Type 0 where
    accepted : 30 < holdtime
    period : st.kat_period ≡ holdtime / 3
    expiry : st.kat_expiry_time ≡ holdtime / 3 * 3

  above : (n : ℕ) → ltb 30 n ≡ true → 30 < n
  above n h = ground (arith, h)

  set_hold_time-Ends :
      (holdtime : ℕ) (st : State x)
      → Ends (λ _ st'. HasTimes holdtime st') (set_hold_time x holdtime st)
  unfolding set_hold_time
  set_hold_time-Ends holdtime st = elim (Bool-cases (ltb 30 holdtime)) [
    | inl h ↦
        rw (h, set_hold_time)
          (ended _ _ (record { accepted = above holdtime h; period = refl; expiry = refl }))
    | inr h ↦ rw (h, set_hold_time) (raised _ _)
  ]

  Ends-any : {A : Type 0} (o : Outcome Error (State x) A) → Ends (λ _ _. Unit {0}) o
  Ends-any (ok a st) = ended a st tt
  Ends-any (raise e st) = raised e st

  initiate-Ends :
      (f : Families) (c : Connection) (st : State x)
      → Ends (λ _ st'. HasTimes c.holdtime st') (initiate x f c st)
  unfolding initiate finish_initiation negotiate
  initiate-Ends f c st =
      let st₁ = create_peer x st in
      Ends-after (establish x c.actions st₁) _ (Ends-any _) (λ _ st₂ _.
        Ends-after (end_of x c.end st₂) _ (Ends-any _) (λ _ st₃ _.
          Ends-after (ensure st₃.has_peer attribute_error st₃) _ (Ends-any _) (λ _ st₄ _.
            Ends-after (set_hold_time x c.holdtime st₄) _ (set_hold_time-Ends c.holdtime st₄)
              (λ _ st₅ h.
                ended tt _
                  (record { accepted = h.accepted; period = h.period; expiry = h.expiry })))))

  ends_with :
      {P : State x → Type 0} {o : Outcome Error (State x) (Unit {0})} {st : State x}
      → Ends (λ _ st'. P st') o
      → o ≡ ok tt st
      → P st
  ends_with {P = P} h e = ends_ok (subst (Ends (λ _ st'. P st')) e h)

  module _ (me : Source) (f : Families) where
    kept_timer :
        (i t : ℕ) (st : State x)
        → get ℕ_discrete i st.alarms ≡ some (expires t)
        → i < st.next_timer
        → (get ℕ_discrete i (connected x me f st).alarms ≡ some (expires t))
          × ((connected x me f st).ka_reception_timer ≢ some i)
    unfolding connected start_session init_keep_alive_reception_timer init_send_keep_alive_timer
    kept_timer i t st h k =
        rw (to_established_lem x me f _, set_state_lem x established _)
          (
            ground (
              arith,
              h,
              k,
              get-put ℕ_discrete i (suc st.next_timer) (expires st.kat_expiry_time)
                  (put ℕ_discrete st.next_timer (sends_keep_alive st.kat_period) st.alarms),
              get-put ℕ_discrete i st.next_timer (sends_keep_alive st.kat_period) st.alarms,
            ),
            λ e. ground (arith, e, k),
          )

    -- A new connection does not cancel a timer for the keep-alives of the peer that runs. The timer
    -- is then no longer the one of the worker, which keep-alives and the end of the session cancel.
    pub connect_session-stale :
        (c : Connection) (i t : ℕ) (st st' : State x)
        → initiate x f c (set_state x connect st) ≡ ok tt st'
        → get ℕ_discrete i st.alarms ≡ some (expires t)
        → i < st.next_timer
        → (get ℕ_discrete i (connect_session x me f c st).alarms ≡ some (expires t))
          × ((connect_session x me f c st).ka_reception_timer ≢ some i)
    unfolding connect_session
    connect_session-stale c i t st st' made h k =
        let u = set_state x connect st in
        let kept : Kept x st st' = Kept-trans x (set_state-Kept x connect st) (
          subst (λ (o : Outcome Error (State x) (Unit {0})). Kept x u (state_of o)) made
            (initiate-Keeps x f c u).kept) in
        rw made (
          kept_timer i t st' (ap (λ (l : List (ℕ × Alarm)). get ℕ_discrete i l) kept.running ∙ h)
            (ground (arith, k, kept.next)))

    -- the timers of a session
    pub record IsTimed (holdtime : ℕ) (st : State x) : Type 0 where
      sending : ℕ
      receiving : ℕ
      period : ℕ
      expiry : ℕ
      sender : st.send_ka_timer ≡ some sending
      sends : get ℕ_discrete sending st.alarms ≡ some (sends_keep_alive period)
      receiver : st.ka_reception_timer ≡ some receiving
      expiring : get ℕ_discrete receiving st.alarms ≡ some (expires expiry)
      rare : 10 ≤ period
      thrice : expiry ≡ 3 * period
      in_time : expiry ≤ holdtime
      not_early : holdtime ≤ expiry + 2

    connected-IsTimed :
        (holdtime : ℕ) (st : State x)
        → HasTimes holdtime st
        → IsTimed holdtime (connected x me f st)
    unfolding connected start_session init_keep_alive_reception_timer init_send_keep_alive_timer
    connected-IsTimed holdtime st h =
        rw (to_established_lem x me f _, set_state_lem x established _)
          (record {
            sending = st.next_timer;
            receiving = suc st.next_timer;
            period = st.kat_period;
            expiry = st.kat_expiry_time;
            sender = refl;
            sends = ground (
              arith,
              get-put ℕ_discrete st.next_timer (suc st.next_timer) (expires st.kat_expiry_time)
                  (put ℕ_discrete st.next_timer (sends_keep_alive st.kat_period) st.alarms),
              get-put ℕ_discrete st.next_timer st.next_timer (sends_keep_alive st.kat_period)
                  st.alarms,
              eqb_self ℕ_discrete st.next_timer,
            );
            receiver = refl;
            expiring = ground (
              arith,
              get-put ℕ_discrete (suc st.next_timer) (suc st.next_timer)
                  (expires st.kat_expiry_time)
                  (put ℕ_discrete st.next_timer (sends_keep_alive st.kat_period) st.alarms),
              eqb_self ℕ_discrete (suc st.next_timer),
            );
            rare = omega (arith, h.accepted, h.period);
            thrice = omega (arith, h.period, h.expiry);
            in_time = omega (arith, h.expiry);
            not_early = omega (arith, h.expiry);
          })

    -- A connection that is made starts two timers. The one for sending a keep-alive has a time of 10
    -- seconds or more, the one for the keep-alives of the peer has three times this time, which is
    -- the hold time or at most 2 seconds less.
    pub connect_session-IsTimed :
        (c : Connection) (st st' : State x)
        → initiate x f c (set_state x connect st) ≡ ok tt st'
        → IsTimed c.holdtime (connect_session x me f c st)
    unfolding connect_session
    connect_session-IsTimed c st st' made = rw made (
        connected-IsTimed c.holdtime st'
          (ends_with (initiate-Ends f c (set_state x connect st)) made))
