-- ===== src/Peer/Phases.antt =====
-- What the worker does is the same in each phase of its thread, which the steps alone read.
use networking_bagpipe_l.Common.{
  ℕ, ◌≡◌, refl, Bool, true, false, Option, none, List, [], ◌∷◌, if◌then◌else◌, Bool-cases, inl, inr,
  sym, ap, ltb, eqb, ◌∙◌,
}
use networking_bagpipe_l.Common.Outcome.{Outcome, ok, raise, state_of}
use networking_bagpipe_l.Engine.{Exabgp, Source}
use networking_bagpipe_l.Peer.Base.{
  FsmState, active, established, fsm_discrete, Action, Phase, resting, Error, stopped,
  initiate_connection, open_wait_timeout, assertion, attribute_error, other, Families, State,
  set_state,
}
use networking_bagpipe_l.Peer.Worker.{subscribe_to, set_hold_time, init_connect_timer}
use networking_bagpipe_l.Peer.Session.{
  End, exhausted, interrupted, lost_connection, notify, end_of, Connection, track, check_action,
  is_close, negotiate, finish_initiation, to_active, subscribe_all, subscribe_active,
  to_established, fail_connect,
}
use networking_bagpipe_l.Peer.Steps.{resume}
use networking_bagpipe_l.Peer.Kept.{stop_and_clean_lem}

module _ (x : Exabgp) where
  phase-if :
      (p : Phase) (b : Bool) (u v : State x)
      → (if b then record u { phase = p } else record v { phase = p })
        ≡ record (if b then u else v) { phase = p }
  phase-if p true u v = refl
  phase-if p false u v = refl

  set_state-phase :
      (p : Phase) (s : FsmState) (st : State x)
      → set_state x s (record st { phase = p }) ≡ record (set_state x s st) { phase = p }
  unfolding set_state
  set_state-phase p s st = phase-if p (eqb fsm_discrete s st.fsm_state) st _

  module _ (me : Source) (f : Families) where
    to_active-phase :
        (p : Phase) (st : State x)
        → record (to_active x me f (record st { phase = p })) { phase = resting }
          ≡ record (to_active x me f st) { phase = resting }
    unfolding to_active init_connect_timer
    to_active-phase p st =
        rw
          (
            set_state-phase p active st,
            stop_and_clean_lem x me (record (set_state x active st) { phase = p }),
            stop_and_clean_lem x me (set_state x active st),
          )
          refl

    fail_connect-phase :
        (p : Phase) (e : Error) (st : State x)
        → record (fail_connect x me f e (record st { phase = p })) { phase = resting }
          ≡ record (fail_connect x me f e st) { phase = resting }
    unfolding fail_connect
    fail_connect-phase p stopped st = refl
    fail_connect-phase p initiate_connection st = to_active-phase p st
    fail_connect-phase p open_wait_timeout st = to_active-phase p st
    fail_connect-phase p assertion st = to_active-phase p st
    fail_connect-phase p attribute_error st = to_active-phase p st
    fail_connect-phase p other st = to_active-phase p st

    subscribe_all-phase :
        (p : Phase) (l : List (ℕ × ℕ)) (rt : Option x.RouteTarget) (st : State x)
        → subscribe_all x me f l rt (record st { phase = p })
          ≡ record (subscribe_all x me f l rt st) { phase = p }
    unfolding subscribe_all
    subscribe_all-phase p [] rt st = refl
    subscribe_all-phase p ((afi, safi) ∷ l) rt st =
        subscribe_all-phase p l rt (subscribe_to x me afi safi rt st)

    subscribe_active-phase :
        (p : Phase) (b : Bool) (st : State x)
        → subscribe_active x me f b (record st { phase = p })
          ≡ record (subscribe_active x me f b st) { phase = p }
    unfolding subscribe_active
    subscribe_active-phase p true st = refl
    subscribe_active-phase p false st = subscribe_all-phase p st.active_families none st

    pub to_established-phase :
        (p : Phase) (st : State x)
        → to_established x me f (record st { phase = p })
          ≡ record (to_established x me f st) { phase = p }
    unfolding to_established
    to_established-phase p st = rw (set_state-phase p established st) (
        subscribe_active-phase p (set_state x established st).rtc_active
          (set_state x established st))

    module _ (nlri_rt : x.Nlri → Option x.RouteTarget) where
      resume-if :
          (q : Phase) (b : Bool) (o u o' u' : Outcome Error (State x) (Unit {0}))
          → (b ≡ true → resume x me f nlri_rt q o ≡ resume x me f nlri_rt q o')
          → (b ≡ false → resume x me f nlri_rt q u ≡ resume x me f nlri_rt q u')
          → resume x me f nlri_rt q (if b then o else u)
            ≡ resume x me f nlri_rt q (if b then o' else u')
      resume-if q true o u o' u' h k = h refl
      resume-if q false o u o' u' h k = k refl

      pub track-phase :
          (p q : Phase) (s : FsmState) (st : State x)
          → resume x me f nlri_rt q (track x s (record st { phase = p }))
            ≡ resume x me f nlri_rt q (track x s st)
      unfolding track
      track-phase p q s st =
          resume-if q st.has_peer _ _ _ _ (λ h. rw (set_state-phase p s st) refl)
            (λ h. fail_connect-phase p attribute_error st)

      pub check_action-phase :
          (p q : Phase) (a : Action) (st : State x)
          → resume x me f nlri_rt q (check_action x a (record st { phase = p }))
            ≡ resume x me f nlri_rt q (check_action x a st)
      unfolding check_action
      check_action-phase p q a st =
          resume-if q st.should_stop _ _ _ _ (λ h. fail_connect-phase p stopped st)
            (λ h.
              resume-if q (is_close a) _ _ _ _ (λ c. fail_connect-phase p initiate_connection st)
                (λ c. refl))

      no_peer :
          (c : Connection) (st : State x)
          → st.has_peer ≡ false
          → negotiate x f c st ≡ raise attribute_error st
      unfolding negotiate
      no_peer c st h = rw h refl

      short_time :
          (c : Connection) (st : State x)
          → st.has_peer ≡ true
          → ltb 30 c.holdtime ≡ false
          → negotiate x f c st ≡ raise assertion st
      unfolding negotiate set_hold_time
      short_time c st h k = rw (h, k) refl

      negotiated : Connection → State x → State x
      negotiated c st = state_of (negotiate x f c st)

      negotiates :
          (c : Connection) (p : Phase) (st : State x)
          → st.has_peer ≡ true
          → ltb 30 c.holdtime ≡ true
          → negotiate x f c (record st { phase = p })
            ≡ ok tt (record (negotiated c st) { phase = p })
      unfolding negotiate set_hold_time negotiated
      negotiates c p st h k = rw (h, k) refl

      negotiate-phase :
          (p q : Phase) (c : Connection) (st : State x)
          → resume x me f nlri_rt q (negotiate x f c (record st { phase = p }))
            ≡ resume x me f nlri_rt q (negotiate x f c st)
      negotiate-phase p q c st =
          let at = λ (o : Outcome Error (State x) (Unit {0})). resume x me f nlri_rt q o in
          elim (Bool-cases st.has_peer) [
            | inr h ↦
                ap at (no_peer c (record st { phase = p }) h)
                ∙ fail_connect-phase p attribute_error st
                ∙ sym (ap at (no_peer c st h))
            | inl h ↦ elim (Bool-cases (ltb 30 c.holdtime)) [
              | inr k ↦
                  ap at (short_time c (record st { phase = p }) h k)
                  ∙ fail_connect-phase p assertion st
                  ∙ sym (ap at (short_time c st h k))
              | inl k ↦ ap at (negotiates c p st h k) ∙ sym (ap at (negotiates c st.phase st h k))
            ]
          ]

      pub finish-phase :
          (p q : Phase) (c : Connection) (st : State x)
          → resume x me f nlri_rt q (finish_initiation x f c (record st { phase = p }))
            ≡ resume x me f nlri_rt q (finish_initiation x f c st)
      unfolding finish_initiation
      finish-phase p q c st = ended c.end
        where
          ended :
              (n : End)
              → resume x me f nlri_rt q (elim (end_of x n (record st { phase = p })) [
                | ok a u ↦ negotiate x f c u
                | raise e u ↦ raise e u
              ])
                ≡ resume x me f nlri_rt q
                    (elim (end_of x n st) [ ok a u ↦ negotiate x f c u | raise e u ↦ raise e u ])
          ended exhausted = negotiate-phase p q c st
          ended interrupted = fail_connect-phase p initiate_connection st
          ended lost_connection = fail_connect-phase p other st
          ended (notify code subcode) = fail_connect-phase p _ st
