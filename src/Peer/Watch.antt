-- ===== src/Peer/Watch.antt =====
-- The invariant of the timers of a session.
use networking_bagpipe_l.Common.{
  ℕ, ℕ_discrete, ◌<◌, ◌≡◌, refl, Bool, true, false, ◌||◌, Option, none, some, List, [], ◌∷◌, ◌++◌,
  eqb, if◌then◌else◌, Bool-cases, inl, inr, ap, sym, eqb-path, arith,
}
use networking_bagpipe_l.Common.Dicts.{get}
use networking_bagpipe_l.Engine.{Exabgp}
use networking_bagpipe_l.Peer.Base.{
  FsmState, established, Phase, resting, waiting, timed, fsm_discrete, Event, connect_now,
  send_keep_alive, keep_alive_received, stop_event, to_idle, route_event, Alarm, expires, State,
  set_state,
}

module _ (x : Exabgp) where
  -- an event that ends the session is in the queue
  unfoldable pub ends_soon : List (Event x) → Bool
  ends_soon [] = false
  ends_soon (to_idle _ ∷ l) = true
  ends_soon (_ ∷ l) = ends_soon l

  abbrev pub is_expires : Option Alarm → Bool
  is_expires (some (expires _)) = true
  is_expires _ = false

  -- the timer runs
  unfoldable pub runs : Option ℕ → List (ℕ × Alarm) → Bool
  runs none l = false
  runs (some i) l = is_expires (get ℕ_discrete i l)

  abbrev pub watches : State x → Bool
  watches st = runs st.ka_reception_timer st.alarms || ends_soon st.queue

  -- the parts of the worker's thread in which there is a session
  unfoldable pub has_session : Phase → FsmState → Bool
  has_session resting s = eqb fsm_discrete s established
  has_session waiting s = eqb fsm_discrete s established
  has_session timed s = true
  has_session _ s = false

  -- A worker that was not stopped, and has a session, has a timer that runs for the keep-alives of
  -- the peer, or an event in the queue that ends the session. One that was told to stop was stopped,
  -- and one that was stopped takes no further event after the one that it may wait for.
  pub record IsWatched (st : State x) : Type 0 where
    pub watched :
        st.was_stopped ≡ false → has_session st.phase st.fsm_state ≡ true → watches st ≡ true
    pub fresh : (i : ℕ) → st.ka_reception_timer ≡ some i → i < st.next_timer
    pub told : st.should_stop ≡ true → st.was_stopped ≡ true
    pub ended : st.was_stopped ≡ true → st.please_stop ≡ true

  pub ends_soon-append : (l m : List (Event x)) → ends_soon (l ++ m) ≡ (ends_soon l || ends_soon m)
  unfolding ends_soon
  ends_soon-append [] m = refl
  ends_soon-append (to_idle d ∷ l) m = refl
  ends_soon-append (connect_now ∷ l) m = ends_soon-append l m
  ends_soon-append (send_keep_alive ∷ l) m = ends_soon-append l m
  ends_soon-append (keep_alive_received ∷ l) m = ends_soon-append l m
  ends_soon-append (stop_event ∷ l) m = ends_soon-append l m
  ends_soon-append (route_event ev ∷ l) m = ends_soon-append l m

  pub set_state_lem :
      (s : FsmState) (st : State x)
      → set_state x s st ≡ record st {
        fsm_state = s;
        prev_state = if eqb fsm_discrete s st.fsm_state then st.prev_state else some st.fsm_state;
      }
  unfolding set_state
  set_state_lem s st = elim (Bool-cases (eqb fsm_discrete s st.fsm_state)) [
    | inl h ↦ rw h (
        ap (λ (u : FsmState). record st { fsm_state = u })
          (sym (eqb-path fsm_discrete s st.fsm_state h)))
    | inr h ↦ rw h refl
  ]

  -- the next event is the one of `stop`
  unfoldable pub heads_stop : List (Event x) → Bool
  heads_stop (stop_event ∷ l) = true
  heads_stop _ = false

  pub heads_stop-append : (l m : List (Event x)) → heads_stop l ≡ true → heads_stop (l ++ m) ≡ true
  unfolding heads_stop
  heads_stop-append [] m h = ground (arith, h)
  heads_stop-append (stop_event ∷ l) m h = refl
  heads_stop-append (to_idle d ∷ l) m h = ground (arith, h)
  heads_stop-append (connect_now ∷ l) m h = ground (arith, h)
  heads_stop-append (send_keep_alive ∷ l) m h = ground (arith, h)
  heads_stop-append (keep_alive_received ∷ l) m h = ground (arith, h)
  heads_stop-append (route_event ev ∷ l) m h = ground (arith, h)
