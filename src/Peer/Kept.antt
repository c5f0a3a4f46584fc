-- ===== src/Peer/Kept.antt =====
-- What a connection and the end of a session leave alone.
use networking_bagpipe_l.Common.{
  ℕ, ℕ_discrete, ◌<◌, ◌≡◌, refl, Bool, true, false, Option, none, some, List, [], ◌∷◌, ltb,
  if◌then◌else◌, arith, Bool-cases, inl, inr, ◌∙◌,
}
use networking_bagpipe_l.Common.Dicts.{del}
use networking_bagpipe_l.Common.Outcome.{Outcome, ok, raise, state_of, ensure}
use networking_bagpipe_l.Engine.{Exabgp, Source}
use networking_bagpipe_l.Peer.Base.{
  Action, attribute_error, FsmState, stopped, Alarm, Error, Families, State, set_state, cancel,
  cleanup,
}
use networking_bagpipe_l.Peer.Worker.{set_hold_time, stop_and_clean}
use networking_bagpipe_l.Peer.Session.{
  Connection, initiate, establish, track, check_action, negotiate, finish_initiation, create_peer,
  is_close, End, exhausted, interrupted, lost_connection, notify, end_of,
}
use networking_bagpipe_l.Peer.Watch.{watches, has_session, IsWatched, set_state_lem}

module _ (x : Exabgp) where
  -- what a connection leaves alone
  pub record Kept (st st' : State x) : Type 0 where
    pub should : st'.should_stop ≡ st.should_stop
    pub was : st'.was_stopped ≡ st.was_stopped
    pub please : st'.please_stop ≡ st.please_stop
    pub timer : st'.ka_reception_timer ≡ st.ka_reception_timer
    pub running : st'.alarms ≡ st.alarms
    pub next : st'.next_timer ≡ st.next_timer
    pub mail : st'.sent ≡ st.sent
    pub threads : st'.receive_threads ≡ st.receive_threads

  abbrev pub is_stop : Error → Bool
  is_stop stopped = true
  is_stop _ = false

  abbrev pub is_stopped : {A : Type 0} → Outcome Error (State x) A → Bool
  is_stopped (raise e st) = is_stop e
  is_stopped (ok a st) = false

  -- in the end of a method, whatever it is
  pub record Keeps {A : Type 0} (st : State x) (o : Outcome Error (State x) A) : Type 0 where
    pub kept : Kept st (state_of o)
    pub goes_on : st.should_stop ≡ false → is_stopped o ≡ false

  pub set_state-Kept : (s : FsmState) (st : State x) → Kept st (set_state x s st)
  set_state-Kept s st = rw (set_state_lem x s st) (record {
    should = refl;
    was = refl;
    please = refl;
    timer = refl;
    running = refl;
    next = refl;
    mail = refl;
    threads = refl;
  })

  pub Kept-trans : {a b c : State x} → Kept a b → Kept b c → Kept a c
  Kept-trans p q = record {
    should = q.should ∙ p.should;
    was = q.was ∙ p.was;
    please = q.please ∙ p.please;
    timer = q.timer ∙ p.timer;
    running = q.running ∙ p.running;
    next = q.next ∙ p.next;
    mail = q.mail ∙ p.mail;
    threads = q.threads ∙ p.threads;
  }

  pub Keeps-after :
      {A B : Type 0} (st : State x) (o : Outcome Error (State x) A)
      (g : A → State x → Outcome Error (State x) B)
      → Keeps st o
      → ((a : A) (st' : State x) → Keeps st' (g a st'))
      → Keeps st (elim o [ ok a st' ↦ g a st' | raise e st' ↦ raise e st' ])
  Keeps-after st (ok a st') g k h = record {
    kept = Kept-trans k.kept (h a st').kept;
    goes_on = λ q. (h a st').goes_on (k.kept.should ∙ q);
  }
  Keeps-after st (raise e st') g k h = record { kept = k.kept; goes_on = k.goes_on }

  pub Keeps-here : {A : Type 0} (a : A) (st st' : State x) → Kept st st' → Keeps st (ok a st')
  Keeps-here a st st' k = record { kept = k; goes_on = λ q. refl }

  pub Kept-refl : (st : State x) → Kept st st
  Kept-refl st = record {
    should = refl;
    was = refl;
    please = refl;
    timer = refl;
    running = refl;
    next = refl;
    mail = refl;
    threads = refl;
  }

  pub Keeps-if :
      {A : Type 0} (st : State x) (b : Bool) (o u : Outcome Error (State x) A)
      → (b ≡ true → Keeps st o)
      → (b ≡ false → Keeps st u)
      → Keeps st (if b then o else u)
  Keeps-if st true o u h k = h refl
  Keeps-if st false o u h k = k refl

  pub track-Keeps : (s : FsmState) (st : State x) → Keeps st (track x s st)
  unfolding track
  track-Keeps s st =
      Keeps-if st st.has_peer _ _ (λ h. Keeps-here tt st _ (set_state-Kept s st))
        (λ h. record { kept = Kept-refl st; goes_on = λ q. refl })

  pub check_action-Keeps : (a : Action) (st : State x) → Keeps st (check_action x a st)
  unfolding check_action
  check_action-Keeps a st =
      Keeps-if st st.should_stop _ _
        (λ h. record { kept = Kept-refl st; goes_on = λ q. ground (arith, h, q) })
        (λ h.
          Keeps-if st (is_close a) _ _ (λ c. record { kept = Kept-refl st; goes_on = λ q. refl })
            (λ c. Keeps-here tt st st (Kept-refl st)))

  pub establish-Keeps : (l : List (FsmState × Action)) (st : State x) → Keeps st (establish x l st)
  unfolding establish
  establish-Keeps [] st = Keeps-here tt st st (Kept-refl st)
  establish-Keeps ((s, a) ∷ l) st = Keeps-after st (track x s st) _ (track-Keeps s st) (λ _ st₁.
      Keeps-after st₁ (check_action x a st₁) _ (check_action-Keeps a st₁)
        (λ _ st₂. establish-Keeps l st₂))

  pub end_of-Keeps : (e : End) (st : State x) → Keeps st (end_of x e st)
  end_of-Keeps exhausted st = Keeps-here tt st st (Kept-refl st)
  end_of-Keeps interrupted st = record { kept = Kept-refl st; goes_on = λ q. refl }
  end_of-Keeps lost_connection st = record { kept = Kept-refl st; goes_on = λ q. refl }
  end_of-Keeps (notify code subcode) st = record {
    kept = Kept-refl st;
    goes_on = λ q. ground arith;
  }

  pub Keeps-from :
      {A : Type 0} {o : Outcome Error (State x) A} (st st' : State x)
      → Kept st st'
      → Keeps st' o
      → Keeps st o
  Keeps-from st st' k h = record {
    kept = Kept-trans k h.kept;
    goes_on = λ q. h.goes_on (k.should ∙ q);
  }

  pub set_hold_time-Keeps : (holdtime : ℕ) (st : State x) → Keeps st (set_hold_time x holdtime st)
  unfolding set_hold_time
  set_hold_time-Keeps holdtime st = elim (Bool-cases (ltb 30 holdtime)) [
    | inl h ↦
        rw (h, set_hold_time)
          (Keeps-here tt st _ (record {
            should = refl;
            was = refl;
            please = refl;
            timer = refl;
            running = refl;
            next = refl;
            mail = refl;
            threads = refl;
          }))
    | inr h ↦ rw (h, set_hold_time) (record { kept = Kept-refl st; goes_on = λ q. refl })
  ]

  ensured-Keeps : (b : Bool) (st : State x) → Keeps st (ensure b attribute_error st)
  ensured-Keeps true st = Keeps-here tt st st (Kept-refl st)
  ensured-Keeps false st = record { kept = Kept-refl st; goes_on = λ q. refl }

  negotiate-Keeps : (f : Families) (c : Connection) (st : State x) → Keeps st (negotiate x f c st)
  unfolding negotiate
  negotiate-Keeps f c st =
      Keeps-after st (ensure st.has_peer attribute_error st) _ (ensured-Keeps st.has_peer st)
        (λ _ st₁.
          Keeps-after st₁ (set_hold_time x c.holdtime st₁) _ (set_hold_time-Keeps c.holdtime st₁)
            (λ _ st₂. Keeps-here tt st₂ _ (record {
              should = refl;
              was = refl;
              please = refl;
              timer = refl;
              running = refl;
              next = refl;
              mail = refl;
              threads = refl;
            })))

  pub finish_initiation-Keeps :
      (f : Families) (c : Connection) (st : State x) → Keeps st (finish_initiation x f c st)
  unfolding finish_initiation
  finish_initiation-Keeps f c st =
      Keeps-after st (end_of x c.end st) _ (end_of-Keeps c.end st)
        (λ _ st₁. negotiate-Keeps f c st₁)

  pub create_peer-Kept : (st : State x) → Kept st (create_peer x st)
  unfolding create_peer
  create_peer-Kept st = record {
    should = refl;
    was = refl;
    please = refl;
    timer = refl;
    running = refl;
    next = refl;
    mail = refl;
    threads = refl;
  }

  pub initiate-Keeps : (f : Families) (c : Connection) (st : State x) → Keeps st (initiate x f c st)
  unfolding initiate
  initiate-Keeps f c st =
      let st₁ = create_peer x st in
      Keeps-from st st₁ (create_peer-Kept st) (
        Keeps-after st₁ (establish x c.actions st₁) _ (establish-Keeps c.actions st₁)
          (λ _ st₂. finish_initiation-Keeps f c st₂))

  abbrev pub cancelled : Option ℕ → List (ℕ × Alarm) → List (ℕ × Alarm)
  cancelled none l = l
  cancelled (some i) l = del ℕ_discrete i l

  pub cancel_lem :
      (o : Option ℕ) (st : State x) → cancel x o st ≡ record st { alarms = cancelled o st.alarms }
  unfolding cancel
  cancel_lem none st = refl
  cancel_lem (some i) st = refl

  -- the end of a session leaves the state that it was told
  pub stop_and_clean_lem :
      (me : Source) (st : State x)
      → stop_and_clean x me st ≡ record (cleanup x me st) {
        stop_loops = true;
        alarms = cancelled st.ka_reception_timer (cancelled st.send_ka_timer st.alarms);
        active_families = [];
        has_peer = false;
      }
  unfolding stop_and_clean
  stop_and_clean_lem me st =
      rw
        (
          cancel_lem st.send_ka_timer (record st { stop_loops = true }),
          cancel_lem st.ka_reception_timer
              (record st { stop_loops = true; alarms = cancelled st.send_ka_timer st.alarms }),
        )
        refl

  -- what an operation of the worker's thread leaves alone, and what it may add
  pub record Goes (st st' : State x) : Type 0 where
    pub should : st'.should_stop ≡ st.should_stop
    pub was : st'.was_stopped ≡ st.was_stopped
    pub please : st.please_stop ≡ true → st'.please_stop ≡ true
    pub timer : (i : ℕ) → st'.ka_reception_timer ≡ some i → i < st'.next_timer

  pub Goes-IsWatched :
      (st st' : State x)
      → Goes st st'
      → IsWatched x st
      → (st'.was_stopped ≡ false
          → has_session x st'.phase st'.fsm_state ≡ true
          → watches x st' ≡ true)
      → IsWatched x st'
  Goes-IsWatched st st' k w h = record {
    watched = h;
    fresh = k.timer;
    told = λ u. ground (arith, u, k.should, k.was, w.told);
    ended = λ u. ground (arith, u, k.was, k.please, w.ended);
  }

  pub Kept-Goes :
      (st st' : State x)
      → Kept st st'
      → ((i : ℕ) → st.ka_reception_timer ≡ some i → i < st.next_timer)
      → Goes st st'
  Kept-Goes st st' k fresh = record {
    should = k.should;
    was = k.was;
    please = λ h. k.please ∙ h;
    timer = λ i h. ground (arith, h, k.timer, k.next, fresh i);
  }
