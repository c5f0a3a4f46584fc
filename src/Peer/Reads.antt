-- ===== src/Peer/Reads.antt =====
-- What the receive thread leaves alone.
use networking_bagpipe_l.Common.{
  ℕ, ◌≡◌, refl, Bool, true, false, Option, none, some, List, [], ◌∷◌, eqb, if◌then◌else◌, arith,
  ◌∙◌, sym, ap,
}
use networking_bagpipe_l.Common.Outcome.{Outcome, ok, raise, state_of, ensure}
use networking_bagpipe_l.Engine.{Exabgp, Source, RouteEvent, EventType, init, init_event}
use networking_bagpipe_l.Engine
use networking_bagpipe_l.RouteTable.Defs
use networking_bagpipe_l.Peer.Base.{
  FsmState, Phase, established, fsm_discrete, Event, keep_alive_received, other, Error, Families,
  State, enqueue,
}
use networking_bagpipe_l.Peer.Session.{family_discrete, rtc_family}
use networking_bagpipe_l.Peer.Received.{
  Read, receive_loop_fun, after_read, publish, follow_rtc, follow_family, process_received_route,
  process_received_routes, nop, keep_alive, unexpected, failed, broken, update,
}
use networking_bagpipe_l.Peer.Steps.{receive}
use networking_bagpipe_l.Peer.Watch.{
  ends_soon, heads_stop, heads_stop-append, has_session, IsWatched, ends_soon-append,
}

module _ (x : Exabgp) (me : Source) (f : Families) (nlri_rt : x.Nlri → Option x.RouteTarget) where
  -- what the receive thread leaves alone
  pub record Reads (st st' : State x) : Type 0 where
    pub phase_of : st'.phase ≡ st.phase
    pub peer : st'.has_peer ≡ st.has_peer
    pub state : st'.fsm_state ≡ st.fsm_state
    pub timer : st'.ka_reception_timer ≡ st.ka_reception_timer
    pub running : st'.alarms ≡ st.alarms
    pub next : st'.next_timer ≡ st.next_timer
    pub was : st'.was_stopped ≡ st.was_stopped
    pub should : st'.should_stop ≡ st.should_stop
    pub please : st'.please_stop ≡ st.please_stop
    pub mail : st'.sent ≡ st.sent
    pub threads : st'.receive_threads ≡ st.receive_threads
    pub heads : heads_stop x st.queue ≡ true → heads_stop x st'.queue ≡ true
    later : ends_soon x st.queue ≡ true → ends_soon x st'.queue ≡ true

  abbrev same : (st : State x) → Reads st st
  same st = record {
    phase_of = refl;
    peer = refl;
    state = refl;
    timer = refl;
    running = refl;
    next = refl;
    was = refl;
    should = refl;
    please = refl;
    mail = refl;
    threads = refl;
    heads = λ h. h;
    later = λ h. h;
  }

  reads_then : {a b c : State x} → Reads a b → Reads b c → Reads a c
  reads_then p q = record {
    phase_of = q.phase_of ∙ p.phase_of;
    peer = q.peer ∙ p.peer;
    state = q.state ∙ p.state;
    timer = q.timer ∙ p.timer;
    running = q.running ∙ p.running;
    next = q.next ∙ p.next;
    was = q.was ∙ p.was;
    should = q.should ∙ p.should;
    please = q.please ∙ p.please;
    mail = q.mail ∙ p.mail;
    threads = q.threads ∙ p.threads;
    heads = λ h. q.heads (p.heads h);
    later = λ h. q.later (p.later h);
  }

  reads_after :
      {A B : Type 0} (st : State x) (o : Outcome Error (State x) A)
      (g : A → State x → Outcome Error (State x) B)
      → Reads st (state_of o)
      → ((a : A) (st' : State x) → Reads st' (state_of (g a st')))
      → Reads st (state_of (elim o [ ok a st' ↦ g a st' | raise e st' ↦ raise e st' ]))
  reads_after st (ok a st') g k h = reads_then k (h a st')
  reads_after st (raise e st') g k h = k

  mailed : (q : List (Defs.Event x)) (st : State x) → Reads st (record st { rtm_queue = q })
  mailed q st = record {
    phase_of = refl;
    peer = refl;
    state = refl;
    timer = refl;
    running = refl;
    next = refl;
    was = refl;
    should = refl;
    please = refl;
    mail = refl;
    threads = refl;
    heads = λ h. h;
    later = λ h. h;
  }

  queued : (ev : Event x) (st : State x) → Reads st (enqueue x ev st)
  queued ev st = record {
    phase_of = refl;
    peer = refl;
    state = refl;
    timer = refl;
    running = refl;
    next = refl;
    was = refl;
    should = refl;
    please = refl;
    mail = refl;
    threads = refl;
    heads = heads_stop-append x st.queue (ev ∷ []);
    later = λ h. ground (arith, h, ends_soon-append x st.queue (ev ∷ []));
  }

  publish-Reads :
      (o : Option (RouteEvent x)) (st : State x) → Reads st (state_of (publish x me f nlri_rt o st))
  unfolding publish
  publish-Reads none st = same st
  publish-Reads (some ev) st = mailed _ st

  reads_if : (st u v : State x) (b : Bool) → Reads st u → Reads st v → Reads st (if b then u else v)
  reads_if st u v true h k = h
  reads_if st u v false h k = k

  follow_family-Reads :
      (ty : EventType) (afi safi : ℕ) (rt : Option x.RouteTarget) (st : State x)
      → Reads st (follow_family x me f nlri_rt ty afi safi rt st)
  follow_family-Reads Engine.advertise afi safi rt st = mailed _ st
  follow_family-Reads Engine.withdraw afi safi rt st = mailed _ st

  follow_rtc-Reads :
      (ty : EventType) (rt : Option x.RouteTarget) (l : List (ℕ × ℕ)) (st : State x)
      → Reads st (follow_rtc x me f nlri_rt ty rt l st)
  unfolding follow_rtc
  follow_rtc-Reads ty rt [] st = same st
  follow_rtc-Reads ty rt ((afi, safi) ∷ l) st =
      reads_if st _ _ (eqb family_discrete (afi, safi) (rtc_family f)) (follow_rtc-Reads ty rt l st)
        (reads_then (follow_family-Reads ty afi safi rt st)
          (follow_rtc-Reads ty rt l (follow_family x me f nlri_rt ty afi safi rt st)))

  route-Reads :
      (ty : EventType) (nlri : x.Nlri) (attributes : x.Attributes) (st : State x)
      → Reads st (state_of (process_received_route x me f nlri_rt ty nlri attributes st))
  unfolding process_received_route
  route-Reads ty nlri attributes st =
      reads_after st
        (publish x me f nlri_rt
          (init_event x ty (init x nlri none (some attributes) none) (some me)) st)
        _ (publish-Reads _ st)
        (λ _ st'.
          reads_if st' _ st'
            (eqb family_discrete (x.nlri_afi nlri, x.nlri_safi nlri) (rtc_family f))
            (follow_rtc-Reads ty (nlri_rt nlri) st'.active_families st') (same st'))

  routes-Reads :
      (l : List (EventType × x.Nlri)) (attributes : x.Attributes) (st : State x)
      → Reads st (state_of (process_received_routes x me f nlri_rt l attributes st))
  unfolding process_received_routes
  routes-Reads [] attributes st = same st
  routes-Reads ((ty, nlri) ∷ l) attributes st =
      reads_after st (process_received_route x me f nlri_rt ty nlri attributes st) _
        (route-Reads ty nlri attributes st) (λ _ st'. routes-Reads l attributes st')

  ensured : (b : Bool) (st : State x) → Reads st (state_of (ensure b other st))
  ensured true st = same st
  ensured false st = same st

  loop_fun-Reads :
      (r : Read x) (st : State x) → Reads st (state_of (receive_loop_fun x me f nlri_rt r st))
  unfolding receive_loop_fun
  loop_fun-Reads nop st = same st
  loop_fun-Reads keep_alive st = queued keep_alive_received st
  loop_fun-Reads unexpected st = same st
  loop_fun-Reads failed st = same st
  loop_fun-Reads broken st = same st
  loop_fun-Reads (update l attributes) st =
      reads_after st (ensure (eqb fsm_discrete st.fsm_state established) other st) _ (ensured _ st)
        (λ _ st'.
          reads_after st' (process_received_routes x me f nlri_rt l attributes st') _
            (routes-Reads l attributes st') (λ _ st''. same st''))

  after_read-Reads :
      (st : State x) (o : Outcome Error (State x) Bool)
      → Reads st (state_of o)
      → Reads st (after_read x me f nlri_rt o).0
  after_read-Reads st (ok true st') k = k
  after_read-Reads st (ok false st') k = reads_then k (queued _ st')
  after_read-Reads st (raise e st') k = reads_then k (queued _ st')

  pub receive-Reads : (r : Read x) (st : State x) → Reads st (receive x me f nlri_rt r st)
  receive-Reads r st =
      reads_if st st _ st.stop_loops (same st)
        (after_read-Reads st (receive_loop_fun x me f nlri_rt r st) (loop_fun-Reads r st))

  pub reads-IsWatched : (st st' : State x) → Reads st st' → IsWatched x st → IsWatched x st'
  reads-IsWatched st st' k w = record {
    watched = λ a up. ground (
      arith,
      w.watched (sym k.was ∙ a) (
          ap (λ (p : Phase). has_session x p st.fsm_state) (sym k.phase_of)
          ∙ ap (λ (s : FsmState). has_session x st'.phase s) (sym k.state)
          ∙ up),
      k.timer,
      k.running,
      k.later,
    );
    fresh = λ i h. ground (arith, h, k.timer, k.next, w.fresh i);
    told = λ h. k.was ∙ w.told (sym k.should ∙ h);
    ended = λ h. k.please ∙ w.ended (sym k.was ∙ h);
  }
