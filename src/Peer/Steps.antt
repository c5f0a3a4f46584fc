-- ===== src/Peer/Steps.antt =====
-- The steps of the worker: the event loop, the ends of timers, the receive thread, and `stop`.
use networking_bagpipe_l.Common.{
  ℕ, ℕ_discrete, ◌≡◌, Bool, true, false, Option, none, some, List, [], ◌∷◌, ◌/◌, ◌*◌, if◌then◌else◌,
}
use networking_bagpipe_l.Common.Dicts.{get, del}
use networking_bagpipe_l.Common.Outcome.{Outcome, ok, raise}
use networking_bagpipe_l.Engine.{Exabgp, Source}
use networking_bagpipe_l.Peer.Base.{
  idle, connect, FsmState, Event, connect_now, send_keep_alive, to_idle, Alarm, connects,
  sends_keep_alive, expires, Families, State, enqueue, default_holdtime, ka_expiry_retry_timer,
  Action, Phase, resting, waiting, connecting, opened, timed, paused, Error, set_state,
}
use networking_bagpipe_l.Peer.Worker.{stop_and_clean, worker_stop, tell, init_send_keep_alive_timer}
use networking_bagpipe_l.Peer.Session.{
  Connection, fail_connect, create_peer, track, check_action, finish_initiation, start_session,
  to_established, handle,
}
use networking_bagpipe_l.Peer.Received.{Read, receive_loop_fun, after_read}

module _ (x : Exabgp) where
  -- `__init__`
  abbrev pub init_worker : State x
  init_worker = record {
    phase = resting;
    fsm_state = idle;
    prev_state = none;
    please_stop = false;
    was_stopped = false;
    should_stop = false;
    stop_loops = false;
    queue = connect_now ∷ [];
    rtm_queue = [];
    kat_period = default_holdtime / 3;
    kat_expiry_time = default_holdtime / 3 * 3;
    alarms = [];
    next_timer = 0;
    send_ka_timer = none;
    ka_reception_timer = none;
    receive_threads = 0;
    has_peer = false;
    rtc_active = false;
    active_families = [];
    sent = [];
  }

  -- what a timer does at its end; `send_keep_alive_trigger` starts the timer again
  unfoldable pub trigger : Alarm → State x → State x
  trigger (connects delay) st = enqueue x connect_now st
  trigger (sends_keep_alive delay) st = init_send_keep_alive_timer x (enqueue x send_keep_alive st)
  trigger (expires delay) st = enqueue x (to_idle ka_expiry_retry_timer) st

  abbrev pub fire : ℕ → Alarm → State x → State x
  fire i a st = trigger a (record st { alarms = del ℕ_discrete i st.alarms })

module _ (x : Exabgp) (me : Source) (f : Families) (nlri_rt : x.Nlri → Option x.RouteTarget) where
  -- one round of a receive thread, which may be its last
  abbrev pub receive : Read x → State x → State x
  receive r st =
      if st.stop_loops
      then st
      else (after_read x me f nlri_rt (receive_loop_fun x me f nlri_rt r st)).0

  abbrev pub in_phase : Phase → State x → State x
  in_phase p st = record st { phase = p }

  -- the end of a part of `_initiate_connection`, before the part at that phase
  abbrev pub resume : Phase → Outcome Error (State x) (Unit {0}) → State x
  resume p (ok _ st) = in_phase p st
  resume p (raise e st) = in_phase resting (fail_connect x me f e st)

  -- `_dequeue`
  abbrev pub dequeued : List (Event x) → State x → State x
  dequeued l st = record st { queue = l }

  abbrev pub is_connect : Event x → Bool
  is_connect connect_now = true
  is_connect _ = false

  -- `_connect` up to the loop on the actions
  abbrev pub begin_connect : State x → State x
  begin_connect st = create_peer x (set_state x connect st)

  -- One step of one of the threads. Each step of the worker's thread is from its phase, and `_connect`
  -- is the steps from `begins` to `establishes`; `asks`, `tells` and `cleans` are those of `stop`.
  pub data Step : State x → State x → Type 0 where
    waits :
        (st : State x) → st.phase ≡ resting → st.please_stop ≡ false → Step st (in_phase waiting st)
    begins :
        (l : List (Event x)) (st : State x)
        → st.phase ≡ waiting
        → st.queue ≡ connect_now ∷ l
        → Step st (in_phase connecting (begin_connect (dequeued l st)))
    tracks :
        (s : FsmState) (a : Action) (st : State x)
        → st.phase ≡ connecting
        → Step st (resume (paused a) (track x s st))
    checks :
        (a : Action) (st : State x)
        → st.phase ≡ paused a
        → Step st (resume connecting (check_action x a st))
    finishes :
        (c : Connection) (st : State x)
        → st.phase ≡ connecting
        → Step st (resume opened (finish_initiation x f c st))
    starts_session :
        (st : State x) → st.phase ≡ opened → Step st (in_phase timed (start_session x me f st))
    establishes :
        (st : State x) → st.phase ≡ timed → Step st (in_phase resting (to_established x me f st))
    handles :
        (c : Connection) (ev : Event x) (l : List (Event x)) (st : State x)
        → st.phase ≡ waiting
        → st.queue ≡ ev ∷ l
        → is_connect ev ≡ false
        → Step st (in_phase resting (handle x me f c ev (dequeued l st)))
    fires :
        (i : ℕ) (a : Alarm) (st : State x)
        → get ℕ_discrete i st.alarms ≡ some a
        → Step st (fire x i a st)
    begins_thread : (st : State x) → Step st (record st { stop_loops = false })
    receives : (r : Read x) (st : State x) → Step st (receive r st)
    asks : (st : State x) → Step st (worker_stop x me st)
    tells : (st : State x) → st.was_stopped ≡ true → Step st (tell x me st)
    cleans : (st : State x) → st.should_stop ≡ true → Step st (stop_and_clean x me st)

  -- any number of steps
  pub data Runs (st : State x) : State x → Type 0 where
    rests : Runs st st
    runs_on : (st' st'' : State x) → Runs st st' → Step st' st'' → Runs st st''

  -- the states that a worker can be in
  pub data Reachable : State x → Type 0 where
    starts : Reachable (init_worker x)
    goes : (st st' : State x) → Reachable st → Step st st' → Reachable st'
