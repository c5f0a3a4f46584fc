-- ===== src/Peer/Tests.antt =====
-- The theorems on a peer worker at concrete connections.
use networking_bagpipe_l.Common.{
  ℕ, ℕ_discrete, ◌≡◌, ◌≢◌, refl, true, false, Option, none, some, [], ◌∷◌, arith,
}
use networking_bagpipe_l.Common.Dicts.{get}
use networking_bagpipe_l.Engine.{Source, bgp_peer}
use networking_bagpipe_l.Engine.Toy.{toy}
use networking_bagpipe_l.Peer.Base.{
  open_sent, open_confirm, expires, Families, State, set_state, fsm_discrete, later, now, waiting,
  connecting, opened, timed, paused, established,
}
use networking_bagpipe_l.Peer.Worker.{
  set_hold_time, stop, init_keep_alive_reception_timer, init_send_keep_alive_timer,
}
use networking_bagpipe_l.Peer.Session.{
  Connection, exhausted, connect_session, initiate, establish, finish_initiation, negotiate,
  create_peer, track, check_action, start_session,
}
use networking_bagpipe_l.Peer.Steps.{
  init_worker, in_phase, resume, dequeued, begin_connect, waits, begins, finishes, Reachable,
  starts, goes, Step,
}
use networking_bagpipe_l.Peer.Silent.{stop-late}
use networking_bagpipe_l.Peer.HoldTime.{IsTimed, connect_session-IsTimed, connect_session-stale}

abbrev families : Families
families = record {
  ipv4 = 1;
  l2vpn = 25;
  mpls_vpn = 128;
  evpn = 70;
  flow_vpn = 133;
  rtc = 132;
  enable_rtc = true;
}

abbrev me : Source
me = bgp_peer 0

-- a connection to a peer that has RTC
abbrev connection : Connection
connection = record {
  actions = (open_sent, later) ∷ (open_confirm, now) ∷ [];
  end = exhausted;
  holdtime = 90;
  mp_capabilities = (1, 128) ∷ (1, 132) ∷ [];
}

abbrev nlri_rt : ℕ → Option ℕ
nlri_rt n = none

-- the steps of the first connection
abbrev begun : State toy
begun = in_phase toy me families nlri_rt connecting (
    begin_connect toy me families nlri_rt (
      dequeued toy me families nlri_rt []
        (in_phase toy me families nlri_rt waiting (init_worker toy))))

abbrev begun-Reachable : Reachable toy me families nlri_rt begun
begun-Reachable =
    goes _ _ (goes _ _ starts (waits (init_worker toy) refl refl)) (begins [] _ refl refl)

abbrev made : State toy
made = resume toy me families nlri_rt opened (finish_initiation toy families connection begun)

abbrev made-Reachable : Reachable toy me families nlri_rt made
made-Reachable = goes _ _ begun-Reachable (finishes connection begun refl)

-- a worker that sleeps in the loop over the actions
abbrev asleep : State toy
asleep = record begun { phase = paused later }

-- a worker that has started its receive thread
abbrev threaded : State toy
threaded = in_phase toy me families nlri_rt timed (start_session toy me families made)

stop-late_example :
    (st' : State toy) × Step toy me families nlri_rt (stop toy me threaded) st'
    × (st'.fsm_state ≡ established)
    × (st'.has_peer ≡ false)
    × (st'.was_stopped ≡ true)
unfolding start_session init_keep_alive_reception_timer init_send_keep_alive_timer finish_initiation
    negotiate set_hold_time create_peer set_state fsm_discrete
stop-late_example = stop-late toy me families nlri_rt threaded refl refl

connect_session-IsTimed_example :
    IsTimed toy me families 90 (connect_session toy me families connection (init_worker toy))
unfolding initiate establish set_state fsm_discrete set_hold_time finish_initiation negotiate
    create_peer track check_action
connect_session-IsTimed_example =
    connect_session-IsTimed toy me families connection (init_worker toy) _ refl

-- an idle worker whose last session left a timer
abbrev left : State toy
left = record (init_worker toy) {
  alarms = (0, expires 60) ∷ [];
  next_timer = 1;
  ka_reception_timer = some 0;
}

connect_session-stale_example :
    (get ℕ_discrete 0 (connect_session toy me families connection left).alarms ≡ some (expires 60))
    × ((connect_session toy me families connection left).ka_reception_timer ≢ some 0)
unfolding initiate establish set_state fsm_discrete set_hold_time get ℕ_discrete finish_initiation
    negotiate create_peer track check_action
connect_session-stale_example =
    connect_session-stale toy me families connection 0 60 left _ refl refl (omega arith)
