-- ===== src/Peer/Worker.antt =====
-- What a worker does at its stop, and its timers.
use networking_bagpipe_l.Common.{
  ℕ, ◌*◌, true, false, Option, none, some, [], ◌∷◌, ◌++◌, ltb, ◌/◌, if◌then◌else◌,
}
use networking_bagpipe_l.Common.Outcome.{ok, raise, ◌>>◌, modify, ensure}
use networking_bagpipe_l.Engine.{Exabgp, Source}
use networking_bagpipe_l.RouteTable.Match.{Match}
use networking_bagpipe_l.RouteTable.Defs.{subscribe, unsubscribe}
use networking_bagpipe_l.Peer.Base.{
  idle, stop_event, connects, sends_keep_alive, expires, assertion, attribute_error, State, Op,
  set_state, enqueue, start, cancel, cleanup,
}

module _ (x : Exabgp) where
  -- `_set_hold_time`
  unfoldable pub set_hold_time : ℕ → Op x (Unit {0})
  set_hold_time holdtime = do
    ensure (ltb 30 holdtime) assertion
    modify λ st. record st { kat_period = holdtime / 3; kat_expiry_time = holdtime / 3 * 3 }

  -- `init_connect_timer`
  unfoldable pub init_connect_timer : ℕ → State x → State x
  init_connect_timer delay = start x (connects delay)

  -- `init_send_keep_alive_timer`
  unfoldable pub init_send_keep_alive_timer : State x → State x
  init_send_keep_alive_timer st = record (start x (sends_keep_alive st.kat_period) st) {
    send_ka_timer = some st.next_timer;
  }

  -- `init_keep_alive_reception_timer`
  unfoldable pub init_keep_alive_reception_timer : State x → State x
  init_keep_alive_reception_timer st = record (start x (expires st.kat_expiry_time) st) {
    ka_reception_timer = some st.next_timer;
  }

  -- `on_keep_alive_received`
  unfoldable pub on_keep_alive_received : Op x (Unit {0})
  on_keep_alive_received st = elim st.ka_reception_timer [
    | none ↦ raise attribute_error st
    | some i ↦ ok tt (init_keep_alive_reception_timer (cancel x (some i) st))
  ]

module _ (x : Exabgp) (me : Source) where
  -- `_stop_and_clean`, of the two classes
  unfoldable pub stop_and_clean : State x → State x
  stop_and_clean st =
      let st' = record st { stop_loops = true } in
      let cancelled = cancel x st'.ka_reception_timer (cancel x st'.send_ka_timer st') in
      record (cleanup x me cancelled) { active_families = []; has_peer = false }

  -- `Worker.stop`, with `_stopped` of the peer worker
  unfoldable pub worker_stop : State x → State x
  worker_stop st =
      let asked = enqueue x stop_event (record st { please_stop = true }) in
      let stopped = record (set_state x idle (cleanup x me asked)) { was_stopped = true } in
      if st.was_stopped then st else stopped

  abbrev pub tell : State x → State x
  tell st = record st { should_stop = true }

  -- `BGPPeerWorker.stop`
  unfoldable pub stop : State x → State x
  stop st = stop_and_clean (tell (worker_stop st))

  -- `_subscribe`, `_unsubscribe`
  abbrev pub subscribe_to : ℕ → ℕ → Option x.RouteTarget → State x → State x
  subscribe_to afi safi rt st =
      let m : Match x = record { afi = some afi; safi = some safi; route_target = rt } in
      record st {
        rtm_queue = st.rtm_queue ++ subscribe (record { matching = m; worker = me }) ∷ [];
      }

  abbrev pub unsubscribe_from : ℕ → ℕ → Option x.RouteTarget → State x → State x
  unsubscribe_from afi safi rt st =
      let m : Match x = record { afi = some afi; safi = some safi; route_target = rt } in
      record st {
        rtm_queue = st.rtm_queue ++ unsubscribe (record { matching = m; worker = me }) ∷ [];
      }
