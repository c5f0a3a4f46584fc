-- ===== src/Peer/Session.antt =====
-- The events of the peer worker, and the connection that it makes.
use networking_bagpipe_l.Common.{
  ℕ, suc, ℕ_discrete, Bool, true, false, ◌&&◌, Option, none, List, [], ◌∷◌, ◌++◌, filter_list,
  contains, ◌==◌, eqb, if◌then◌else◌,
}
use networking_bagpipe_l.Common.Outcome.{
  Outcome, ok, raise, ◌>>◌, return, fail, modify, ensure, state_of,
}
use networking_bagpipe_l.Engine.{Exabgp, Source, RouteEvent}
use networking_bagpipe_l.Peer.Base.{
  FsmState, idle, connect, active, established, fsm_discrete, Event, connect_now, send_keep_alive,
  keep_alive_received, stop_event, to_idle, route_event, Message, keep_alive, update, Error, Action,
  close, attribute_error, connect_retry_timer, initiate_connection, open_wait_timeout, stopped,
  other, Families, State, Op, set_state, enqueue,
}
use networking_bagpipe_l.Peer.Worker.{
  set_hold_time, stop_and_clean, subscribe_to, init_connect_timer, init_send_keep_alive_timer,
  init_keep_alive_reception_timer, on_keep_alive_received,
}

-- how `_establish` ends
pub data End : Type 0 where
  exhausted interrupted lost_connection : End
  notify : ℕ → ℕ → End

-- what happens on a connection: the state of exabgp at each action, the end, the capabilities
pub record Connection : Type 0 where
  pub actions : List (FsmState × Action)
  pub end : End
  pub holdtime : ℕ
  pub mp_capabilities : List (ℕ × ℕ)

unfoldable pub family_discrete : Discrete (ℕ × ℕ)
unfolding ℕ_discrete
family_discrete = hlevel ℕ_discrete

-- `action == ACTION.CLOSE`
abbrev pub is_close : Action → Bool
is_close close = true
is_close _ = false

abbrev pub rtc_family : Families → ℕ × ℕ
rtc_family f = (f.ipv4, f.rtc)

abbrev pub enabled_families : Families → List (ℕ × ℕ)
enabled_families f = (f.ipv4, f.mpls_vpn) ∷ (f.l2vpn, f.evpn) ∷ (f.ipv4, f.flow_vpn) ∷ []

abbrev pub notify_error : ℕ → ℕ → Error
notify_error code subcode = if code == 1 && subcode == 1 then open_wait_timeout else other

module _ (x : Exabgp) where
  -- The body of the loop on the actions of `_establish`, up to the sleep. `self.peer` is None if the
  -- session was ended since.
  unfoldable pub track : FsmState → Op x (Unit {0})
  track s st = if st.has_peer then ok tt (set_state x s st) else raise attribute_error st

  -- the body of the loop after the sleep
  unfoldable pub check_action : Action → Op x (Unit {0})
  check_action a st =
      if st.should_stop
      then raise stopped st
      else if is_close a
      then raise initiate_connection st
      else ok tt st

  -- the loop on the actions of `_establish`
  unfoldable pub establish : List (FsmState × Action) → Op x (Unit {0})
  establish [] = return tt
  establish ((s, a) ∷ l) = do track s; check_action a; establish l

  abbrev pub end_of : End → Op x (Unit {0})
  end_of exhausted = return tt
  end_of interrupted = fail initiate_connection
  end_of lost_connection = fail other
  end_of (notify code subcode) = fail (notify_error code subcode)

  -- the first part of `_initiate_connection`
  unfoldable pub create_peer : State x → State x
  create_peer st = record st { rtc_active = false; has_peer = true }

  -- the last part, from `self.peer.proto`
  unfoldable pub negotiate : Families → Connection → Op x (Unit {0})
  negotiate f c = do
    λ st. ensure st.has_peer attribute_error st
    set_hold_time x c.holdtime
    modify λ st. record st {
      active_families =
          filter_list (λ p. contains family_discrete p c.mp_capabilities)
            (enabled_families f ++ rtc_family f ∷ []);
      rtc_active = f.enable_rtc && contains family_discrete (rtc_family f) c.mp_capabilities;
    }

  -- what follows the last action
  unfoldable pub finish_initiation : Families → Connection → Op x (Unit {0})
  finish_initiation f c = end_of c.end >> negotiate f c

  -- `_initiate_connection`
  unfoldable pub initiate : Families → Connection → Op x (Unit {0})
  initiate f c = do modify create_peer; establish c.actions; finish_initiation f c

module _ (x : Exabgp) (me : Source) (f : Families) where
  -- `_to_active`
  unfoldable pub to_active : State x → State x
  to_active st =
      init_connect_timer x connect_retry_timer (stop_and_clean x me (set_state x active st))

  -- `_to_idle`
  unfoldable pub to_idle_state : ℕ → State x → State x
  to_idle_state delay st =
      let st' = stop_and_clean x me (set_state x idle st) in
      if delay == 0 then enqueue x connect_now st' else init_connect_timer x delay st'

  -- the loop on the active families
  unfoldable pub subscribe_all : List (ℕ × ℕ) → Option x.RouteTarget → State x → State x
  subscribe_all [] rt st = st
  subscribe_all ((afi, safi) ∷ l) rt st = subscribe_all l rt (subscribe_to x me afi safi rt st)

  -- to the routes of RTC if it is active, and to those of each family if not
  unfoldable pub subscribe_active : Bool → State x → State x
  subscribe_active true st = subscribe_to x me f.ipv4 f.rtc none st
  subscribe_active false st = subscribe_all st.active_families none st

  -- `_to_established`, of the two classes
  unfoldable pub to_established : State x → State x
  to_established st = let st' = set_state x established st in subscribe_active st'.rtc_active st'

  -- the timers and the receive thread of a connection that was made
  unfoldable pub start_session : State x → State x
  start_session st =
      let cleared = record st { stop_loops = false } in
      let timed = init_keep_alive_reception_timer x (init_send_keep_alive_timer x cleared) in
      record timed { receive_threads = suc timed.receive_threads }

  -- the part of `_connect` for a connection that was made
  unfoldable pub connected : State x → State x
  connected st = to_established (start_session st)

  -- the handlers of the exceptions of `_initiate_connection`
  unfoldable pub fail_connect : Error → State x → State x
  fail_connect stopped st = st
  fail_connect _ st = to_active st

  abbrev pub end_connect : Outcome Error (State x) (Unit {0}) → State x
  end_connect (ok _ st) = connected st
  end_connect (raise e st) = fail_connect e st

  -- `_connect`
  unfoldable pub connect_session : Connection → State x → State x
  connect_session c st = end_connect (initiate x f c (set_state x connect st))

  abbrev pub send : Message x → State x → State x
  send m st = record st { sent = st.sent ++ m ∷ [] }

  unfoldable pub send_update : RouteEvent x → Op x (Unit {0})
  send_update ev st =
      if eqb fsm_discrete st.fsm_state established
      then ok tt (send (update ev) st)
      else raise other st

  -- `_on_event`
  unfoldable pub on_event : Connection → Event x → Op x (Unit {0})
  on_event c connect_now st = ok tt (connect_session c st)
  on_event c (to_idle delay) st = ok tt (to_idle_state delay st)
  on_event c (route_event ev) st = send_update ev st
  on_event c send_keep_alive st = ok tt (send keep_alive st)
  on_event c keep_alive_received st = on_keep_alive_received x st
  on_event c stop_event st = ok tt st

  -- one round of `_event_queue_processor_loop` after `_dequeue`; exceptions of `_on_event` are logged
  unfoldable pub handle : Connection → Event x → State x → State x
  handle c stop_event st = record st { please_stop = true }
  handle c ev st = state_of (on_event c ev st)
