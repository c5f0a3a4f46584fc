-- ===== src/Peer/Base.antt =====
-- The state of a BGP peer worker, its events and its timers.
use networking_bagpipe_l.Common.{
  ℕ, ℕ_discrete, suc, Bool, Option, none, some, List, [], ◌∷◌, ◌++◌, eqb, if◌then◌else◌,
}
use networking_bagpipe_l.Common.Dicts.{put, del}
use networking_bagpipe_l.Common.Outcome.{M}
use networking_bagpipe_l.Engine.{Exabgp, Source, RouteEvent}
use networking_bagpipe_l.RouteTable.Defs
use networking_bagpipe_l.RouteTable.Defs.{worker_cleanup}

-- the states of `FSM`
pub data FsmState : Type 0 where
  idle connect open_sent open_confirm active established : FsmState

unfoldable pub fsm_discrete : Discrete FsmState
fsm_discrete = hlevel

pub data Event (x : Exabgp) : Type 0 where
  connect_now send_keep_alive keep_alive_received stop_event : Event x
  -- with the delay before the next connection
  to_idle : ℕ → Event x
  route_event : RouteEvent x → Event x

-- what a `threading.Timer` does when its time has come, with its time in seconds
pub data Alarm : Type 0 where
  connects sends_keep_alive expires : ℕ → Alarm

-- what exabgp says at the end of a step of the connection
pub data Action : Type 0 where
  later now close wait : Action

-- What the thread of the worker does. `resting` is the test of `_please_stop` in the event loop,
-- `waiting` is `_dequeue`, and the others are parts of `_connect`: in exabgp, in the sleep after an
-- action, after `_initiate_connection`, and after the start of the receive thread.
pub data Phase : Type 0 where
  resting waiting connecting opened timed : Phase
  paused : Action → Phase

-- what `_send` is given; exabgp sends the OPEN and the first KEEPALIVE itself
pub data Message (x : Exabgp) : Type 0 where
  keep_alive : Message x
  update : RouteEvent x → Message x

pub data Error : Type 0 where
  initiate_connection open_wait_timeout stopped assertion attribute_error other : Error

-- the AFIs and SAFIs of exabgp that the worker names, and `BGP.enable_rtc` of the configuration
pub record Families : Type 0 where
  pub ipv4 : ℕ
  pub l2vpn : ℕ
  pub mpls_vpn : ℕ
  pub evpn : ℕ
  pub flow_vpn : ℕ
  pub rtc : ℕ
  pub enable_rtc : Bool

-- The timers that run have numbers, as the timers that the worker keeps in its attributes.
pub record State (x : Exabgp) : Type 0 where
  pub phase : Phase
  pub fsm_state : FsmState
  pub prev_state : Option FsmState
  pub please_stop : Bool
  pub was_stopped : Bool
  pub should_stop : Bool
  pub stop_loops : Bool
  pub queue : List (Event x)
  pub rtm_queue : List (Defs.Event x)
  pub kat_period : ℕ
  pub kat_expiry_time : ℕ
  pub alarms : List (ℕ × Alarm)
  pub next_timer : ℕ
  pub send_ka_timer : Option ℕ
  pub ka_reception_timer : Option ℕ
  -- the receive threads that have been started
  pub receive_threads : ℕ
  pub has_peer : Bool
  pub rtc_active : Bool
  pub active_families : List (ℕ × ℕ)
  pub sent : List (Message x)

abbrev pub default_holdtime : ℕ
default_holdtime = 180

abbrev pub connect_retry_timer : ℕ
connect_retry_timer = 5

abbrev pub error_retry_timer : ℕ
error_retry_timer = 20

abbrev pub ka_expiry_retry_timer : ℕ
ka_expiry_retry_timer = 5

module _ (x : Exabgp) where
  abbrev pub Op : Type 0 → Type 0
  Op A = M Error (State x) A

  -- `FSM.state`, the setter; each value of the type is one of `all_states`
  unfoldable pub set_state : FsmState → State x → State x
  set_state s st =
      if eqb fsm_discrete s st.fsm_state
      then st
      else record st { prev_state = some st.fsm_state; fsm_state = s }

  -- `enqueue`
  abbrev pub enqueue : Event x → State x → State x
  enqueue ev st = record st { queue = st.queue ++ ev ∷ [] }

  -- `threading.Timer(...).start()`
  abbrev pub start : Alarm → State x → State x
  start a st = record st {
    alarms = put ℕ_discrete st.next_timer a st.alarms;
    next_timer = suc st.next_timer;
  }

  -- `timer.cancel()`, where there is a timer
  unfoldable pub cancel : Option ℕ → State x → State x
  cancel none st = st
  cancel (some i) st = record st { alarms = del ℕ_discrete i st.alarms }

  -- `_cleanup`
  abbrev pub cleanup : Source → State x → State x
  cleanup me st = record st { rtm_queue = st.rtm_queue ++ worker_cleanup me ∷ [] }
