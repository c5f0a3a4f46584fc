-- ===== src/Peer/Received.antt =====
-- What the receive thread does with the messages that it reads.
use networking_bagpipe_l.Common.{
  ℕ, Bool, true, false, Option, none, some, List, [], ◌∷◌, ◌++◌, eqb, if◌then◌else◌,
}
use networking_bagpipe_l.Common.Outcome.{
  Outcome, ok, raise, ◌>>=◌, ◌>>◌, return, fail, modify, ensure,
}
use networking_bagpipe_l.Engine
use networking_bagpipe_l.Engine.{
  Exabgp, Source, RouteEntry, RouteEvent, EventType, init, init_event,
}
use networking_bagpipe_l.RouteTable.Defs.{route}
use networking_bagpipe_l.Peer.Base.{
  established, fsm_discrete, keep_alive_received, to_idle, error_retry_timer, Error, assertion,
  other, Families, State, Op, enqueue,
}
use networking_bagpipe_l.Peer.Worker.{subscribe_to, unsubscribe_from}
use networking_bagpipe_l.Peer.Session.{family_discrete, rtc_family}

-- What reading the connection gives: a message, or an exception. `failed` stands for the exceptions
-- for which `_receive_loop_fun` returns 2, `broken` for those that it raises.
pub data Read (x : Exabgp) : Type 0 where
  nop keep_alive unexpected failed broken : Read x
  update : List (EventType × x.Nlri) → x.Attributes → Read x

module _ (x : Exabgp) (me : Source) (f : Families) (nlri_rt : x.Nlri → Option x.RouteTarget) where
  -- `_advertise_route` and `_withdraw_route`, with the constructor of `RouteEvent`
  unfoldable pub publish : Option (RouteEvent x) → Op x (Unit {0})
  publish none st = raise assertion st
  publish (some ev) st = ok tt (record st { rtm_queue = st.rtm_queue ++ route ev ∷ [] })

  abbrev pub follow_family : EventType → ℕ → ℕ → Option x.RouteTarget → State x → State x
  follow_family Engine.advertise afi safi rt = subscribe_to x me afi safi rt
  follow_family Engine.withdraw afi safi rt = unsubscribe_from x me afi safi rt

  -- a route target constraint asks for the routes of each family
  unfoldable pub follow_rtc : EventType → Option x.RouteTarget → List (ℕ × ℕ) → State x → State x
  follow_rtc ty rt [] st = st
  follow_rtc ty rt ((afi, safi) ∷ l) st =
      let rest = follow_rtc ty rt l st in
      let rest' = follow_rtc ty rt l (follow_family ty afi safi rt st) in
      if eqb family_discrete (afi, safi) (rtc_family f) then rest else rest'

  -- `_process_received_route`
  unfoldable pub process_received_route : EventType → x.Nlri → x.Attributes → Op x (Unit {0})
  process_received_route ty nlri attributes = do
    publish (init_event x ty (init x nlri none (some attributes) none) (some me))
    modify λ st.
        if eqb family_discrete (x.nlri_afi nlri, x.nlri_safi nlri) (rtc_family f)
        then follow_rtc ty (nlri_rt nlri) st.active_families st
        else st

  unfoldable pub process_received_routes :
      List (EventType × x.Nlri) → x.Attributes → Op x (Unit {0})
  process_received_routes [] attributes = return tt
  process_received_routes ((ty, nlri) ∷ l) attributes = do
    process_received_route ty nlri attributes
    process_received_routes l attributes

  -- `_receive_loop_fun`: true for 1, false for 2
  unfoldable pub receive_loop_fun : Read x → Op x Bool
  receive_loop_fun nop = return true
  receive_loop_fun keep_alive = do modify (enqueue x keep_alive_received); return true
  receive_loop_fun unexpected = return true
  receive_loop_fun failed = return false
  receive_loop_fun broken = fail other
  receive_loop_fun (update routes attributes) = do
    state ← λ st. ok st.fsm_state st
    ensure (eqb fsm_discrete state established) other
    process_received_routes routes attributes
    return true

  -- whether the loop goes on, with `ToIdle` for the worker if it does not
  abbrev pub after_read : Outcome Error (State x) Bool → State x × Bool
  after_read (ok true st) = (st, true)
  after_read (ok false st) = (enqueue x (to_idle error_retry_timer) st, false)
  after_read (raise _ st) = (enqueue x (to_idle error_retry_timer) st, false)

  -- `_receive_loop`, after the `clear` of its start, on what it reads
  unfoldable pub receive_loop : List (Read x) → State x → State x
  receive_loop [] st = st
  receive_loop (r ∷ l) st =
      let (st', goes_on) = after_read (receive_loop_fun r st) in
      let rest = receive_loop l st' in if st.stop_loops then st else if goes_on then rest else st'
