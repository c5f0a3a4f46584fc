-- ===== src/Peer.antt =====
-- The BGP peer worker: networking_bagpipe/bagpipe_bgp/engine/worker.py, bgp_peer_worker.py and
-- exabgp_peer_worker.py. What exabgp does while a connection is made, and each message that is read,
-- are inputs of the operations; the numbers of the address families are the parameter `Families`.
-- Three threads and the timers work on one state. `_connect` and `stop` are several steps each: a step
-- of another thread may come between any two of them, as it does while exabgp connects. Each other
-- handler of an event, each end of a timer and each round of the receive loop is one step. The clock is
-- not modelled: a timer has a time, and may end at any step. Neither is the random factor of `ToIdle`,
-- which is at least 1 and so never makes a delay 0.
pub mod Base
pub mod Worker
pub mod Session
pub mod Received
pub mod Steps
pub mod Watch
pub mod Kept
pub mod Events
pub mod Handled
pub mod Reads
pub mod Watched
pub mod Halting
pub mod Halted
pub mod Silent
pub mod Phases
pub mod Whole
pub mod HoldTime
mod Tests
