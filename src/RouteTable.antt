-- ===== src/RouteTable.antt =====
-- The route table manager: networking_bagpipe/bagpipe_bgp/engine/route_table_manager.py. It keeps
-- track of the subscriptions of the workers, and dispatches route events to them.
-- The state holds the dicts of the manager as functions, and the private data that it keeps on its
-- clients (`worker._rtm_matches`, `source._rtm_route_entries`) as functions of the client. What an
-- operation sends is a list of effects: events put in a worker's queue, callbacks, and events that
-- the manager puts in its own queue. One call of `on_event` is one round of the loop of `run`.
pub mod Match
pub mod Defs
pub mod Routes
pub mod Table
pub mod Loops
pub mod Consistent
pub mod Cleanup
pub mod Current
pub mod Receive
pub mod View
pub mod Exact
pub mod Subscribed
pub mod Unsubscribed
pub mod Promise
pub mod Callbacks
pub mod Heard
pub mod Told
mod Tests
