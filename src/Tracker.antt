-- ===== src/Tracker.antt =====
-- The tracker of best routes: networking_bagpipe/bagpipe_bgp/engine/tracker_worker.py.
-- What the subclasses and the constructor supply (`route_to_tracked_entry`, `_compare_routes`, the
-- type of a FilteredRoute) and the order in which Python iterates over a set are the parameter
-- `Tracking`. The two dicts are functions of the entry; a callback that is made is a value in a
-- list, since its exceptions are caught and logged.
pub mod Base
pub mod Handler
pub mod Top
pub mod Best
pub mod Advertise
pub mod Withdraw
pub mod Calls
pub mod Known
pub mod Learned
pub mod Events
pub mod Ecmp
mod Tests
