-- ===== src/Lib.antt =====
-- bagpipe-bgp, the BGP VPN daemon of networking-bagpipe (directory
-- networking_bagpipe/bagpipe_bgp).
--
-- The daemon connects local VPN instances to BGP peers. Workers (VPN instances, BGP peers)
-- advertise and withdraw routes and subscribe to route targets; the route table manager
-- dispatches the routes to the subscribed workers. VPN instances take route distinguishers,
-- labels and other numbers from identifier allocators.
--
-- Parts:
-- - RouteTable, engine/route_table_manager.py. Match: `Match` and `matches_for`. Defs: the state
--   (`RouteTableManager.__init__`, `WorkersAndEntries`), `_worker_subscribes`,
--   `_worker_unsubscribes`. Routes: `_propagate_route_event`, `_receive_route_event`,
--   `_worker_cleanup`, `_on_event`. The dicts are functions of their key. `worker._rtm_matches`
--   and `source._rtm_route_entries` are functions of the worker and the source. A set is a list
--   on which `add` and `discard` are the set's operations; no result depends on its order except
--   the order of the effects. The other files are proofs: Table and Loops on the dict of
--   matches, Consistent, Cleanup, Current and Receive on the invariant, View, Exact, Subscribed,
--   Unsubscribed and Promise on what the workers learn, Callbacks, Heard and Told on what the client of the
--   two callbacks is told.
-- - Engine, engine/__init__.py: `RouteEntry`, `RouteEvent`; subscriptions are in
--   RouteTable.Defs.
-- - Tracker, engine/tracker_worker.py: Base and Handler have `_on_event` of `TrackerWorker`, by
--   branches, with `_recompute_best_routes` and the calls of the two callbacks; Ecmp has
--   `FilteredRoute` and `compare_ecmp`. The other files are proofs: Top and Best on the
--   recomputation, Advertise and Withdraw on the lists of an entry, Calls, Known and Learned on
--   what the callbacks say, Events on all of it over histories.
-- - Manager, engine/bgp_manager.py: the RTC routes for the two callbacks of the route table
--   manager. Rtc has the theorems.
-- - Allocator, vpn/identifier_allocators.py: `IDAllocator`, `RDAllocator`, `LabelAllocator`.
-- - VpnInstance, vpn/vpn_instance.py. Base: the tables of endpoints of `VPNInstance`. Plug: the
--   steps of `vif_plugged` and the route that it synthesizes. Handlers: `vif_plugged`,
--   `vif_unplugged` and `vif_unplugged_real`. A method takes the state and returns a value or an
--   exception, each with the state after it, since changes made before an exception stay. The
--   dicts are functions of their key, but `localport_2_endpoints`, which is asked for its keys.
--   The other files are proofs: Tidy is the invariant of the tables; Recorded, Prepared, Dropped
--   and Plugged are on `vif_plugged`; Closed, Leave, Forget and Unplugged on
--   `vif_unplugged_real`; Faults on exceptions. Tables has the
--   questions about endpoints, RouteTargets has `update_route_targets`, and
--   Ports `_construct_port_rules` of `TrafficClassifier`, each with its theorems.
-- - Peer, engine/worker.py, engine/bgp_peer_worker.py and engine/exabgp_peer_worker.py. Base and
--   Worker: the state of a BGP peer worker, its timers, its stop. Session: `_on_event`,
--   `_connect` and the loop of events. Received: the receive thread. Steps: what the threads and
--   timers do, as a relation on states; `_connect` and `stop` are several steps each, so that a
--   stop of another thread comes between any two parts of `_connect`. Watch, Kept, Events,
--   Handled, Reads and Watched are proofs of its invariant, Halting, Halted and Silent on what follows a stop, Phases
--   and Whole on the steps of `_connect` without such a stop, HoldTime
--   on the times of keep-alives and on timers that stay.
-- - Common: Boolean tests, lists, sets as lists, dicts as functions and as lists, methods that
--   change a state and may raise.
--
-- Interaction: an event that a worker or a source puts in the queue of the manager is a value of
-- `Event`, and one round of the loop of `run` is `on_event`, which returns the new state and the
-- effects: events put in the queues of workers, callbacks, events put in the manager's own
-- queue. The manager and the threads of its clients meet in these queues alone, so an interleaving
-- is a list of events; the threads of a BGP peer worker meet in its state, by steps. The events
-- that the manager enqueues for itself are not replayed: the theorems on histories hold for
-- every list of events, those in which they come at any later place among them. The exceptions
-- of the callbacks, which the source catches, are not modelled.
--
-- Parameters: the package exabgp (NLRIs, attributes, extended communities) is the record
-- `Engine.Exabgp`, whose laws say that a route target stays one when it is made an extended
-- community, that communities that were put in attributes are found there, and that equality of
-- attributes (`sameValuesAs`) and of NLRIs is decidable. Engine.Toy is an instance. What a
-- subclass of TrackerWorker supplies, and the order in which Python iterates over a set, is the
-- record `Tracker.Tracking`; its laws say that routes are compared by a rank and that an item of
-- a set that is not empty is taken from it. Tracker.Ecmp is an instance for the comparison with
-- ECMP.
--
-- What a VPN instance takes from its subclass and from libraries (addresses,
-- `netaddr.IPNetwork`, route distinguishers, attributes) is the record `VpnInstance.Base.Site`;
-- the answers of its dataplane are `Dataplane`. What exabgp does when a peer worker connects is
-- a value of `Connection`, and a message that is read is a value of `Read`: the theorems hold
-- for all of them. What exabgp calls the flags of a numeric operator, and what a router does with
-- them (RFC 5575), is the record `VpnInstance.Ports.Flow`. VpnInstance.Toy is an instance of
-- Site, and the tests of the VPN instance have one of Flow.
--
-- The VPN instance and its allocators meet in the state of the instance, which holds the two
-- allocators of the VPN manager; other instances that use them at the same time are not
-- modelled. A peer worker and the route table manager meet in `rtm_queue`, whose items are the
-- events of the manager.
--
-- Bounds and fuel: numbers are unbounded, as in Python. The loop of `_allocate` over
-- `itertools.count` runs on fuel, one more than the number of allocated identifiers: among so
-- many consecutive numbers one is free. All other loops are recursion on lists.
--
-- Not modelled: threads and queues but those of BGP peers, logging, the looking glass, texts of objects,
-- `compare_no_ecmp` and `synthesize_withdraw_all`; of a BGP peer the clock (timers have times, and
-- may end in any order), the bytes of messages and what exabgp itself sends while it connects; of VPN instances the rest of traffic classifiers, `stop`, redirection and the
-- subclasses (IP VPN, EVPN); the VPN manager, dataplane drivers, the REST API and the Neutron
-- agent.
pub mod Common
pub mod Allocator
pub mod Engine
pub mod RouteTable
pub mod Tracker
pub mod Manager
pub mod VpnInstance
pub mod Peer
