-- ===== src/VpnInstance.antt =====
-- The endpoints of a VPN instance: networking_bagpipe/bagpipe_bgp/vpn/vpn_instance.py.
-- An endpoint is a MAC address with an IP prefix, or with None for any address. What the code takes
-- from elsewhere is the parameter `Site`: the types of addresses and ports, `netaddr.IPNetwork`,
-- route distinguishers and attributes of exabgp, the hook `generate_vif_bgp_route` of the
-- subclasses. The answers of the dataplane are the parameter `Dataplane` of each operation.
pub mod Base
pub mod Plug
pub mod Handlers
pub mod Tidy
pub mod Recorded
pub mod Prepared
pub mod Dropped
pub mod Plugged
pub mod Closed
pub mod Leave
pub mod Forget
pub mod Unplugged
pub mod Faults
pub mod Tables
pub mod Ports
pub mod RouteTargets
pub mod Toy
mod Tests
