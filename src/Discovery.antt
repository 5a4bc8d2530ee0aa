-- ===== src/Discovery.antt =====
-- pydevp2p/devp2p/discovery.py: the datagrams of the discovery protocol and the endpoints in them.
pub mod Items
pub mod Datagram
pub mod Accepted
pub mod Genuine
pub mod Endpoint
pub mod Messages
pub mod Exchange
pub mod Arrival
mod Tests
