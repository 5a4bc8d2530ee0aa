-- ===== src/Kademlia.antt =====
-- pydevp2p/devp2p/kademlia.py: nodes, buckets, the routing table and the protocol.
pub mod Node
pub mod Bucket
pub mod Table
pub mod Protocol
mod Tests
