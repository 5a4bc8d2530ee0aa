-- ===== src/Peer.antt =====
-- pydevp2p/devp2p/peer.py, peermanager.py, p2p_protocol.py and protocol.py: a connection to a peer,
-- the protocols on it, and the manager of all peers.
pub mod Protocol
pub mod Dispatch
pub mod State
pub mod Capabilities
pub mod Handlers
pub mod Marks
pub mod Invariant
pub mod Search
pub mod Shutdown
pub mod Commands
pub mod Payloads
pub mod Handled
pub mod Runs
pub mod Monitor
mod Tests
