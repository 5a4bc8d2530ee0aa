-- ===== src/Multiplexer.antt =====
-- pydevp2p/devp2p/multiplexer.py: frames, the queues of the protocols, and decoding.
pub mod Frame
pub mod Cipher
pub mod State
pub mod Send
pub mod Receive
pub mod Channel
pub mod Transfer
pub mod Samples
mod Tests
