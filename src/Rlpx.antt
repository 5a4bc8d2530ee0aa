-- ===== src/Rlpx.antt =====
-- pydevp2p/devp2p/rlpxcipher.py: the encryption of frames and the handshake that sets it up.
pub mod Session
pub mod Frames
pub mod Channel
pub mod Wire
pub mod Tampered
pub mod Handshake
pub mod Samples
mod Tests
