-- ===== src/Crypto.antt =====
-- pydevp2p/devp2p/crypto.py: keys, signatures and the ECIES encryption of the handshake.
pub mod Kdf
pub mod Ecies
pub mod Delivered
pub mod Authentic
pub mod Keys
pub mod Carried
mod Tests
