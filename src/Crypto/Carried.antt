-- ===== src/Crypto/Carried.antt =====
-- The encryption of crypto.py between two objects of class ECCx, as the sessions of rlpxcipher.py
-- use them.
use structured_p2p_overlay_n.Prelude.{◌≡◌, length}
use structured_p2p_overlay_n.Prelude.Bytes.{Bytes}
use structured_p2p_overlay_n.Crypto.Ecies.{Primitives, KeyPair}
use structured_p2p_overlay_n.Crypto.Delivered.{IsPrimitives, Agree, ecies_decrypt-encrypt}
use structured_p2p_overlay_n.Crypto.Keys.{Curve, eccx}
use structured_p2p_overlay_n.Rlpx.Handshake.Messages.{Carries}

-- An object carries messages to another one, as a handshake demands: what it encrypts for the key of
-- the other, with an iv of 16 bytes and a random key pair that agrees with that of the other on a
-- secret, is 113 bytes longer, and the other decrypts it.
pub eccx-Carries :
    (prim : Primitives) (laws : IsPrimitives prim) (curve : Curve)
    (sender ephem receiver other : KeyPair) (iv other_iv : Bytes)
    → length iv ≡ 16
    → Agree prim ephem receiver
    → Carries (eccx prim curve sender ephem iv) (eccx prim curve receiver other other_iv)
eccx-Carries prim laws curve sender ephem receiver other iv other_iv i16 agree message shared =
    ecies_decrypt-encrypt prim laws ephem receiver iv message shared i16 agree
