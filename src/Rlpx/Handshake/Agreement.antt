-- ===== src/Rlpx/Handshake/Agreement.antt =====
-- Two sessions that saw the same handshake derive matching keys, pydevp2p/devp2p/rlpxcipher.py.
use structured_p2p_overlay_n.Prelude.{
  Bool, true, false, some, ◌++◌, length, ok, ◌≡◌, refl, sym, ap, not, ◌∙◌, arith, if◌then◌else◌,
}
use mathlib.Core.Path.{subst₂}
use mathlib.Core.Bool.{false≢true}
use structured_p2p_overlay_n.Prelude.Bytes.{Bytes}
use structured_p2p_overlay_n.Rlpx.Session.{Primitives, Keys, RlpxSession, sxor, xor_bytes}
use structured_p2p_overlay_n.Rlpx.Frames.{IsCipher}
use structured_p2p_overlay_n.Rlpx.Channel.{InSync, Synced, synced}
use structured_p2p_overlay_n.Rlpx.Handshake.{derive_keys, setup_cipher, present}

-- What an end of a handshake has seen: the nonces, the two messages and the other end's ephemeral
-- key, with which it agrees on the secret `ecdhe`.
pub record Seen {A H : Type 0} (s : RlpxSession A H)
    (responder_nonce initiator_nonce auth_init auth_ack ecdhe : Bytes) : Type 0 where
  pub remote : Bytes
  pub has_responder_nonce : present s.responder_nonce ≡ ok responder_nonce
  pub has_initiator_nonce : present s.initiator_nonce ≡ ok initiator_nonce
  pub has_auth_init : present s.auth_init ≡ ok auth_init
  pub has_auth_ack : present s.auth_ack ≡ ok auth_ack
  pub has_remote : present s.remote_ephemeral_pubkey ≡ ok remote
  pub valid_remote : s.ecc.is_valid_key remote ≡ true
  pub agrees : s.ephemeral_ecc.get_ecdh_key remote ≡ ok ecdhe

module _ {A H : Type 0} (prim : Primitives A H) (rn ni ai aa z : Bytes) where
  abbrev aes_secret : Bytes
  aes_secret = prim.sha3 (z ++ prim.sha3 (z ++ prim.sha3 (rn ++ ni)))

  abbrev mac_secret : Bytes
  mac_secret = prim.sha3 (z ++ aes_secret)

  -- the keys of the end that is the initiator or not
  abbrev pub keys_of : Bool → Keys A H
  keys_of is_initiator = record {
    token = prim.sha3 (prim.sha3 (z ++ prim.sha3 (rn ++ ni)));
    aes_secret = aes_secret;
    mac_secret = mac_secret;
    aes_enc = prim.new_encryptor aes_secret;
    aes_dec = prim.new_decryptor aes_secret;
    egress_mac =
        if is_initiator
        then prim.new_hash (xor_bytes mac_secret rn ++ ai)
        else prim.new_hash (xor_bytes mac_secret ni ++ aa);
    ingress_mac =
        if is_initiator
        then prim.new_hash (xor_bytes mac_secret ni ++ aa)
        else prim.new_hash (xor_bytes mac_secret rn ++ ai);
  }

  module _ (sizes : (x : Bytes) → length (prim.sha3 x) ≡ 32) (rn_size : length rn ≡ 32)
      (ni_size : length ni ≡ 32) where
    derive_keys_lem : (b : Bool) → derive_keys prim b z rn ni ai aa ≡ ok (keys_of b)
    unfolding derive_keys sxor
    derive_keys_lem b = ground (arith, sizes (z ++ aes_secret))

    setup_cipher_lem :
        (s : RlpxSession A H)
        → Seen s rn ni ai aa z
        → setup_cipher prim s ≡ (record s { keys = some (keys_of s.is_initiator) }, ok tt)
    unfolding setup_cipher
    setup_cipher_lem s v = ground (arith, derive_keys_lem s.is_initiator)

-- The keys of two ends, of which one is the initiator, are in sync.
opposite :
    {A H : Type 0} (prim : Primitives A H) {Paired : A → A → Type 0} (laws : IsCipher prim Paired)
    (rn ni ai aa z : Bytes) (a b : Bool)
    → a ≡ not b
    → InSync Paired (keys_of prim rn ni ai aa z a) (keys_of prim rn ni ai aa z b)
opposite prim laws rn ni ai aa z true true e = absurd (false≢true (sym e))
opposite prim laws rn ni ai aa z false false e = absurd (false≢true e)
opposite prim laws rn ni ai aa z true false e = record {
  secrets = refl;
  macs = refl;
  streams = laws.new-Paired (aes_secret prim rn ni ai aa z);
}
opposite prim laws rn ni ai aa z false true e = record {
  secrets = refl;
  macs = refl;
  streams = laws.new-Paired (aes_secret prim rn ni ai aa z);
}

module _ {A H : Type 0} (prim : Primitives A H) {Paired : A → A → Type 0}
    (laws : IsCipher prim Paired) (sizes : (x : Bytes) → length (prim.sha3 x) ≡ 32) where
  -- An initiator and a responder that have seen the same nonces of 32 bytes, the same two messages
  -- and agree on the ephemeral secret both get their keys from `setup_cipher`, and become two ends in
  -- sync, in both directions.
  pub setup_cipher-Synced :
      (s r : RlpxSession A H) (responder_nonce initiator_nonce auth_init auth_ack ecdhe : Bytes)
      → s.is_initiator ≡ true
      → r.is_initiator ≡ false
      → length responder_nonce ≡ 32
      → length initiator_nonce ≡ 32
      → Seen s responder_nonce initiator_nonce auth_init auth_ack ecdhe
      → Seen r responder_nonce initiator_nonce auth_init auth_ack ecdhe
      → ((setup_cipher prim s).1 ≡ ok tt)
        × ((setup_cipher prim r).1 ≡ ok tt)
        × Synced Paired (some (setup_cipher prim s).0) (some (setup_cipher prim r).0)
        × Synced Paired (some (setup_cipher prim r).0) (some (setup_cipher prim s).0)
  setup_cipher-Synced s r rn ni ai aa z i_s i_r rn_size ni_size seen_s seen_r =
      let end_s = setup_cipher_lem prim rn ni ai aa z sizes rn_size ni_size s seen_s in
      let end_r = setup_cipher_lem prim rn ni ai aa z sizes rn_size ni_size r seen_r in
      let k_s = keys_of prim rn ni ai aa z s.is_initiator in
      let k_r = keys_of prim rn ni ai aa z r.is_initiator in
      (
        ap (λ x. x.1) end_s,
        ap (λ x. x.1) end_r,
        subst₂ (λ x y. Synced Paired (some x) (some y)) (sym (ap (λ x. x.0) end_s))
            (sym (ap (λ x. x.0) end_r))
            (synced (record s { keys = some k_s }) (record r { keys = some k_r }) k_s k_r refl refl
              (opposite prim laws rn ni ai aa z s.is_initiator r.is_initiator
                (i_s ∙ ap not (sym i_r)))),
        subst₂ (λ x y. Synced Paired (some x) (some y)) (sym (ap (λ x. x.0) end_r))
            (sym (ap (λ x. x.0) end_s))
            (synced (record r { keys = some k_r }) (record s { keys = some k_s }) k_r k_s refl refl
              (opposite prim laws rn ni ai aa z r.is_initiator s.is_initiator
                (i_r ∙ ap not (sym i_s)))),
      )
