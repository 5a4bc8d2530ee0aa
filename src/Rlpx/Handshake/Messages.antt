-- ===== src/Rlpx/Handshake/Messages.antt =====
-- The auth and ack messages between two sessions that know the curve, pydevp2p/devp2p/rlpxcipher.py:
-- what each step of a handshake without EIP-8 leaves in the session.
use structured_p2p_overlay_n.Prelude.{
  ◌+◌, true, false, [], ◌∷◌, ◌++◌, length, take, drop, ok, ◌≡◌, refl, sym, ap, ◌∙◌, arith,
  length-append, take-length-append, drop-length-append, append_assoc,
}
use structured_p2p_overlay_n.Prelude.Bytes.{Bytes}
use structured_p2p_overlay_n.Rlpx.Session.{Primitives, Ecc, RlpxSession, xor_bytes}
use structured_p2p_overlay_n.Rlpx.Handshake.{Codec}

-- What `a` encrypts for the key of `b` is 113 bytes longer, and `b` decrypts it.
abbrev pub Carries : Ecc → Ecc → Type 0
Carries a b =
    (message shared : Bytes)
    → (sent : Bytes) × (a.ecies_encrypt message b.raw_pubkey shared ≡ ok sent)
      × (length sent ≡ 113 + length message)
      × (b.ecies_decrypt sent shared ≡ ok message)

-- An initiator `s` and a responder `r` whose keys are valid, agree pairwise on secrets, carry
-- messages to each other, and sign so that the key can be recovered.
pub record Parties {A H : Type 0} (prim : Primitives A H) (codec : Codec) (s r : RlpxSession A H)
    : Type 0 where
  pub initiates : s.is_initiator ≡ true
  pub responds : r.is_initiator ≡ false
  pub plain : r.got_eip8_auth ≡ false
  pub length-sha3 : (b : Bytes) → length (prim.sha3 b) ≡ 32
  pub length-static : length s.ecc.raw_pubkey ≡ 64
  pub length-ephemeral_s : length s.ephemeral_ecc.raw_pubkey ≡ 64
  pub length-ephemeral_r : length r.ephemeral_ecc.raw_pubkey ≡ 64
  pub s_knows_r : s.ecc.is_valid_key r.ecc.raw_pubkey ≡ true
  pub r_knows_s : r.ecc.is_valid_key s.ecc.raw_pubkey ≡ true
  pub s_valid : s.ecc.is_valid_key s.ephemeral_ecc.raw_pubkey ≡ true
  pub r_knows_ephemeral : r.ecc.is_valid_key s.ephemeral_ecc.raw_pubkey ≡ true
  pub s_knows_ephemeral : s.ecc.is_valid_key r.ephemeral_ecc.raw_pubkey ≡ true
  pub token : Bytes
  pub length-token : length token ≡ 32
  pub s_token : s.ecc.get_ecdh_key r.ecc.raw_pubkey ≡ ok token
  pub r_token : r.ecc.get_ecdh_key s.ecc.raw_pubkey ≡ ok token
  pub ecdhe : Bytes
  pub s_ecdhe : s.ephemeral_ecc.get_ecdh_key r.ephemeral_ecc.raw_pubkey ≡ ok ecdhe
  pub r_ecdhe : r.ephemeral_ecc.get_ecdh_key s.ephemeral_ecc.raw_pubkey ≡ ok ecdhe
  pub signs :
      (b : Bytes)
      → length b ≡ 32
      → (signature : Bytes) × (s.ephemeral_ecc.sign b ≡ ok signature)
        × (length signature ≡ 65)
        × (codec.ecdsa_recover b signature ≡ ok s.ephemeral_ecc.raw_pubkey)
  pub to_r : Carries s.ecc r.ecc
  pub to_s : Carries r.ecc s.ecc

pub length-xor_bytes : (a b : Bytes) → length a ≡ length b → length (xor_bytes a b) ≡ length a
unfolding xor_bytes
length-xor_bytes [] b h = refl
length-xor_bytes (x ∷ a) [] h = ground arith
length-xor_bytes (x ∷ a) (y ∷ b) h = omega (arith, length-xor_bytes a b (omega arith))

-- the auth message
abbrev pub auth_text : Bytes → Bytes → Bytes → Bytes → Bytes
auth_text signature digest pubkey nonce = signature ++ (digest ++ (pubkey ++ (nonce ++ 0 ∷ [])))

module _ (signature digest pubkey nonce : Bytes) (s65 : length signature ≡ 65)
    (d32 : length digest ≡ 32) (p64 : length pubkey ≡ 64) (n32 : length nonce ≡ 32) where
  pub length-auth_text : length (auth_text signature digest pubkey nonce) ≡ 194
  length-auth_text = omega (
    arith,
    length-append signature (digest ++ (pubkey ++ (nonce ++ 0 ∷ []))),
    length-append digest (pubkey ++ (nonce ++ 0 ∷ [])),
    length-append pubkey (nonce ++ 0 ∷ []),
    length-append nonce (0 ∷ []),
  )

  pub auth_signature : take 65 (auth_text signature digest pubkey nonce) ≡ signature
  auth_signature = take-length-append signature _ 65 (sym s65)

  behind_digest : drop 97 (auth_text signature digest pubkey nonce) ≡ pubkey ++ (nonce ++ 0 ∷ [])
  behind_digest =
      ap (drop 97) (sym (append_assoc signature digest (pubkey ++ (nonce ++ 0 ∷ []))))
      ∙ drop-length-append (signature ++ digest) _ 97
          (omega (arith, length-append signature digest))

  pub auth_pubkey : take 64 (drop 97 (auth_text signature digest pubkey nonce)) ≡ pubkey
  auth_pubkey = ap (take 64) behind_digest ∙ take-length-append pubkey _ 64 (sym p64)

  behind_pubkey : drop 161 (auth_text signature digest pubkey nonce) ≡ nonce ++ 0 ∷ []
  behind_pubkey =
      ap (drop 161) (sym (append_assoc signature digest (pubkey ++ (nonce ++ 0 ∷ []))))
      ∙ ap (drop 161) (sym (append_assoc (signature ++ digest) pubkey (nonce ++ 0 ∷ [])))
      ∙ drop-length-append ((signature ++ digest) ++ pubkey) _ 161 (
          omega (arith, length-append signature digest, length-append (signature ++ digest) pubkey))

  pub auth_nonce : take 32 (drop 161 (auth_text signature digest pubkey nonce)) ≡ nonce
  auth_nonce = ap (take 32) behind_pubkey ∙ take-length-append nonce _ 32 (sym n32)

  pub auth_flag : drop 193 (auth_text signature digest pubkey nonce) ≡ 0 ∷ []
  auth_flag =
      ap (drop 193) (sym (append_assoc signature digest (pubkey ++ (nonce ++ 0 ∷ []))))
      ∙ ap (drop 193) (sym (append_assoc (signature ++ digest) pubkey (nonce ++ 0 ∷ [])))
      ∙ ap (drop 193) (sym (append_assoc ((signature ++ digest) ++ pubkey) nonce (0 ∷ [])))
      ∙ drop-length-append (((signature ++ digest) ++ pubkey) ++ nonce) (0 ∷ []) 193 (
          omega (
            arith,
            length-append signature digest,
            length-append (signature ++ digest) pubkey,
            length-append ((signature ++ digest) ++ pubkey) nonce,
          ))

-- the ack message
abbrev pub ack_text : Bytes → Bytes → Bytes
ack_text pubkey nonce = pubkey ++ (nonce ++ 0 ∷ [])

module _ (pubkey nonce : Bytes) (p64 : length pubkey ≡ 64) (n32 : length nonce ≡ 32) where
  pub length-ack_text : length (ack_text pubkey nonce) ≡ 97
  length-ack_text =
      omega (arith, length-append pubkey (nonce ++ 0 ∷ []), length-append nonce (0 ∷ []))

  pub ack_pubkey : take 64 (ack_text pubkey nonce) ≡ pubkey
  ack_pubkey = take-length-append pubkey _ 64 (sym p64)

  pub ack_nonce : take 32 (drop 64 (ack_text pubkey nonce)) ≡ nonce
  ack_nonce =
      ap (take 32) (drop-length-append pubkey (nonce ++ 0 ∷ []) 64 (sym p64))
      ∙ take-length-append nonce (0 ∷ []) 32 (sym n32)

  pub ack_flag : drop 96 (ack_text pubkey nonce) ≡ 0 ∷ []
  ack_flag =
      ap (drop 96) (sym (append_assoc pubkey nonce (0 ∷ [])))
      ∙ drop-length-append (pubkey ++ nonce) (0 ∷ []) 96 (omega (arith, length-append pubkey nonce))
