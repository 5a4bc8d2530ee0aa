-- ===== src/Crypto/Authentic.antt =====
-- The messages that `ecies_decrypt` of pydevp2p/devp2p/crypto.py decrypts.
use structured_p2p_overlay_n.Prelude.{
  ℕ, zero, suc, ◌+◌, ◌-◌, ◌≤◌, ◌≡◌, refl, sym, ap, ap₂, subst, ◌∙◌, ◌↔◌, arith, [], ◌∷◌, ◌++◌,
  length, length-take, length-drop, take, drop, take-append-drop, true, ◌==◌, ok, check,
  check-eq-ok, ==_iff, >>=-eq-ok, ok-injective, assertion_error, runtime_error,
}
use structured_p2p_overlay_n.Prelude.Bytes.{Bytes, bytes_eq, bytes_eq→eq}
use structured_p2p_overlay_n.Crypto.Ecies.{
  Primitives, SharedKeys, shared_keys, ecies_tag, ecies_decrypt, last_bytes, without_last,
}
use structured_p2p_overlay_n.Crypto.Delivered.{
  IsPrimitives, front, length-front, last_tag, without_tag, drop_key, drop_iv, take_key, take_iv,
  decrypt_returns,
}

-- The byte 4, a public key, an iv, a text, and the tag of iv, text and the shared mac data under the
-- mac key of the secret shared with that public key; `plain` is the text decrypted.
pub record Authentic (prim : Primitives) (raw_privkey message shared_mac_data plain : Bytes)
    : Type 0 where
  pub pubkey : Bytes
  pub iv : Bytes
  pub text : Bytes
  pub tag : Bytes
  pub keys : SharedKeys
  pub layout : message ≡ front pubkey iv text ++ tag
  pub length-pubkey : length pubkey ≡ 64
  pub length-iv : length iv ≡ 16
  pub length-tag : length tag ≡ 32
  pub derived : shared_keys prim raw_privkey pubkey ≡ ok keys
  pub tagged : ecies_tag prim keys (iv ++ text) shared_mac_data ≡ tag
  pub decrypted : prim.decipher keys.key_enc iv text ≡ plain

drop-drop : (a b : ℕ) (w : Bytes) → drop a (drop b w) ≡ drop (a + b) w
drop-drop a zero w = let e : a ≡ a + 0 = omega arith in ap (λ n. drop n w) e
drop-drop zero (suc b) [] = let e : suc b ≡ 0 + suc b = omega arith in ap (λ n. drop n []) e
drop-drop (suc a) (suc b) [] =
    let e : suc (a + suc b) ≡ suc a + suc b = omega arith in ap (λ n. drop n []) e
drop-drop a (suc b) (x ∷ w) =
    let e : suc (a + b) ≡ a + suc b = omega arith in drop-drop a b w ∙ ap (λ n. drop n (x ∷ w)) e

-- what lies in the front of two lists
take-drop-append :
    (k n : ℕ) (w t : Bytes) → n + k ≤ length w → take k (drop n (w ++ t)) ≡ take k (drop n w)
take-drop-append zero n w t h = ground arith
take-drop-append (suc k) zero [] t h = let impossible : ⊥ = omega arith in absurd impossible
take-drop-append (suc k) zero (x ∷ w) t h = ap (λ z. x ∷ z) (take-drop-append k 0 w t (omega arith))
take-drop-append (suc k) (suc n) [] t h = let impossible : ⊥ = omega arith in absurd impossible
take-drop-append (suc k) (suc n) (x ∷ w) t h = take-drop-append (suc k) n w t (omega arith)

cut :
    (w : Bytes)
    → take 1 w ≡ 4 ∷ []
    → w ≡ front (take 64 (drop 1 w)) (take 16 (drop 65 w)) (drop 81 w)
cut [] h = cc
cut (x ∷ w) h = sym (
    ap₂ (λ (a : Bytes) (b : Bytes). a ++ b) (sym h)
      (ap (λ z. take 64 w ++ (take 16 (drop 64 w) ++ z)) (sym (drop-drop 16 64 w))
        ∙ ap (λ z. take 64 w ++ z) (take-append-drop 16 (drop 64 w))
        ∙ take-append-drop 64 w))

-- the checks that a decrypted message has passed
record Checked (prim : Primitives) (raw_privkey message shared_mac_data plain : Bytes)
    : Type 0 where
  keys : SharedKeys
  first : take 1 message ≡ 4 ∷ []
  derived : shared_keys prim raw_privkey (take 64 (drop 1 message)) ≡ ok keys
  tag32 : length (last_bytes 32 message) ≡ 32
  tagged :
      prim.equals
        (ecies_tag prim keys (drop 65 (without_last 32 message)) shared_mac_data)
        (last_bytes 32 message)
      ≡ true
  iv16 : length (take prim.blocksize (drop 65 message)) ≡ 16
  decrypted :
      prim.decipher keys.key_enc
        (take prim.blocksize (drop 65 message))
        (drop (65 + prim.blocksize) (without_last 32 message))
      ≡ plain
  whole :
      1
        + length (take 64 (drop 1 message))
        + length (take prim.blocksize (drop 65 message))
        + length (drop (65 + prim.blocksize) (without_last 32 message))
        + length (last_bytes 32 message)
      ≡ length message

checked_lem :
    (prim : Primitives) (raw_privkey message shared_mac_data plain : Bytes)
    → ecies_decrypt prim raw_privkey message shared_mac_data ≡ ok plain
    → Checked prim raw_privkey message shared_mac_data plain
unfolding ecies_decrypt
checked_lem prim raw_privkey message shared_mac_data plain h =
    let shared = take 64 (drop 1 message) in
    let w = without_last 32 message in
    let (_, first, h1) = >>=-eq-ok (check (bytes_eq (take 1 message) (4 ∷ [])) runtime_error) _ h in
    let (keys, derived, h2) = >>=-eq-ok (shared_keys prim raw_privkey shared) _ h1 in
    let (_, t32, h3) =
      >>=-eq-ok (check (length (last_bytes 32 message) == 32) assertion_error) _ h2 in
    let (_, tagged, h4) =
      >>=-eq-ok
        (check
          (prim.equals (ecies_tag prim keys (drop 65 w) shared_mac_data) (last_bytes 32 message))
          runtime_error)
        _ h3 in
    let (_, i16, h5) =
      >>=-eq-ok (check (length (take prim.blocksize (drop 65 message)) == 16) assertion_error) _
        h4 in
    let (_, sized, h6) =
      >>=-eq-ok
        (check
          (1
              + length shared
              + length (take prim.blocksize (drop 65 message))
              + length (drop (65 + prim.blocksize) w)
              + length (last_bytes 32 message)
            == length message)
          assertion_error)
        _ h5 in
    record {
      keys = keys;
      first = bytes_eq→eq _ _ (check-eq-ok _ _ first);
      derived = derived;
      tag32 = (==_iff _ _).0 (check-eq-ok _ _ t32);
      tagged = check-eq-ok _ _ tagged;
      iv16 = (==_iff _ _).0 (check-eq-ok _ _ i16);
      decrypted = ok-injective h6;
      whole = (==_iff _ _).0 (check-eq-ok _ _ sized);
    }

module _ (prim : Primitives) (laws : IsPrimitives prim)
    (raw_privkey message shared_mac_data plain : Bytes) where
  accepted_lem :
      Checked prim raw_privkey message shared_mac_data plain
      → Authentic prim raw_privkey message shared_mac_data plain
  accepted_lem c =
      let w = without_last 32 message in
      let t = last_bytes 32 message in
      let joined : w ++ t ≡ message = take-append-drop (length message - 32) message in
      let iv16 : length (take 16 (drop 65 message)) ≡ 16 =
        subst (λ n. length (take n (drop 65 message)) ≡ 16) laws.blocksize_lem c.iv16 in
      let whole : 1
            + length (take 64 (drop 1 message))
            + length (take 16 (drop 65 message))
            + length (drop 81 w)
            + length t
          ≡ length message =
        subst
          (λ n.
            1
              + length (take 64 (drop 1 message))
              + length (take n (drop 65 message))
              + length (drop (65 + n) w)
              + length t
            ≡ length message)
          laws.blocksize_lem c.whole in
      let long : 81 ≤ length w = omega (
        arith,
        whole,
        iv16,
        length-take 16 (drop 65 message),
        length-drop 65 message,
        length-take 64 (drop 1 message),
        length-drop 1 message,
        length-take (length message - 32) message,
        c.tag32,
      ) in
      let first_w : take 1 w ≡ 4 ∷ [] =
        sym (take-drop-append 1 0 w t (omega arith)) ∙ ap (take 1) joined ∙ c.first in
      let key_w : take 64 (drop 1 message) ≡ take 64 (drop 1 w) =
        ap (λ z. take 64 (drop 1 z)) (sym joined) ∙ take-drop-append 64 1 w t (omega arith) in
      let iv_w : take 16 (drop 65 message) ≡ take 16 (drop 65 w) =
        ap (λ z. take 16 (drop 65 z)) (sym joined) ∙ take-drop-append 16 65 w t (omega arith) in
      let body : take 16 (drop 65 w) ++ drop 81 w ≡ drop 65 w =
        ap (λ z. take 16 (drop 65 w) ++ z) (sym (drop-drop 16 65 w))
        ∙ take-append-drop 16 (drop 65 w) in
      record {
        pubkey = take 64 (drop 1 w);
        iv = take 16 (drop 65 w);
        text = drop 81 w;
        tag = t;
        keys = c.keys;
        layout = sym joined ∙ ap (λ z. z ++ t) (cut w first_w);
        length-pubkey = omega (arith, length-take 64 (drop 1 w), length-drop 1 w);
        length-iv = ap length (sym iv_w) ∙ iv16;
        length-tag = c.tag32;
        derived = subst (λ z. shared_keys prim raw_privkey z ≡ ok c.keys) key_w c.derived;
        tagged =
            ap (λ z. ecies_tag prim c.keys z shared_mac_data) body
            ∙ (laws.equals_iff _ _).0 c.tagged;
        decrypted =
            ap (λ z. prim.decipher c.keys.key_enc z (drop 81 w)) (sym iv_w)
            ∙ subst
                (λ n.
                  prim.decipher c.keys.key_enc (take n (drop 65 message)) (drop (65 + n) w) ≡ plain)
                laws.blocksize_lem c.decrypted;
      }

  rejoined :
      Authentic prim raw_privkey message shared_mac_data plain
      → ecies_decrypt prim raw_privkey message shared_mac_data ≡ ok plain
  rejoined a =
      subst (λ z. ecies_decrypt prim raw_privkey z shared_mac_data ≡ ok plain) (sym a.layout)
        (decrypt_returns prim laws raw_privkey (front a.pubkey a.iv a.text ++ a.tag) a.pubkey a.iv
            a.text a.tag shared_mac_data a.keys refl
            (take_key a.pubkey a.iv a.text a.tag a.length-pubkey a.length-iv a.length-tag) a.derived
            (last_tag a.pubkey a.iv a.text a.tag a.length-pubkey a.length-iv a.length-tag)
            (ap (λ z. ecies_tag prim a.keys (drop 65 z) shared_mac_data)
                (without_tag a.pubkey a.iv a.text a.tag a.length-pubkey a.length-iv a.length-tag)
              ∙ ap (λ z. ecies_tag prim a.keys z shared_mac_data)
                  (drop_key a.pubkey a.iv a.text a.tag a.length-pubkey a.length-iv a.length-tag)
              ∙ a.tagged)
            (take_iv a.pubkey a.iv a.text a.tag a.length-pubkey a.length-iv a.length-tag)
            (ap (drop 81)
                (without_tag a.pubkey a.iv a.text a.tag a.length-pubkey a.length-iv a.length-tag)
              ∙ drop_iv a.pubkey a.iv a.text a.tag a.length-pubkey a.length-iv a.length-tag)
            a.length-pubkey a.length-iv a.length-tag
            (length-front a.pubkey a.iv a.text a.tag a.length-pubkey a.length-iv a.length-tag)
          ∙ ap ok a.decrypted)

  -- Where the comparison of tags is equality and the block size 16, a message is decrypted exactly if
  -- it is the byte 4, a public key of 64 bytes, an iv of 16, a text and a tag of 32, and the tag is
  -- that of the iv, the text and the shared mac data, under the mac key of the secret shared with the
  -- public key; the result is the text decrypted under the other key of that secret.
  pub ecies_decrypt-Authentic :
      (ecies_decrypt prim raw_privkey message shared_mac_data ≡ ok plain)
      ↔ Authentic prim raw_privkey message shared_mac_data plain
  ecies_decrypt-Authentic =
      (λ h. accepted_lem (checked_lem prim raw_privkey message shared_mac_data plain h), rejoined)
