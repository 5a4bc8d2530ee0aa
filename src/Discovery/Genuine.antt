-- ===== src/Discovery/Genuine.antt =====
-- What a datagram is like that `receive` of pydevp2p/devp2p/discovery.py hands on.
use structured_p2p_overlay_n.Prelude.{
  check-eq-ok, ◌++◌, refl, length-append, Option-cases, inl, inr, >>=-eq-ok, of_option-eq-ok, ℕ,
  ◌*◌, ◌≤◌, ◌<◌, List, [], ◌∷◌, length, take, drop, head?, true, false, ltb, if◌then◌else◌, some,
  Result, ok, err, check, of_option, ◌≡◌, refl, ap, ◌∙◌, sym, arith, ok-injective, subst, wrong_mac,
  assertion_error, index_error, key_error, packet_expired, ◌==◌, ==_iff, length-take,
}
use structured_p2p_overlay_n.Prelude.Bytes.{Bytes, bytes_eq, bytes_eq→eq}
use structured_p2p_overlay_n.Discovery.Items.{Item, ItemCodec, Signing}
use structured_p2p_overlay_n.Discovery.Datagram.{
  Cmd, ping, pong, find_node, neighbours, cmd_id_map, rev_cmd_id_map, cmd_elem_count_map, pop,
  as_list, Unpacked, unpack, unpack_fresh, receive, drop_defective,
}

pop-inverse : (l : List Item) (p : List Item × Item) → pop l ≡ some p → l ≡ p.0 ++ p.1 ∷ []
unfolding pop
pop-inverse [] p h = cc
pop-inverse (j ∷ []) p h = cc
pop-inverse (j ∷ k ∷ l) p h = elim (Option-cases (pop (k ∷ l))) [
  | inl e ↦ ground arith
  | inr q ↦ ground (arith, ap (λ z. j ∷ z) (pop-inverse (k ∷ l) q.0 q.1))
]

rev_cmd_id_map-inverse : (n : ℕ) (cmd : Cmd) → rev_cmd_id_map n ≡ some cmd → cmd_id_map cmd ≡ n
unfolding rev_cmd_id_map cmd_id_map
rev_cmd_id_map-inverse n ping h = ground arith
rev_cmd_id_map-inverse n pong h = ground arith
rev_cmd_id_map-inverse n find_node h = ground arith
rev_cmd_id_map-inverse n neighbours h = ground arith

length-take-le : (n : ℕ) (l : List Item) → length (take n l) ≤ n
length-take-le n l = omega (arith, length-take n l)

-- A datagram that `unpack` accepts; `items` is the whole list that was read.
record Opened (codec : ItemCodec) (crypto : Signing) (message : Bytes) (u : Unpacked) : Type 0 where
  mac : take 32 message ≡ crypto.sha3 (drop 32 message)
  signer :
      crypto.ecdsa_recover (crypto.sha3 (drop 97 message)) (take 65 (drop 32 message))
      ≡ ok u.remote_pubkey
  length_signer : length u.remote_pubkey ≡ 64
  cmd_id : head? (drop 97 message) ≡ some (cmd_id_map u.cmd)
  identity : u.mdc ≡ take 32 message
  few : length u.payload ≤ cmd_elem_count_map u.cmd
  item : Item
  items : List Item
  decoded : codec.decode (drop 98 message) ≡ ok item
  listed : as_list item ≡ ok items
  trimmed : take (cmd_elem_count_map u.cmd) items ≡ u.payload

module _ (codec : ItemCodec) (crypto : Signing) where
  unpack-Opened :
      (message : Bytes) (u : Unpacked)
      → unpack codec crypto message ≡ ok u
      → Opened codec crypto message u
  unfolding unpack
  unpack-Opened message u h =
      let (_, same, h1) =
        >>=-eq-ok (check (bytes_eq (take 32 message) (crypto.sha3 (drop 32 message))) wrong_mac) _
          h in
      let (_, _, h2) =
        >>=-eq-ok (check (length (take 65 (drop 32 message)) == 65) assertion_error) _ h1 in
      let (key, signer, h3) =
        >>=-eq-ok (crypto.ecdsa_recover (crypto.sha3 (drop 97 message)) (take 65 (drop 32 message)))
          _ h2 in
      let (_, sized, h4) = >>=-eq-ok (check (length key == 64) assertion_error) _ h3 in
      let (c, first, h5) = >>=-eq-ok (of_option index_error (head? (drop 97 message))) _ h4 in
      let (cmd, known, h6) = >>=-eq-ok (of_option key_error (rev_cmd_id_map c)) _ h5 in
      let (item, decoded, h7) = >>=-eq-ok (codec.decode (drop 98 message)) _ h6 in
      let (l, listed, h8) = >>=-eq-ok (as_list item) _ h7 in
      let result = ok-injective h8 in
      record {
        mac = bytes_eq→eq _ _ (check-eq-ok _ _ same);
        signer = signer ∙ ap (λ (z : Unpacked). ok z.remote_pubkey) result;
        length_signer =
            ap (λ (z : Unpacked). length z.remote_pubkey) (sym result)
            ∙ (==_iff (length key) 64).0 (check-eq-ok _ _ sized);
        cmd_id =
            of_option-eq-ok index_error _ first
            ∙ ap some (sym (rev_cmd_id_map-inverse c cmd (of_option-eq-ok key_error _ known)))
            ∙ ap (λ (z : Unpacked). some (cmd_id_map z.cmd)) result;
        identity = ap (λ (z : Unpacked). z.mdc) (sym result);
        few =
            subst (λ (z : Unpacked). length z.payload ≤ cmd_elem_count_map z.cmd) result
              (length-take-le (cmd_elem_count_map cmd) l);
        item = item;
        items = l;
        decoded = decoded;
        listed = listed;
        trimmed =
            subst (λ (z : Unpacked). take (cmd_elem_count_map z.cmd) l ≡ z.payload) result refl;
      }

-- A datagram that `receive` hands on: `items` is the list in it, and `last` the expiration in that.
pub record Genuine (codec : ItemCodec) (crypto : Signing) (now : ℕ) (message : Bytes) (u : Unpacked)
    : Type 0 where
  pub mac : take 32 message ≡ crypto.sha3 (drop 32 message)
  pub signer :
      crypto.ecdsa_recover (crypto.sha3 (drop 97 message)) (take 65 (drop 32 message))
      ≡ ok u.remote_pubkey
  pub length_signer : length u.remote_pubkey ≡ 64
  pub cmd_id : head? (drop 97 message) ≡ some (cmd_id_map u.cmd)
  pub identity : u.mdc ≡ take 32 message
  pub item : Item
  pub items : List Item
  pub last : Item
  pub time : ℕ
  pub decoded : codec.decode (drop 98 message) ≡ ok item
  pub listed : as_list item ≡ ok items
  pub trimmed : take (cmd_elem_count_map u.cmd) items ≡ u.payload ++ last ∷ []
  pub expires_at : codec.deserialize last ≡ ok time
  pub fresh : now ≤ time * 1_000
  pub few : length u.payload < cmd_elem_count_map u.cmd

drop_defective-eq-some :
    (r : Result Unpacked) {u : Unpacked} → drop_defective r ≡ ok (some u) → r ≡ ok u
drop_defective-eq-some (ok v) h = cc
drop_defective-eq-some (err e) h = ground arith

fresh-lem :
    (now time : ℕ) {t : Unit {0}}
    → check (if ltb (time * 1_000) now then false else true) packet_expired ≡ ok t
    → now ≤ time * 1_000
fresh-lem now time h = ground arith

module _ (codec : ItemCodec) (crypto : Signing) where
  -- A datagram that `receive` hands on is genuine: it starts with the hash of the rest, its signature
  -- is by the public key of 64 bytes that it is handed on with, over what follows it, it has the
  -- id of the command, the list in it, cut to the length for the command, is the payload and an
  -- expiration, and this is not in the past.
  pub receive-Genuine :
      (now : ℕ) (message : Bytes) (u : Unpacked)
      → receive codec crypto now message ≡ ok (some u)
      → Genuine codec crypto now message u
  unfolding receive unpack_fresh
  receive-Genuine now message u h =
      let (v, opened, h1) =
        >>=-eq-ok (unpack codec crypto message) _ (drop_defective-eq-some _ h) in
      let (p, popped, h2) = >>=-eq-ok (of_option index_error (pop v.payload)) _ h1 in
      let (time, expires_at, h3) = >>=-eq-ok (codec.deserialize p.1) _ h2 in
      let (_, now_le, h4) =
        >>=-eq-ok (check (if ltb (time * 1_000) now then false else true) packet_expired) _ h3 in
      let o = unpack-Opened codec crypto message v opened in
      let parts = pop-inverse v.payload p (of_option-eq-ok index_error _ popped) in
      let few = o.few in
      let open_v : Genuine codec crypto now message (record v { payload = p.0 }) = record {
        mac = o.mac;
        signer = o.signer;
        length_signer = o.length_signer;
        cmd_id = o.cmd_id;
        identity = o.identity;
        item = o.item;
        items = o.items;
        last = p.1;
        time = time;
        decoded = o.decoded;
        listed = o.listed;
        trimmed = o.trimmed ∙ parts;
        expires_at = expires_at;
        fresh = fresh-lem now time now_le;
        few = omega (arith, ap length parts, length-append p.0 (p.1 ∷ []), few);
      } in
      subst (Genuine codec crypto now message) (ok-injective h4) open_v
