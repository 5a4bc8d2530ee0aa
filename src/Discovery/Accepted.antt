-- ===== src/Discovery/Accepted.antt =====
-- `receive` of pydevp2p/devp2p/discovery.py on the datagrams that `pack` makes.
use structured_p2p_overlay_n.Prelude.{
  ap₂, ℕ, zero, suc, ◌+◌, ◌*◌, ◌≤◌, List, [], ◌∷◌, ◌++◌, length, take, drop, head?, ltb,
  if◌then◌else◌, none, some, ok, ◌≡◌, refl, ap, ◌∙◌, sym, arith, append_assoc, take-length-append,
  drop-length-append, length-append,
}
use structured_p2p_overlay_n.Prelude.Bytes.{Bytes, bytes_eq_self}
use structured_p2p_overlay_n.Discovery.Items.{
  Item, Items, blob, group, to_list, of_list, to_list-of_list, ItemCodec, Signing, ReadsBack,
  IsSigning,
}
use structured_p2p_overlay_n.Discovery.Datagram.{
  Cmd, ping, pong, find_node, neighbours, cmd_id_map, rev_cmd_id_map, cmd_elem_count_map, pop,
  as_list, Unpacked, expires, pack, unpack, unpack_fresh, receive,
}

pop-append : (l : List Item) (i : Item) → pop (l ++ i ∷ []) ≡ some (l, i)
unfolding pop
pop-append [] i = refl
pop-append (j ∷ []) i = refl
pop-append (j ∷ k ∷ l) i = rw (pop-append (k ∷ l) i) refl

take-whole : (n : ℕ) (l : List Item) → length l ≤ n → take n l ≡ l
take-whole zero [] h = refl
take-whole zero (i ∷ l) h = ground arith
take-whole (suc n) [] h = refl
take-whole (suc n) (i ∷ l) h = ap (λ z. i ∷ z) (take-whole n l (omega arith))

rev-cmd_id_map : (cmd : Cmd) → rev_cmd_id_map (cmd_id_map cmd) ≡ some cmd
unfolding rev_cmd_id_map cmd_id_map
rev-cmd_id_map ping = refl
rev-cmd_id_map pong = refl
rev-cmd_id_map find_node = refl
rev-cmd_id_map neighbours = refl

-- the parts of a datagram
module _ (mdc signature : Bytes) (c : ℕ) (encoded : Bytes) (m : length mdc ≡ 32)
    (s : length signature ≡ 65) where
  drop_98 : drop 98 (mdc ++ (signature ++ (c ∷ encoded))) ≡ encoded
  drop_98 =
      ap (drop 98) (sym (append_assoc mdc signature (c ∷ encoded)))
      ∙ ap (drop 98) (sym (append_assoc (mdc ++ signature) (c ∷ []) encoded))
      ∙ drop-length-append ((mdc ++ signature) ++ c ∷ []) encoded 98
          (omega (arith, length-append mdc signature, length-append (mdc ++ signature) (c ∷ [])))

  drop_97 : drop 97 (mdc ++ (signature ++ (c ∷ encoded))) ≡ c ∷ encoded
  drop_97 =
      ap (drop 97) (sym (append_assoc mdc signature (c ∷ encoded)))
      ∙ drop-length-append (mdc ++ signature) (c ∷ encoded) 97
          (omega (arith, length-append mdc signature))

  drop_32 : drop 32 (mdc ++ (signature ++ (c ∷ encoded))) ≡ signature ++ (c ∷ encoded)
  drop_32 = drop-length-append mdc (signature ++ (c ∷ encoded)) 32 (sym m)

  take_65 : take 65 (drop 32 (mdc ++ (signature ++ (c ∷ encoded)))) ≡ signature
  take_65 = ap (take 65) drop_32 ∙ take-length-append signature (c ∷ encoded) 65 (sym s)

module _ (codec : ItemCodec) (crypto : Signing) where
  -- `unpack`, given what its calls return
  unpack_returns :
      (message key : Bytes) (cmd : Cmd) (l : List Item) (is : Items)
      → take 32 message ≡ crypto.sha3 (drop 32 message)
      → length (take 65 (drop 32 message)) ≡ 65
      → crypto.ecdsa_recover (crypto.sha3 (drop 97 message)) (take 65 (drop 32 message)) ≡ ok key
      → length key ≡ 64
      → head? (drop 97 message) ≡ some (cmd_id_map cmd)
      → codec.decode (drop 98 message) ≡ ok (group is)
      → take (cmd_elem_count_map cmd) (to_list is) ≡ l
      → unpack codec crypto message
        ≡ ok (record { remote_pubkey = key; cmd = cmd; payload = l; mdc = take 32 message })
  unfolding unpack as_list
  unpack_returns message key cmd l is mac sig rec key_length cmd_id read taken =
      ground (arith, bytes_eq_self (crypto.sha3 (drop 32 message)), rev-cmd_id_map cmd)

  unpack_parts :
      (mdc signature encoded key : Bytes) (cmd : Cmd) (l : List Item)
      → length mdc ≡ 32
      → length signature ≡ 65
      → crypto.sha3 (signature ++ (cmd_id_map cmd ∷ encoded)) ≡ mdc
      → crypto.ecdsa_recover (crypto.sha3 (cmd_id_map cmd ∷ encoded)) signature ≡ ok key
      → length key ≡ 64
      → codec.decode encoded ≡ ok (group (of_list l))
      → length l ≤ cmd_elem_count_map cmd
      → unpack codec crypto (mdc ++ (signature ++ (cmd_id_map cmd ∷ encoded)))
        ≡ ok (record {
          remote_pubkey = key;
          cmd = cmd;
          payload = l;
          mdc = take 32 (mdc ++ (signature ++ (cmd_id_map cmd ∷ encoded)));
        })
  unpack_parts mdc signature encoded key cmd l m s mac rec key_length read short =
      let c = cmd_id_map cmd in
      let d97 = drop_97 mdc signature c encoded m s in
      let t65 = take_65 mdc signature c encoded m s in
      unpack_returns (mdc ++ (signature ++ (c ∷ encoded))) key cmd l (of_list l)
        (take-length-append mdc (signature ++ (c ∷ encoded)) 32 (sym m)
          ∙ sym mac
          ∙ ap crypto.sha3 (sym (drop_32 mdc signature c encoded m s)))
        (ap length t65 ∙ s) (ap₂ (λ x y. crypto.ecdsa_recover (crypto.sha3 x) y) d97 t65 ∙ rec)
        key_length (ap head? d97) (ap codec.decode (drop_98 mdc signature c encoded m s) ∙ read)
        (ap (take (cmd_elem_count_map cmd)) (to_list-of_list l) ∙ take-whole _ l short)

  receive_returns :
      (now time : ℕ) (message : Bytes) (u : Unpacked) (l : List Item) (i : Item)
      → unpack codec crypto message ≡ ok u
      → pop u.payload ≡ some (l, i)
      → codec.deserialize i ≡ ok time
      → receive codec crypto now message
        ≡ ok (if ltb (time * 1_000) now then none else some (record u { payload = l }))
  unfolding receive unpack_fresh
  receive_returns now time message u l i unpacked popped read = ground arith

module _ (codec : ItemCodec) (crypto : Signing) (privkey pubkey : Bytes)
    (signing : IsSigning crypto privkey pubkey) where
  -- What `pack` makes of at most as many elements as the command has, with the expiration, is
  -- received until it expires, with the public key of the sender, the command, the payload and its
  -- hash; later it is dropped.
  pub receive-pack :
      (cmd : Cmd) (payload : List Item) (now later : ℕ)
      → length payload + 1 ≤ cmd_elem_count_map cmd
      → ReadsBack codec (payload ++ blob (codec.serialize (expires now)) ∷ [])
      → (message : Bytes) × (pack codec crypto now privkey cmd payload ≡ ok message)
        × (receive codec crypto later message
            ≡ ok (
                if ltb (expires now * 1_000) later
                then none
                else some (record {
                  remote_pubkey = pubkey;
                  cmd = cmd;
                  payload = payload;
                  mdc = take 32 message;
                })))
  unfolding pack
  receive-pack cmd payload now later short reads =
      let last = blob (codec.serialize (expires now)) in
      let sent = cmd_id_map cmd ∷ codec.encode (payload ++ last ∷ []) in
      let signature = crypto.sign (crypto.sha3 sent) privkey in
      let mdc = crypto.sha3 (signature ++ sent) in
      let m = signing.length-sha3 (signature ++ sent) in
      let s = signing.length-sign (crypto.sha3 sent) in
      let message = mdc ++ (signature ++ sent) in
      let sized = length-append payload (last ∷ []) in
      (
        message,
        ground (arith, m, s),
        receive_returns codec crypto later (expires now) message _ payload last
            (unpack_parts codec crypto mdc signature (codec.encode (payload ++ last ∷ [])) pubkey
              cmd (payload ++ last ∷ []) m s refl (signing.recover-sign sent) signing.length-pubkey
              reads.decode-encode (omega (arith, sized)))
            (pop-append payload last) (reads.deserialize-serialize _),
      )
