-- ===== src/Discovery/Arrival.antt =====
-- Whole messages of pydevp2p/devp2p/discovery.py: a payload, packed, received and read.
use structured_p2p_overlay_n.Prelude.{
  ℕ, ◌+◌, ◌*◌, ◌≤◌, List, [], ◌∷◌, ◌++◌, length, take, All, map, some, Result, ok, ◌≡◌, refl, ap,
  ◌∙◌, ◌>>=◌, >>=-eq-ok, subst, ok-injective, arith, if◌then◌else◌, le→ltb, none,
}
use structured_p2p_overlay_n.Prelude.Bytes.{Bytes, from_be}
use structured_p2p_overlay_n.Prelude.Sort.{sorted}
use structured_p2p_overlay_n.Discovery.Items.{Item, blob, ItemCodec, Signing, ReadsBack, IsSigning}
use structured_p2p_overlay_n.Discovery.Datagram.{
  Cmd, find_node, neighbours, cmd_elem_count_map, Unpacked, expires, pack, receive,
}
use structured_p2p_overlay_n.Discovery.Accepted.{receive-pack}
use structured_p2p_overlay_n.Discovery.Endpoint.{AddressCodec, IsAddressCodec}
use structured_p2p_overlay_n.Discovery.Messages.{
  for_each_of, neighbour_item, DiscoveryNode, find_node_payload, read_find_node, neighbours_payload,
  read_neighbours,
}
use structured_p2p_overlay_n.Discovery.Exchange.{
  Sendable, low_ports, read-find_node_payload, read-neighbours_payload,
}

-- `built`, packed as `cmd` at `now`, is received at `later` from `pubkey` and read as `v`.
pub record Arrives {V : Type 0} (codec : ItemCodec) (crypto : Signing) (privkey pubkey : Bytes)
    (now later : ℕ) (cmd : Cmd) (built : Result (List Item)) (read : List Item → Result V) (v : V)
    : Type 0 where
  pub message : Bytes
  pub unpacked : Unpacked
  pub packed : (built >>= λ payload. pack codec crypto now privkey cmd payload) ≡ ok message
  pub received : receive codec crypto later message ≡ ok (some unpacked)
  pub from_sender : unpacked.remote_pubkey ≡ pubkey
  pub same_cmd : unpacked.cmd ≡ cmd
  pub is_read : read unpacked.payload ≡ ok v

-- The encoding of a payload and its expiration is read back.
abbrev pub IsEncoded : ItemCodec → ℕ → Result (List Item) → Type 0
IsEncoded codec now built =
    (payload : List Item)
    → built ≡ ok payload
    → ReadsBack codec (payload ++ blob (codec.serialize (expires now)) ∷ [])

module _ (codec : ItemCodec) (crypto : Signing) (privkey pubkey : Bytes)
    (signing : IsSigning crypto privkey pubkey) (now later : ℕ)
    (fresh : later ≤ expires now * 1_000) where
  built-Arrives :
      {V : Type 0} (cmd : Cmd) (built : Result (List Item)) (read : List Item → Result V) (v : V)
      → (built >>= read) ≡ ok v
      → ((payload : List Item) → built ≡ ok payload → length payload + 1 ≤ cmd_elem_count_map cmd)
      → IsEncoded codec now built
      → Arrives codec crypto privkey pubkey now later cmd built read v
  built-Arrives cmd built read v agree short encoded =
      let (payload, made, is_read) = >>=-eq-ok built read agree in
      let (message, packed, received) =
        receive-pack codec crypto privkey pubkey signing cmd payload now later (short payload made)
          (encoded payload made) in
      record {
        message = message;
        unpacked = record {
          remote_pubkey = pubkey;
          cmd = cmd;
          payload = payload;
          mdc = take 32 message;
        };
        packed =
            ap (λ (r : Result (List Item)). r >>= λ p. pack codec crypto now privkey cmd p) made
            ∙ packed;
        received =
            received
            ∙ ap
                (λ b. ok (
                  if b
                  then none
                  else some (record {
                    remote_pubkey = pubkey;
                    cmd = cmd;
                    payload = payload;
                    mdc = take 32 message;
                  })))
                (le→ltb (expires now * 1_000) later fresh);
        from_sender = refl;
        same_cmd = refl;
        is_read = is_read;
      }

  module _ (addresses : AddressCodec) (reads : IsAddressCodec addresses) where
    one_target :
        (target : ℕ) (payload : List Item)
        → find_node_payload codec target ≡ ok payload
        → length payload + 1 ≤ cmd_elem_count_map find_node
    unfolding find_node_payload cmd_elem_count_map
    one_target target payload made = ground arith

    -- Until it expires, a request for nodes near a target that is written in at most 64 bytes is
    -- received from the public key of its sender, and the target is read.
    pub find_node-Arrives :
        (target : ℕ)
        → length (codec.serialize target) ≤ 64
        → from_be 0 (codec.serialize target) ≡ target
        → IsEncoded codec now (find_node_payload codec target)
        → Arrives codec crypto privkey pubkey now later find_node
            (find_node_payload codec target)
            (read_find_node addresses)
            target
    find_node-Arrives target short written encoded =
        built-Arrives find_node (find_node_payload codec target) (read_find_node addresses) target
          (read-find_node_payload addresses reads codec target short written) (one_target target)
          encoded

    one_list :
        (ns : List DiscoveryNode) (payload : List Item)
        → neighbours_payload ns ≡ ok payload
        → length payload + 1 ≤ cmd_elem_count_map neighbours
    unfolding neighbours_payload cmd_elem_count_map
    one_list ns payload made =
        let (bs, _, h) =
          >>=-eq-ok (for_each_of neighbour_item (sorted (λ (n : DiscoveryNode). n.id) ns)) _ made in
        subst (λ (l : List Item). length l + 1 ≤ 2) (ok-injective h) (omega arith)

    -- Until it expires, a message with neighbours is received from the public key of its sender, and
    -- of the neighbours the twelve with the lowest ids are read, with the ports cut to 16 bits, if
    -- their ports are below 2 ^ 32, no ip is taken for a text and their public keys have 64 bytes.
    pub neighbours-Arrives :
        (ns : List DiscoveryNode)
        → All (Sendable addresses) ns
        → IsEncoded codec now (neighbours_payload ns)
        → Arrives codec crypto privkey pubkey now later neighbours
            (neighbours_payload ns)
            (read_neighbours addresses)
            (map (λ n. (n.pubkey, low_ports n.address)) (take 12 (sorted (λ n. n.id) ns)))
    neighbours-Arrives ns all encoded =
        built-Arrives neighbours (neighbours_payload ns) (read_neighbours addresses) _
          (read-neighbours_payload addresses reads ns all) (one_list ns) encoded
