-- ===== src/Discovery/Exchange.antt =====
-- The payloads of pydevp2p/devp2p/discovery.py, written at one end and read at the other.
use structured_p2p_overlay_n.Prelude.{
  true, some, ◌||◌, ◌==◌, ℕ, zero, suc, ◌-◌, ◌%◌, ◌^◌, ◌<◌, ◌≤◌, List, [], ◌∷◌, ◌++◌, length, take,
  drop, All, replicate, map, false, Result, ok, ◌>>=◌, ◌≡◌, refl, ap, sym, ◌∙◌, arith,
  length-append, length-replicate,
}
use structured_p2p_overlay_n.Prelude.Bytes.{Bytes, to_be, from_be}
use structured_p2p_overlay_n.Prelude.Sort.{sorted, All-sorted}
use structured_p2p_overlay_n.Kademlia.Node.{lstrip_zeros, big_endian_to_int}
use structured_p2p_overlay_n.Discovery.Items.{
  Item, blob, group, to_list, of_list, to_list-of_list, ItemCodec,
}
use structured_p2p_overlay_n.Discovery.Datagram.{pop}
use structured_p2p_overlay_n.Discovery.Endpoint.{
  Address, AddressCodec, IsAddressCodec, address_to_binary, from_binary, ip_pattern,
  from_binary-address_to_binary, enc_port, from_be-lstrip_zeros,
}
use structured_p2p_overlay_n.Discovery.Messages.{
  ping_payload, read_ping, pong_payload, read_pong, endpoint_of, item_length, DiscoveryNode,
  for_each_of, to_endpoint, from_endpoint, neighbour_item, neighbours_payload, read_neighbour,
  read_neighbours, find_node_payload, read_find_node, rjust, item_bytes, bytes_of, item_or_else,
}

-- the address with the low 16 bits of its ports
abbrev pub low_ports : Address → Address
low_ports a = record a { udp_port = a.udp_port % 2 ^ 16; tcp_port = a.tcp_port % 2 ^ 16 }

-- ports that can be packed, an ip that is read as packed
pub record SendableAddress (codec : AddressCodec) (a : Address) : Type 0 where
  pub udp : a.udp_port < 2 ^ 32
  pub tcp : a.tcp_port < 2 ^ 32
  pub binary : ip_pattern a.ip ≡ false
  pub packed : codec.of_packed a.ip ≡ ok a.ip

pub record Sendable (codec : AddressCodec) (n : DiscoveryNode) : Type 0 where
  pub sendable_address : SendableAddress codec n.address
  pub length_pubkey : length n.pubkey ≡ 64

-- Elements that are written and read one by one are so in a part of the list.
module _ {A B C : Type 0} (f : A → Result B) (g : B → Result C) (h : A → C) where
  none_read : (k : ℕ) → for_each_of g (take k []) ≡ ok (map h (take k []))
  unfolding for_each_of
  none_read zero = refl
  none_read (suc k) = refl

  one_read :
      (a : A) (b : B) (l : List A) (bs : List B)
      → g b ≡ ok (h a)
      → ((k : ℕ) → for_each_of g (take k bs) ≡ ok (map h (take k l)))
      → (k : ℕ) → for_each_of g (take k (b ∷ bs)) ≡ ok (map h (take k (a ∷ l)))
  unfolding for_each_of
  one_read a b l bs read rest zero = refl
  one_read a b l bs read rest (suc k) = rw (read, rest k) refl

  one_written :
      (a : A) (b : B) (l : List A) (bs : List B)
      → f a ≡ ok b
      → for_each_of f l ≡ ok bs
      → for_each_of f (a ∷ l) ≡ ok (b ∷ bs)
  unfolding for_each_of
  one_written a b l bs written rest = rw (written, rest) refl

  for_each-Reads :
      (l : List A)
      → All (λ a. (b : B) × (f a ≡ ok b) × (g b ≡ ok (h a))) l
      → (bs : List B) × (for_each_of f l ≡ ok bs)
        × ((k : ℕ) → for_each_of g (take k bs) ≡ ok (map h (take k l)))
  unfolding for_each_of
  for_each-Reads [] all = ([], refl, none_read)
  for_each-Reads (a ∷ l) all =
      let (b, written, read) = all.0 in
      let (bs, others, rest) = for_each-Reads l all.1 in
      (b ∷ bs, one_written a b l bs written others, one_read a b l bs read rest)

-- the bytes of a port
abbrev port : ℕ → Bytes
port p = drop 2 (to_be 4 p)

abbrev endpoint : Address → List Item
endpoint a = blob a.ip ∷ blob (port a.udp_port) ∷ blob (port a.tcp_port) ∷ []

address_to_binary_lem :
    (a : Address)
    → a.udp_port < 2 ^ 32
    → a.tcp_port < 2 ^ 32
    → address_to_binary a ≡ ok (a.ip, port a.udp_port, port a.tcp_port)
unfolding address_to_binary enc_port
address_to_binary_lem a u t = ground arith

module _ (codec : AddressCodec) (reads : IsAddressCodec codec) where
  from_endpoint_lem :
      (a : Address) → SendableAddress codec a → from_endpoint codec (endpoint a) ≡ ok (low_ports a)
  unfolding from_endpoint to_be item_or_else item_bytes
  from_endpoint_lem a s =
      ap (λ (r : Result (Bytes × Bytes × Bytes)). r >>= λ e. from_binary codec e.0 e.1 e.2)
        (sym (address_to_binary_lem a s.udp s.tcp))
      ∙ from_binary-address_to_binary codec reads a s.udp s.tcp s.binary s.packed

  neighbour-Reads :
      (n : DiscoveryNode)
      → Sendable codec n
      → (i : Item) × (neighbour_item n ≡ ok i)
        × (read_neighbour codec i ≡ ok (n.pubkey, low_ports n.address))
  unfolding neighbour_item to_endpoint read_neighbour pop bytes_of to_list of_list
  neighbour-Reads n s = (
    group (of_list (endpoint n.address ++ blob n.pubkey ∷ [])),
    rw (address_to_binary_lem n.address s.sendable_address.udp s.sendable_address.tcp) refl,
    rw (from_endpoint_lem n.address s.sendable_address, s.length_pubkey) refl,
  )

  All-Reads :
      (ns : List DiscoveryNode)
      → All (Sendable codec) ns
      → All
          (λ n.
            (i : Item) × (neighbour_item n ≡ ok i)
            × (read_neighbour codec i ≡ ok (n.pubkey, low_ports n.address)))
          ns
  All-Reads [] all = tt
  All-Reads (n ∷ ns) all = (neighbour-Reads n all.0, All-Reads ns all.1)

  -- Of the nodes that one end sends as neighbours, the other one reads the twelve with the lowest ids,
  -- in the order of ids, each with its public key and its address, the ports cut to 16 bits, if the
  -- ports are below 2 ^ 32, no ip is taken for a text and the public keys have 64 bytes.
  pub read-neighbours_payload :
      (ns : List DiscoveryNode)
      → All (Sendable codec) ns
      → (neighbours_payload ns >>= read_neighbours codec)
        ≡ ok (map (λ n. (n.pubkey, low_ports n.address)) (take 12 (sorted (λ n. n.id) ns)))
  unfolding neighbours_payload read_neighbours
  read-neighbours_payload ns all =
      let in_order = sorted (λ (n : DiscoveryNode). n.id) ns in
      let (items, written, read) =
        for_each-Reads neighbour_item (read_neighbour codec)
          (λ (n : DiscoveryNode). (n.pubkey, low_ports n.address)) in_order
          (All-Reads in_order (All-sorted (λ (n : DiscoveryNode). n.id) (Sendable codec) ns all)) in
      rw (written, to_list-of_list (take 12 items)) (read 12)

  -- The address that one end sends of itself in a ping is the one that the other end reads of it, the
  -- ports cut to 16 bits, if the ports of both addresses are below 2 ^ 32 and its ip is not taken
  -- for a text.
  pub read-ping_payload :
      (items : ItemCodec) (mine theirs : Address)
      → SendableAddress codec mine
      → theirs.udp_port < 2 ^ 32
      → theirs.tcp_port < 2 ^ 32
      → (ping_payload items mine theirs >>= read_ping codec) ≡ ok (some (low_ports mine))
  unfolding ping_payload read_ping endpoint_of to_endpoint
  read-ping_payload items mine theirs s u t =
      rw
        (
          address_to_binary_lem mine s.udp s.tcp,
          address_to_binary_lem theirs u t,
          to_list-of_list (endpoint mine),
          from_endpoint_lem mine s,
        )
        refl

  -- The token of a pong is the echo that the other end reads, if the address has 4 or 16 bytes, ports
  -- below 2 ^ 32 and an ip that is not taken for a text.
  pub read-pong_payload :
      (a : Address) (token : Bytes)
      → SendableAddress codec a
      → ((length a.ip == 4) || (length a.ip == 16)) ≡ true
      → (pong_payload a token >>= read_pong codec) ≡ ok (some (blob token))
  unfolding pong_payload read_pong endpoint_of to_endpoint item_length
  read-pong_payload a token s sized =
      rw
        (
          address_to_binary_lem a s.udp s.tcp,
          sized,
          to_list-of_list (endpoint a),
          from_endpoint_lem a s,
        )
        refl

  lstrip_zeros-replicate : (k : ℕ) (b : Bytes) → lstrip_zeros (replicate k 0 ++ b) ≡ lstrip_zeros b
  unfolding lstrip_zeros
  lstrip_zeros-replicate zero b = refl
  lstrip_zeros-replicate (suc k) b = lstrip_zeros-replicate k b

  -- The target that one end asks nodes for is the one that the other end reads, if it is written in at
  -- most 64 bytes.
  pub read-find_node_payload :
      (items : ItemCodec) (target : ℕ)
      → length (items.serialize target) ≤ 64
      → from_be 0 (items.serialize target) ≡ target
      → (find_node_payload items target >>= read_find_node codec) ≡ ok target
  unfolding find_node_payload read_find_node rjust big_endian_to_int
  read-find_node_payload items target short written =
      let b = items.serialize target in
      let padded = replicate (64 - length b) 0 ++ b in
      ground (
        arith,
        length-append (replicate (64 - length b) 0) b,
        length-replicate {A = ℕ} (64 - length b) 0,
        ap codec.deserialize (lstrip_zeros-replicate (64 - length b) b),
        reads.deserialize_lem b,
        from_be-lstrip_zeros b,
      )
