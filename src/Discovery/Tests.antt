-- ===== src/Discovery/Tests.antt =====
-- The theorems on the datagrams and payloads of pydevp2p/devp2p/discovery.py, at small examples with
-- a toy hash, signature and encoding.
use structured_p2p_overlay_n.Prelude.{
  sym, ◌∙◌, subst, ok-injective, ℕ, ◌*◌, ◌%◌, ◌^◌, List, [], ◌∷◌, ◌++◌, length, take, drop, All,
  replicate, map, true, false, ltb, if◌then◌else◌, none, some, Result, ok, err, value_error,
  rlp_error, ◌>>=◌, ◌≡◌, refl, arith,
}
use structured_p2p_overlay_n.Prelude.Bytes.{to_be, Bytes, from_be, bytes_eq}
use structured_p2p_overlay_n.Prelude.Sort.{sorted}
use structured_p2p_overlay_n.Discovery.Items.{
  Item, blob, group, of_list, ItemCodec, Signing, ReadsBack, IsSigning,
}
use structured_p2p_overlay_n.Discovery.Datagram.{
  find_node, neighbours, cmd_elem_count_map, expires, pack, receive, Unpacked,
}
use structured_p2p_overlay_n.Discovery.Accepted.{receive-pack}
use structured_p2p_overlay_n.Discovery.Genuine.{Genuine, receive-Genuine}
use structured_p2p_overlay_n.Discovery.Endpoint.{
  Address, AddressCodec, IsAddressCodec, is_hex, ip_pattern, address_to_binary, from_binary,
  from_binary-address_to_binary, from_binary-hex,
}
use structured_p2p_overlay_n.Discovery.Messages.{
  ping_payload, read_ping, pong_payload, read_pong, DiscoveryNode, neighbours_payload,
  read_neighbours, find_node_payload, read_find_node,
}
use structured_p2p_overlay_n.Discovery.Exchange.{
  Sendable, SendableAddress, read-ping_payload, read-pong_payload, low_ports,
}
use structured_p2p_overlay_n.Discovery.Arrival.{
  Arrives, IsEncoded, find_node-Arrives, neighbours-Arrives,
}

abbrev key : Bytes
key = replicate 64 7

-- The hash is the length, all sign alike, and the encoding is one of lists of two
-- byte strings.
abbrev toy : Signing
toy = record {
  sha3 = λ b. replicate 31 0 ++ length b ∷ [];
  sign = λ b k. replicate 64 0 ++ 1 ∷ [];
  ecdsa_recover = λ h s. ok key;
}

toy-IsSigning : IsSigning toy [] key
toy-IsSigning = record {
  length-sha3 = λ b. refl;
  length-sign = λ b. refl;
  length-pubkey = refl;
  recover-sign = λ b. refl;
}

abbrev write_items : List Item → Bytes
write_items (blob a ∷ blob b ∷ []) = length a ∷ (a ++ b)
write_items _ = []

abbrev read_items : Bytes → Result Item
read_items [] = err rlp_error
read_items (n ∷ b) = ok (group (of_list (blob (take n b) ∷ blob (drop n b) ∷ [])))

abbrev read_number : Item → Result ℕ
read_number (blob (n ∷ [])) = ok n
read_number _ = err rlp_error

abbrev pair : ItemCodec
pair = record {
  encode = write_items;
  decode = read_items;
  serialize = λ n. n ∷ [];
  deserialize = read_number;
}

abbrev payload : List Item
payload = blob (5 ∷ 6 ∷ []) ∷ []

pair-ReadsBack : ReadsBack pair (payload ++ blob (pair.serialize (expires 10_000)) ∷ [])
unfolding expires of_list
pair-ReadsBack = record { decode-encode = refl; deserialize-serialize = λ n. refl }

receive-pack_example :
    (message : Bytes) × (pack pair toy 10_000 [] find_node payload ≡ ok message)
    × (receive pair toy 20_000 message
        ≡ ok (
            if ltb (expires 10_000 * 1_000) 20_000
            then none
            else some (record {
              remote_pubkey = key;
              cmd = find_node;
              payload = payload;
              mdc = take 32 message;
            })))
receive-pack_example =
    receive-pack pair toy [] key toy-IsSigning find_node payload 10_000 20_000
      (unfold cmd_elem_count_map in omega arith) pair-ReadsBack

abbrev message : Bytes
message = (replicate 31 0 ++ 70 ∷ []) ++ (replicate 64 0 ++ 1 ∷ 3 ∷ 2 ∷ 5 ∷ 6 ∷ 70 ∷ [])

abbrev received : Unpacked
received = record { remote_pubkey = key; cmd = find_node; payload = payload; mdc = take 32 message }

receive-message : receive pair toy 20_000 message ≡ ok (some received)
unfolding receive bytes_eq of_list
receive-message = refl

receive-Genuine_example : Genuine pair toy 20_000 message received
receive-Genuine_example = receive-Genuine pair toy 20_000 message received receive-message

-- No text is an address here.
abbrev packed_only : AddressCodec
packed_only = record {
  of_text = λ b. err value_error;
  of_packed = λ b. ok b;
  deserialize = from_be 0;
}

packed_only-IsAddressCodec : IsAddressCodec packed_only
packed_only-IsAddressCodec = record { deserialize_lem = λ b. refl; of_text-refused = λ b h. refl }

abbrev home : Address
home = record { ip = 127 ∷ 0 ∷ 0 ∷ 1 ∷ []; udp_port = 30_303; tcp_port = 65_537 }

home_binary : ip_pattern home.ip ≡ false
unfolding ip_pattern
home_binary = refl

from_binary-address_to_binary_example :
    (address_to_binary home >>= λ e. from_binary packed_only e.0 e.1 e.2)
    ≡ ok (record {
      ip = home.ip;
      udp_port = home.udp_port % 2 ^ 16;
      tcp_port = home.tcp_port % 2 ^ 16;
    })
from_binary-address_to_binary_example =
    from_binary-address_to_binary packed_only packed_only-IsAddressCodec home (omega arith)
      (omega arith) home_binary refl

abcd_hex : All (λ c. is_hex c ≡ true) (97 ∷ 98 ∷ 99 ∷ 100 ∷ [])
unfolding is_hex
abcd_hex = (refl, (refl, (refl, (refl, tt))))

from_binary-hex_example :
    from_binary packed_only (97 ∷ 98 ∷ 99 ∷ 100 ∷ []) (118 ∷ 95 ∷ []) (0 ∷ 0 ∷ []) ≡ err value_error
from_binary-hex_example =
    from_binary-hex packed_only packed_only-IsAddressCodec (97 ∷ 98 ∷ 99 ∷ 100 ∷ []) (118 ∷ 95 ∷ [])
      (0 ∷ 0 ∷ []) (omega arith) abcd_hex

abbrev node : ℕ → DiscoveryNode
node n = record { pubkey = replicate 64 n; id = n; address = home }

abbrev two : List DiscoveryNode
two = node 9 ∷ node 4 ∷ []

home-SendableAddress : SendableAddress packed_only home
home-SendableAddress = record {
  udp = omega arith;
  tcp = omega arith;
  binary = home_binary;
  packed = refl;
}

node-Sendable : (n : ℕ) → Sendable packed_only (node n)
node-Sendable n = record { sendable_address = home-SendableAddress; length_pubkey = refl }

read-ping_payload_example :
    (ping_payload pair home home >>= read_ping packed_only) ≡ ok (some (low_ports home))
read-ping_payload_example =
    read-ping_payload packed_only packed_only-IsAddressCodec pair home home home-SendableAddress
      (omega arith) (omega arith)

read-pong_payload_example :
    (pong_payload home (1 ∷ 2 ∷ []) >>= read_pong packed_only) ≡ ok (some (blob (1 ∷ 2 ∷ [])))
read-pong_payload_example =
    read-pong_payload packed_only packed_only-IsAddressCodec home (1 ∷ 2 ∷ []) home-SendableAddress
      refl

request-IsEncoded : IsEncoded pair 10_000 (find_node_payload pair 200)
unfolding find_node_payload expires of_list
request-IsEncoded sent made =
    subst (λ (l : List Item). ReadsBack pair (l ++ blob (pair.serialize (expires 10_000)) ∷ []))
      (ok-injective made) (record { decode-encode = refl; deserialize-serialize = λ n. refl })

find_node-Arrives_example :
    Arrives pair toy [] key 10_000 20_000 find_node
      (find_node_payload pair 200)
      (read_find_node packed_only)
      200
find_node-Arrives_example =
    find_node-Arrives pair toy [] key toy-IsSigning 10_000 20_000 (unfold expires in omega arith)
      packed_only packed_only-IsAddressCodec 200 (omega arith) (unfold from_be in refl)
      request-IsEncoded

abbrev entry : ℕ → Item
entry n = group (
    of_list (
      blob (127 ∷ 0 ∷ 0 ∷ 1 ∷ [])
      ∷ blob (118 ∷ 95 ∷ [])
      ∷ blob (0 ∷ 1 ∷ [])
      ∷ blob (replicate 64 n)
      ∷ []))

abbrev two_payload : List Item
two_payload = group (of_list (entry 4 ∷ entry 9 ∷ [])) ∷ []

neighbours_payload-two : neighbours_payload two ≡ ok two_payload
unfolding neighbours_payload of_list address_to_binary to_be sorted
neighbours_payload-two = refl

-- an encoding of one list, with the expiration in it
abbrev one_list_codec : ItemCodec
one_list_codec = record {
  encode = λ l. length l ∷ [];
  decode = λ b. ok (group (of_list (two_payload ++ blob (70 ∷ []) ∷ [])));
  serialize = λ n. n ∷ [];
  deserialize = read_number;
}

two-IsEncoded : IsEncoded one_list_codec 10_000 (neighbours_payload two)
unfolding expires
two-IsEncoded sent made =
    subst
      (λ (l : List Item).
        ReadsBack one_list_codec (l ++ blob (one_list_codec.serialize (expires 10_000)) ∷ []))
      (ok-injective (sym neighbours_payload-two ∙ made))
      (record { decode-encode = refl; deserialize-serialize = λ n. refl })

neighbours-Arrives_example :
    Arrives one_list_codec toy [] key 10_000 20_000 neighbours
      (neighbours_payload two)
      (read_neighbours packed_only)
      (map (λ n. (n.pubkey, low_ports n.address)) (take 12 (sorted (λ n. n.id) two)))
neighbours-Arrives_example =
    neighbours-Arrives one_list_codec toy [] key toy-IsSigning 10_000 20_000
      (unfold expires in omega arith) packed_only packed_only-IsAddressCodec two
      (node-Sendable 9, (node-Sendable 4, tt)) two-IsEncoded
