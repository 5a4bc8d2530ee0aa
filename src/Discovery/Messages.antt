-- ===== src/Discovery/Messages.antt =====
-- The payloads that the `send_*` methods of class DiscoveryProtocol in
-- pydevp2p/devp2p/discovery.py hand to `pack`, and what the `recv_*` methods read of a payload before
-- they look nodes up and call the Kademlia protocol.
use structured_p2p_overlay_n.Prelude.{
  ℕ, ◌-◌, List, [], ◌∷◌, ◌++◌, length, take, replicate, ◌||◌, ◌==◌, Option, none, some, Result, ok,
  err, check, of_option, ◌>>=◌, ◌>>◌, assertion_error, index_error, type_error,
}
use structured_p2p_overlay_n.Prelude.Bytes.{Bytes}
use structured_p2p_overlay_n.Prelude.Sort.{sorted}
use structured_p2p_overlay_n.Kademlia.Node.{big_endian_to_int}
use structured_p2p_overlay_n.Discovery.Items.{
  Item, blob, group, end, cons, to_list, of_list, ItemCodec,
}
use structured_p2p_overlay_n.Discovery.Datagram.{pop}
use structured_p2p_overlay_n.Discovery.Endpoint.{
  Address, AddressCodec, address_to_binary, from_binary,
}

-- class Node: a node of the Kademlia protocol with its address
pub record DiscoveryNode : Type 0 where
  pub pubkey : Bytes
  pub id : ℕ
  pub address : Address

-- `kademlia.k_pubkey_size // 8`
abbrev pub pubkey_bytes : ℕ
pubkey_bytes = 64

abbrev pub version : ℕ
version = 4

-- `for x in l`, where each step may raise
unfoldable pub for_each_of : {A B : Type 0} → (A → Result B) → List A → Result (List B)
for_each_of f [] = ok []
for_each_of f (a ∷ l) = f a >>= λ b. for_each_of f l >>= λ bs. ok (b ∷ bs)

unfoldable pub item_bytes : Item → Result Bytes
item_bytes (blob b) = ok b
item_bytes (group is) = err type_error

-- `i`, if it is `bytes`
unfoldable pub bytes_of : Item → Option Bytes
bytes_of (blob b) = some b
bytes_of (group is) = none

-- `len(i)`
unfoldable pub item_length : Item → ℕ
unfolding to_list
item_length (blob b) = length b
item_length (group is) = length (to_list is)

unfoldable pub to_endpoint : Address → Result (List Item)
unfolding address_to_binary
to_endpoint a = address_to_binary a >>= λ e. ok (blob e.0 ∷ blob e.1 ∷ blob e.2 ∷ [])

-- `tcp_port or udp_port`
unfoldable pub item_or_else : Item → Item → Item
item_or_else (blob []) i = i
item_or_else (group end) i = i
item_or_else (blob (c ∷ cs)) i = blob (c ∷ cs)
item_or_else (group (cons j js)) i = group (cons j js)

-- `s.rjust(w, b'\0')`
unfoldable pub rjust : ℕ → Bytes → Bytes
rjust w b = replicate (w - length b) 0 ++ b

module _ (codec : ItemCodec) where
  -- `send_ping`, with the listening address and the one of the other node
  unfoldable pub ping_payload : Address → Address → Result (List Item)
  unfolding to_endpoint
  ping_payload mine theirs = to_endpoint mine >>= λ a. to_endpoint theirs >>= λ b.
      ok (blob (codec.serialize version) ∷ group (of_list a) ∷ group (of_list b) ∷ [])

  -- `send_find_node`
  unfoldable pub find_node_payload : ℕ → Result (List Item)
  unfolding rjust
  find_node_payload target =
      check (length (rjust pubkey_bytes (codec.serialize target)) == pubkey_bytes) assertion_error
      >> ok (blob (rjust pubkey_bytes (codec.serialize target)) ∷ [])

-- `send_pong`
unfoldable pub pong_payload : Address → Bytes → Result (List Item)
unfolding to_endpoint
pong_payload a token = to_endpoint a >>= λ e.
    check ((length a.ip == 4) || (length a.ip == 16)) assertion_error
    >> ok (group (of_list e) ∷ blob token ∷ [])

-- an element of the list that `send_neighbours` sends
unfoldable pub neighbour_item : DiscoveryNode → Result Item
unfolding to_endpoint of_list
neighbour_item n = to_endpoint n.address >>= λ e. ok (group (of_list (e ++ blob n.pubkey ∷ [])))

-- `send_neighbours`
unfoldable pub neighbours_payload : List DiscoveryNode → Result (List Item)
unfolding neighbour_item for_each_of
neighbours_payload ns =
    for_each_of neighbour_item (sorted (λ (n : DiscoveryNode). n.id) ns) >>= λ nodes.
    ok (group (of_list (take 12 nodes)) ∷ [])

module _ (codec : AddressCodec) where
  -- `Address.from_endpoint(*l)`; the default for a missing third element is no `bytes`.
  unfoldable pub from_endpoint : List Item → Result Address
  unfolding from_binary item_or_else item_bytes
  from_endpoint (ip ∷ udp ∷ tcp ∷ []) = item_bytes udp >>= λ u.
      item_bytes (item_or_else tcp udp) >>= λ t. item_bytes ip >>= λ i. from_binary codec i u t
  from_endpoint [] = err type_error
  from_endpoint (ip ∷ []) = err type_error
  from_endpoint (ip ∷ udp ∷ []) = err type_error
  from_endpoint (ip ∷ udp ∷ tcp ∷ i ∷ is) = err type_error

  -- `recv_find_node`: the target
  unfoldable pub read_find_node : List Item → Result ℕ
  unfolding big_endian_to_int item_bytes
  read_find_node [] = err index_error
  read_find_node (blob b ∷ is) =
      check (length b == pubkey_bytes) assertion_error >> ok (big_endian_to_int codec.deserialize b)
  read_find_node (group l ∷ is) =
      check (length (to_list l) == pubkey_bytes) assertion_error >> err type_error

  -- `Address.from_endpoint(*i)` of one item; an element of `bytes` is a number, not a port.
  unfoldable pub endpoint_of : Item → Result Address
  unfolding from_endpoint
  endpoint_of (blob b) = err type_error
  endpoint_of (group is) = from_endpoint (to_list is)

  -- `recv_ping`: the address of the sender, or nothing when the payload is refused
  unfoldable pub read_ping : List Item → Result (Option Address)
  unfolding endpoint_of
  read_ping (_ ∷ mine ∷ _ ∷ []) = endpoint_of mine >>= λ a. ok (some a)
  read_ping _ = ok none

  -- `recv_pong`: the echo, or nothing when the payload is refused
  unfoldable pub read_pong : List Item → Result (Option Item)
  unfolding endpoint_of
  read_pong (a ∷ echoed ∷ []) =
      check (item_length a == 3) assertion_error >> (endpoint_of a >>= λ _. ok (some echoed))
  read_pong _ = ok none

  -- what `recv_neighbours` asks `get_node` for: a public key and an address
  unfoldable pub read_neighbour : Item → Result (Bytes × Address)
  unfolding from_endpoint
  read_neighbour (blob b) = err type_error
  read_neighbour (group is) = of_option index_error (pop (to_list is)) >>= λ p.
      from_endpoint p.0 >>= λ a. of_option assertion_error (bytes_of p.1) >>= λ key.
      check (length key == pubkey_bytes) assertion_error >> ok (key, a)

  -- `recv_neighbours`
  unfoldable pub read_neighbours : List Item → Result (List (Bytes × Address))
  unfolding read_neighbour for_each_of
  read_neighbours (group is ∷ []) = for_each_of read_neighbour (to_list is)
  read_neighbours (blob b ∷ []) = err assertion_error
  read_neighbours [] = err assertion_error
  read_neighbours (i ∷ j ∷ is) = err assertion_error
