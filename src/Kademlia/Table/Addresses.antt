-- ===== src/Kademlia/Table/Addresses.antt =====
-- The address of a node in the table, which `recv_pong` of pydevp2p/devp2p/kademlia.py updates.
use structured_p2p_overlay_n.Prelude.{
  ap₂, ℕ, ◌+◌, ◌≤◌, ◌≡◌, refl, sym, subst, Bool, true, false, none, some, List, [], ◌∷◌, map,
  length-map, All, Bool-cases, inl, inr, if◌then◌else◌,
}
use structured_p2p_overlay_n.Prelude.Bytes.{bytes_eq}
use structured_p2p_overlay_n.Kademlia.Node.{Node, node_eq, contains, k_bucket_size, k_max_node_id}
use structured_p2p_overlay_n.Kademlia.Node.Members.{Distinct, contains-append}
use structured_p2p_overlay_n.Kademlia.Bucket.{KBucket}
use structured_p2p_overlay_n.Kademlia.Bucket.Lru
use structured_p2p_overlay_n.Kademlia.Bucket.Lru.{InRange}
use structured_p2p_overlay_n.Kademlia.Table.{RoutingTable, nodes_of, neighbours}
use structured_p2p_overlay_n.Kademlia.Table.Lookup

-- `nnodes[0].address = remote.address`, where `n` may be that node
unfoldable pub set_address : Node → Node → Node
set_address remote n = if node_eq n remote then record n { address = remote.address } else n

-- The node stands in one bucket, and in it once.
unfoldable pub set_addresses : Node → KBucket → KBucket
unfolding set_address
set_addresses remote b = record b { nodes = map (set_address remote) b.nodes }

-- `nnodes and nnodes[0] == remote`
unfoldable pub is_first : Node → List Node → Bool
is_first remote [] = false
is_first remote (n ∷ ns) = node_eq n remote

-- whether `remote` has an address, and the closest node to it in the table is equal to it
unfoldable pub is_known_address : Node → RoutingTable → Bool
unfolding is_first
is_known_address remote t = elim (remote.address) [
  | none ↦ false
  | some a ↦ is_first remote (neighbours t remote.id k_bucket_size)
]

unfoldable pub update_address : Node → RoutingTable → RoutingTable
unfolding set_addresses is_known_address
update_address remote t =
    if is_known_address remote t
    then record t { buckets = map (set_addresses remote) t.buckets }
    else t

module _ (remote : Node) where
  set_address-same :
      (n : Node) → ((set_address remote n).pubkey ≡ n.pubkey) × ((set_address remote n).id ≡ n.id)
  unfolding set_address
  set_address-same n = elim (Bool-cases (node_eq n remote)) [
    | inl e ↦ rw e (refl, refl)
    | inr e ↦ rw e (refl, refl)
  ]

  contains-map :
      (m : Node) (ns : List Node) → contains m (map (set_address remote) ns) ≡ contains m ns
  unfolding contains node_eq
  contains-map m [] = refl
  contains-map m (n ∷ ns) =
      ap₂ (λ k b. elim (bytes_eq k m.pubkey) [ true ↦ true | false ↦ b ]) (set_address-same n).0
        (contains-map m ns)

  contains-set_address :
      (n : Node) (ns : List Node) → contains (set_address remote n) ns ≡ contains n ns
  unfolding contains node_eq
  contains-set_address n [] = refl
  contains-set_address n (m ∷ ns) =
      ap₂ (λ k b. elim (bytes_eq m.pubkey k) [ true ↦ true | false ↦ b ]) (set_address-same n).0
        (contains-set_address n ns)

  Distinct-map : (ns : List Node) → Distinct ns → Distinct (map (set_address remote) ns)
  Distinct-map [] h = tt
  Distinct-map (n ∷ ns) h = (
    rw (contains-set_address n (map (set_address remote) ns), contains-map n ns) h.0,
    Distinct-map ns h.1,
  )

  InRange-map :
      (b : KBucket) (ns : List Node)
      → All (InRange b) ns
      → All (InRange (set_addresses remote b)) (map (set_address remote) ns)
  unfolding set_addresses
  InRange-map b [] h = tt
  InRange-map b (n ∷ ns) h = (
    subst (λ z. (b.start ≤ z) × (z ≤ b.end)) (sym ((set_address-same n).1)) h.0,
    InRange-map b ns h.1,
  )

  set_addresses-IsValid : (b : KBucket) → Lru.IsValid b → Lru.IsValid (set_addresses remote b)
  unfolding set_addresses
  set_addresses-IsValid b v = record {
    ordered = v.ordered;
    fits = subst (λ z. z ≤ k_bucket_size) (sym (length-map (set_address remote) b.nodes)) v.fits;
    distinct = Distinct-map b.nodes v.distinct;
    ranged = InRange-map b b.nodes v.ranged;
  }

  Tiles-map :
      (lo top : ℕ) (bs : List KBucket)
      → Lookup.Tiles lo top bs
      → Lookup.Tiles lo top (map (set_addresses remote) bs)
  unfolding set_addresses
  Tiles-map lo top [] h = h
  Tiles-map lo top (b ∷ bs) h = (h.0, Tiles-map (b.end + 1) top bs h.1)

  All-set_addresses :
      (bs : List KBucket) → All Lru.IsValid bs → All Lru.IsValid (map (set_addresses remote) bs)
  All-set_addresses [] h = tt
  All-set_addresses (b ∷ bs) h = (set_addresses-IsValid b h.0, All-set_addresses bs h.1)

  contains-nodes :
      (m : Node) (bs : List KBucket)
      → contains m (nodes_of (map (set_addresses remote) bs)) ≡ contains m (nodes_of bs)
  unfolding nodes_of set_addresses
  contains-nodes m [] = refl
  contains-nodes m (b ∷ bs) =
      rw
        (
          contains-append m (map (set_address remote) b.nodes)
              (nodes_of (map (set_addresses remote) bs)),
          contains-append m b.nodes (nodes_of bs),
          contains-map m b.nodes,
          contains-nodes m bs,
        )
        refl

  -- either way
  update_address-cases :
      (P : RoutingTable → Type 0) (t : RoutingTable)
      → P t
      → P (record t { buckets = map (set_addresses remote) t.buckets })
      → P (update_address remote t)
  unfolding update_address
  update_address-cases P t same changed = go (is_known_address remote t)
    where
      go :
          (b : Bool)
          → P (if b then record t { buckets = map (set_addresses remote) t.buckets } else t)
      go true = changed
      go false = same

  pub table_address-IsValid :
      (t : RoutingTable) → Lookup.IsValid t → Lookup.IsValid (update_address remote t)
  table_address-IsValid t v = update_address-cases Lookup.IsValid t v (record {
    tiles = Tiles-map 0 (k_max_node_id + 1) t.buckets v.tiles;
    buckets = All-set_addresses t.buckets v.buckets;
  })

  pub contains-update_address :
      (m : Node) (t : RoutingTable)
      → contains m (nodes_of (update_address remote t).buckets) ≡ contains m (nodes_of t.buckets)
  contains-update_address m t =
      update_address-cases (λ u. contains m (nodes_of u.buckets) ≡ contains m (nodes_of t.buckets))
        t refl (contains-nodes m t.buckets)

  pub update_address-owner : (t : RoutingTable) → (update_address remote t).this_node ≡ t.this_node
  update_address-owner t = update_address-cases (λ u. u.this_node ≡ t.this_node) t refl refl
