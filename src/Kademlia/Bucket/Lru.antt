-- ===== src/Kademlia/Bucket/Lru.antt =====
-- `KBucket.add_node` and `KBucket.remove_node` against a bounded list of the nodes last seen.
use structured_p2p_overlay_n.Prelude.{
  ℕ, ◌+◌, ◌≤◌, ◌≡◌, refl, ap, true, not, ◌&&◌, ◌||◌, none, List, [], ◌∷◌, ◌++◌, arith, length, All,
  head?, Bool-cases, inl, inr, length-append, ltb, lt→ltb, All-append, All-filter, if◌then◌else◌,
  length-filter-le,
}
use structured_p2p_overlay_n.Kademlia.Node.{Node, node_eq, k_bucket_size, contains, node_eq_self}
use structured_p2p_overlay_n.Kademlia.Node.Members.{
  Distinct, others, remove-others, remove-others_absent, length-remove, contains-others,
  others-Distinct, snoc-Distinct, contains-snoc, node_eq_comm,
}
use structured_p2p_overlay_n.Kademlia.Bucket.{KBucket, add_node, remove_node}

-- The id of a node lies in the range of the bucket, both ends included.
abbrev pub InRange : KBucket → Node → Type 0
InRange b n = (b.start ≤ n.id) × (n.id ≤ b.end)

pub record IsValid (b : KBucket) : Type 0 where
  pub ordered : b.start ≤ b.end
  pub fits : length b.nodes ≤ k_bucket_size
  pub distinct : Distinct b.nodes
  pub ranged : All (InRange b) b.nodes

-- The nodes in the order of their last sighting, at most `k_bucket_size` of them: a node that is
-- seen goes to the tail, and is dropped if it is new and there is no room.
abbrev pub touch : Node → List Node → List Node
touch n ns =
    let rest = others n ns in if ltb (length rest) k_bucket_size then rest ++ n ∷ [] else ns

module _ (now : ℕ) (n : Node) (b : KBucket) (v : IsValid b) where
  room : contains n b.nodes ≡ true → length (others n b.nodes) + 1 ≤ k_bucket_size
  room h =
      omega
        (arith, length-remove n b.nodes h, ap length (remove-others n b.nodes v.distinct), v.fits)

  touch_present : contains n b.nodes ≡ true → touch n b.nodes ≡ others n b.nodes ++ n ∷ []
  touch_present h = rw (lt→ltb (length (others n b.nodes)) k_bucket_size (omega (arith, room h)))

  contains_touched : (ns : List Node) → contains n (ns ++ n ∷ []) ≡ true
  contains_touched ns = ground (arith, contains-snoc n n ns, node_eq_self n)

  -- `add_node` keeps the nodes as the bounded list does, and hands back the node that was seen
  -- longest ago exactly when the new node found no place; nothing else changes but the time.
  pub add_node-touch :
      ((add_node now n b).0 ≡ record b { nodes = touch n b.nodes; last_updated = now })
      × ((add_node now n b).1 ≡ (if contains n (touch n b.nodes) then none else head? b.nodes))
  add_node-touch = elim (Bool-cases (contains n b.nodes)) [
    | inl e ↦
        unfold add_node in
        rw (touch_present e, contains_touched, e, remove-others n b.nodes v.distinct) (refl, refl)
    | inr e ↦ elim (Bool-cases (ltb (length b.nodes) k_bucket_size)) [
      | inl f ↦
          unfold add_node in
          rw (remove-others_absent n b.nodes e, e, f, contains_touched) (refl, refl)
      | inr f ↦ unfold add_node in rw (remove-others_absent n b.nodes e, e, f, e) (refl, refl)
    ]
  ]

touch-Distinct : (n : Node) (ns : List Node) → Distinct ns → Distinct (touch n ns)
touch-Distinct n ns d = elim (Bool-cases (ltb (length (others n ns)) k_bucket_size)) [
  | inl e ↦ rw e (
      snoc-Distinct n (others n ns) (others-Distinct n ns d)
        (ground (arith, contains-others n n ns, node_eq_self n)))
  | inr e ↦ rw e d
]

length-touch-le :
    (n : Node) (ns : List Node) → length ns ≤ k_bucket_size → length (touch n ns) ≤ k_bucket_size
length-touch-le n ns h = ground (arith, length-append (others n ns) (n ∷ []))

pub All-touch {κ} :
    (P : Node → Type κ) (n : Node) (ns : List Node) → P n → All P ns → All P (touch n ns)
All-touch P n ns p h = elim (Bool-cases (ltb (length (others n ns)) k_bucket_size)) [
  | inl e ↦ rw e (All-append P (others n ns) (n ∷ []) (All-filter P _ ns h) (p, tt))
  | inr e ↦ rw e h
]

-- A bucket that meets its invariant still meets it after `add_node` of a node in its range.
pub add_node-IsValid :
    (now : ℕ) (n : Node) (b : KBucket) → IsValid b → InRange b n → IsValid (add_node now n b).0
add_node-IsValid now n b v r = rw ((add_node-touch now n b v).0) (record {
  ordered = v.ordered;
  fits = length-touch-le n b.nodes v.fits;
  distinct = touch-Distinct n b.nodes v.distinct;
  ranged = All-touch (InRange b) n b.nodes r v.ranged;
})

-- After `add_node` a bucket holds what it held, and the new node exactly if none is handed back.
pub contains-touch :
    (q n : Node) (ns : List Node)
    → contains q (touch n ns)
      ≡ (contains q ns || (node_eq q n && ltb (length (others n ns)) k_bucket_size))
contains-touch q n ns =
    ground (arith, contains-snoc q n (others n ns), contains-others q n ns, node_eq_comm n q)

-- `remove_node` takes out the one node with the given public key, and keeps the order of the rest.
pub remove_node-others :
    (n : Node) (b : KBucket) → IsValid b → remove_node n b ≡ record b { nodes = others n b.nodes }
remove_node-others n b v = elim (Bool-cases (contains n b.nodes)) [
  | inl e ↦ unfold remove_node in rw (e, remove-others n b.nodes v.distinct)
  | inr e ↦ unfold remove_node in rw (e, remove-others_absent n b.nodes e)
]

pub remove_node-IsValid : (n : Node) (b : KBucket) → IsValid b → IsValid (remove_node n b)
remove_node-IsValid n b v = rw (remove_node-others n b v) (record {
  ordered = v.ordered;
  fits = omega (arith, length-filter-le (λ m. not (node_eq m n)) b.nodes, v.fits);
  distinct = others-Distinct n b.nodes v.distinct;
  ranged = All-filter (InRange b) _ b.nodes v.ranged;
})
