-- ===== src/Kademlia/Table/Nearest.antt =====
-- `RoutingTable.neighbours` and `neighbours_within_distance`.
use mathlib.Core.List.{Perm, append_assoc, perm_append_comm}
use mathlib.Core.List.Perm
use structured_p2p_overlay_n.Prelude.{
  ℕ, ◌+◌, ◌*◌, ◌≤◌, min, ◌≡◌, refl, sym, ap, subst, ◌∙◌, List, [], ◌∷◌, ◌++◌, arith, length,
  length-append, length-take, drop, take-append-drop, All, All-append, Bool-cases, ◌==◌, inl, inr,
  append-nil, leb,
}
use structured_p2p_overlay_n.Prelude.Sort.{
  sorted, insert, IsSorted, sorted-IsSorted, sorted-perm, length-sorted, take-IsSorted,
  take-le-drop, All-sorted,
}
use structured_p2p_overlay_n.Kademlia.Node.{Node, id_distance}
use structured_p2p_overlay_n.Kademlia.Bucket.{KBucket, bucket_id_distance, nodes_by_id_distance}
use structured_p2p_overlay_n.Kademlia.Table.{
  RoutingTable, nodes_of, table_length, buckets_by_id_distance, collect, collect_all, neighbours,
}

module _ (limit : ℕ) where
  -- up to the limit nothing is left out
  collect_room :
      (acc ns : List Node) → length acc + length ns ≤ limit → collect limit acc ns ≡ acc ++ ns
  unfolding collect
  collect_room acc [] h = sym (append-nil acc)
  collect_room acc (n ∷ ns) h = elim (Bool-cases (length (acc ++ n ∷ []) == limit)) [
    | inl e ↦ rw (e, collect) (full ns (ground (arith, length-append acc (n ∷ []))))
    | inr e ↦
        rw (e, collect)
          (collect_room (acc ++ n ∷ []) ns (omega (arith, length-append acc (n ∷ [])))
            ∙ append_assoc acc (n ∷ []) ns)
  ]
    where
      full : (ms : List Node) → length ms ≡ 0 → acc ++ n ∷ [] ≡ acc ++ n ∷ ms
      full [] e = refl
      full (m ∷ ms) e = absurd (omega arith)

  -- at least the limit is reached, if there are as many nodes
  length-collect :
      (acc ns : List Node)
      → (min limit (length acc + length ns) ≤ length (collect limit acc ns))
        × (length (collect limit acc ns) ≤ length acc + length ns)
  unfolding collect
  length-collect acc [] = omega arith
  length-collect acc (n ∷ ns) =
      ground (arith, length-append acc (n ∷ []), length-collect (acc ++ n ∷ []) ns)

  All-collect {κ} :
      (P : Node → Type κ) (acc ns : List Node) → All P acc → All P ns → All P (collect limit acc ns)
  unfolding collect
  All-collect P acc [] h k = h
  All-collect P acc (n ∷ ns) h k =
      let next = All-append P acc (n ∷ []) h (k.0, tt) in
      elim (Bool-cases (length (acc ++ n ∷ []) == limit)) [
        | inl e ↦ rw (e, collect) next
        | inr e ↦ rw (e, collect) (All-collect P (acc ++ n ∷ []) ns next k.1)
      ]

  -- What is collected of a bucket is a first part of it.
  collect_part :
      (acc ns : List Node) → (rest : List Node) × (collect limit acc ns ++ rest ≡ acc ++ ns)
  unfolding collect
  collect_part acc [] = ([], append-nil acc ∙ sym (append-nil acc))
  collect_part acc (n ∷ ns) = elim (Bool-cases (length (acc ++ n ∷ []) == limit)) [
    | inl e ↦ (ns, rw (e, collect) (append_assoc acc (n ∷ []) ns))
    | inr e ↦
        let (rest, h) = collect_part (acc ++ n ∷ []) ns in
        (rest, rw (e, collect) (h ∙ append_assoc acc (n ∷ []) ns))
  ]

  module _ (id : ℕ) where
    -- all nodes of some buckets, those of a bucket by their distance
    in_turn : List KBucket → List Node
    in_turn [] = []
    in_turn (b ∷ bs) = nodes_by_id_distance b id ++ in_turn bs

    in_turn-perm : (bs : List KBucket) → Perm (in_turn bs) (nodes_of bs)
    unfolding in_turn nodes_of nodes_by_id_distance
    in_turn-perm [] = Perm.rfl
    in_turn-perm (b ∷ bs) = Perm.append (sorted-perm (id_distance id) b.nodes) (in_turn-perm bs)

    length-in_turn : (bs : List KBucket) → length (in_turn bs) ≡ table_length bs
    unfolding in_turn table_length nodes_by_id_distance
    length-in_turn [] = refl
    length-in_turn (b ∷ bs) = omega (
      arith,
      length-append (sorted (id_distance id) b.nodes) (in_turn bs),
      length-sorted (id_distance id) b.nodes,
      length-in_turn bs,
    )

    collect_all_room :
        (acc : List Node) (bs : List KBucket)
        → length acc + table_length bs ≤ limit
        → collect_all limit id acc bs ≡ acc ++ in_turn bs
    unfolding collect_all in_turn table_length nodes_by_id_distance
    collect_all_room acc [] h = sym (append-nil acc)
    collect_all_room acc (b ∷ bs) h =
        let ns = sorted (id_distance id) b.nodes in
        rw (collect_room acc ns (omega (arith, length-sorted (id_distance id) b.nodes))) (
          collect_all_room (acc ++ ns) bs
            (omega (arith, length-append acc ns, length-sorted (id_distance id) b.nodes))
          ∙ append_assoc acc ns (in_turn bs))

    collect_all_part :
        (acc : List Node) (bs : List KBucket)
        → (rest : List Node) × Perm (collect_all limit id acc bs ++ rest) (acc ++ in_turn bs)
    unfolding collect_all in_turn nodes_by_id_distance
    collect_all_part acc [] = ([], Perm.rfl)
    collect_all_part acc (b ∷ bs) =
        let ns = sorted (id_distance id) b.nodes in
        let (left, first) = collect_part acc ns in
        let got = collect limit acc ns in
        let (rest, others) = collect_all_part got bs in
        (
          rest ++ left,
          subst (λ z. Perm z (acc ++ (ns ++ in_turn bs)))
              (append_assoc (collect_all limit id got bs) rest left)
              (subst (λ z. Perm ((collect_all limit id got bs ++ rest) ++ left) z)
                (sym (append_assoc got left (in_turn bs))
                  ∙ ap (λ z. z ++ in_turn bs) first
                  ∙ append_assoc acc ns (in_turn bs))
                (Perm.trans (Perm.append others Perm.rfl) (
                  subst (λ z. Perm z (got ++ (left ++ in_turn bs)))
                    (sym (append_assoc got (in_turn bs) left))
                    (Perm.append_left got (perm_append_comm (in_turn bs) left))))),
        )

    length-collect_all :
        (acc : List Node) (bs : List KBucket)
        → (min limit (length acc + table_length bs) ≤ length (collect_all limit id acc bs))
          × (length (collect_all limit id acc bs) ≤ length acc + table_length bs)
    unfolding collect_all table_length nodes_by_id_distance
    length-collect_all acc [] = omega arith
    length-collect_all acc (b ∷ bs) =
        let ns = sorted (id_distance id) b.nodes in
        omega (
          arith,
          length-collect acc ns,
          length-sorted (id_distance id) b.nodes,
          length-collect_all (collect limit acc ns) bs,
        )

    All-collect_all {κ} :
        (P : Node → Type κ) (bs : List KBucket) (acc : List Node)
        → All P acc
        → All (λ (b : KBucket). All P b.nodes) bs
        → All P (collect_all limit id acc bs)
    unfolding collect_all nodes_by_id_distance
    All-collect_all P [] acc h k = h
    All-collect_all P (b ∷ bs) acc h k =
        let ns = sorted (id_distance id) b.nodes in
        All-collect_all P bs (collect limit acc ns)
          (All-collect P acc ns h (All-sorted (id_distance id) P b.nodes k.0)) k.1

-- Sorting the buckets rearranges the nodes of a table.
module _ (key : KBucket → ℕ) where
  nodes_of-insert :
      (b : KBucket) (bs : List KBucket) → Perm (nodes_of (insert key b bs)) (b.nodes ++ nodes_of bs)
  unfolding insert nodes_of
  nodes_of-insert b [] = Perm.rfl
  nodes_of-insert b (c ∷ cs) = elim (Bool-cases (leb (key b) (key c))) [
    | inl e ↦ rw (e, insert) Perm.rfl
    | inr e ↦
        rw (e, insert)
          (Perm.trans (Perm.append_left c.nodes (nodes_of-insert b cs)) (
            rw
              (
                ← append_assoc c.nodes b.nodes (nodes_of cs),
                ← append_assoc b.nodes c.nodes (nodes_of cs),
              )
              (Perm.append (perm_append_comm c.nodes b.nodes) Perm.rfl)))
  ]

  nodes_of-sorted : (bs : List KBucket) → Perm (nodes_of (sorted key bs)) (nodes_of bs)
  unfolding sorted nodes_of
  nodes_of-sorted [] = Perm.rfl
  nodes_of-sorted (b ∷ bs) =
      Perm.trans (nodes_of-insert b (sorted key bs)) (Perm.append_left b.nodes (nodes_of-sorted bs))

  table_length-insert :
      (b : KBucket) (bs : List KBucket)
      → table_length (insert key b bs) ≡ length b.nodes + table_length bs
  unfolding insert table_length
  table_length-insert b [] = refl
  table_length-insert b (c ∷ cs) = ground (arith, table_length-insert b cs)

  table_length-sorted : (bs : List KBucket) → table_length (sorted key bs) ≡ table_length bs
  unfolding sorted table_length
  table_length-sorted [] = refl
  table_length-sorted (b ∷ bs) =
      omega (arith, table_length-insert b (sorted key bs), table_length-sorted bs)

module _ (t : RoutingTable) (id k : ℕ) where
  abbrev collected : List Node
  collected = collect_all (k * 2) id [] (buckets_by_id_distance id t)

  -- `neighbours` returns nodes of the table, each as often as it is there, `k` of them or all if the
  -- table has fewer, the closest first.
  pub neighbours-IsSorted :
      ((rest : List Node) × Perm (neighbours t id k ++ rest) (nodes_of t.buckets))
      × IsSorted (id_distance id) (neighbours t id k)
      × (length (neighbours t id k) ≡ min k (table_length t.buckets))
  unfolding neighbours buckets_by_id_distance
  neighbours-IsSorted =
      let by_distance = sorted (id_distance id) collected in
      let bs = buckets_by_id_distance id t in
      let (left, part) = collect_all_part (k * 2) id [] bs in
      (
        (
          drop k by_distance ++ left,
          subst (λ z. Perm z (nodes_of t.buckets))
              (ap (λ z. z ++ left) (sym (take-append-drop k by_distance))
                ∙ append_assoc (neighbours t id k) (drop k by_distance) left)
              (Perm.trans (Perm.append (sorted-perm (id_distance id) collected) Perm.rfl) (
                Perm.trans part (
                  Perm.trans (in_turn-perm (k * 2) id bs)
                    (nodes_of-sorted (bucket_id_distance id) t.buckets)))),
        ),
        take-IsSorted (id_distance id) k by_distance (sorted-IsSorted (id_distance id) collected),
        omega (
          arith,
          length-take k by_distance,
          length-sorted (id_distance id) collected,
          length-collect_all (k * 2) id [] bs,
          table_length-sorted (bucket_id_distance id) t.buckets,
        ),
      )

  -- If the table has at most twice as many nodes as are asked for, `neighbours` returns the
  -- closest ones: the nodes that it leaves out are not closer than any that it returns.
  pub neighbours_nearest :
      table_length t.buckets ≤ k * 2
      → (rest : List Node) × Perm (neighbours t id k ++ rest) (nodes_of t.buckets)
        × All (λ x. All (λ y. id_distance id x ≤ id_distance id y) rest) (neighbours t id k)
  unfolding neighbours buckets_by_id_distance
  neighbours_nearest h =
      let by_distance = sorted (id_distance id) collected in
      let all : collected ≡ in_turn (k * 2) id (buckets_by_id_distance id t) =
        collect_all_room (k * 2) id [] (buckets_by_id_distance id t)
          (omega (arith, table_length-sorted (bucket_id_distance id) t.buckets)) in
      (
        drop k by_distance,
        rw (take-append-drop k by_distance) (
            Perm.trans (sorted-perm (id_distance id) collected) (
              rw all (
                Perm.trans (in_turn-perm (k * 2) id (buckets_by_id_distance id t))
                  (nodes_of-sorted (bucket_id_distance id) t.buckets)))),
        take-le-drop (id_distance id) k by_distance (sorted-IsSorted (id_distance id) collected),
      )
