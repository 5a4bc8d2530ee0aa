-- ===== src/Kademlia/Bucket.antt =====
-- `KBucket` of pydevp2p/devp2p/kademlia.py. The clock is an argument of what reads `time.time()`.
pub mod Lru
pub mod Split
use structured_p2p_overlay_n.Prelude.{
  ℕ, zero, suc, ◌+◌, ◌-◌, ◌/◌, ◌%◌, ◌^◌, bit_xor, Bool, true, false, not, ◌&&◌, Option, none, List,
  [], ◌∷◌, ◌++◌, map, length, take, head?, ltb, leb, ◌==◌, if◌then◌else◌, Result, ok, err,
  bare_exception, ◌>>=◌,
}
use structured_p2p_overlay_n.Prelude.Sort.{sorted}
use structured_p2p_overlay_n.Kademlia.Node.{
  Node, k_b, k_bucket_size, k_id_size, id_distance, contains, remove,
}

pub record KBucket : Type 0 where
  pub start : ℕ
  pub end : ℕ
  pub nodes : List Node
  pub replacement_cache : List Node
  pub last_updated : ℕ

unfoldable pub new_bucket : (now start end : ℕ) → KBucket
new_bucket now start end = record {
  start = start;
  end = end;
  nodes = [];
  replacement_cache = [];
  last_updated = now;
}

-- `//` rounds down, so a range with `end < start` has its midpoint below `start`.
unfoldable pub midpoint : KBucket → ℕ
midpoint b =
    if leb b.start b.end
    then b.start + (b.end - b.start) / 2
    else b.start - (b.start - b.end + 1) / 2

unfoldable pub bucket_id_distance : ℕ → KBucket → ℕ
unfolding midpoint
bucket_id_distance id b = bit_xor (midpoint b) id

unfoldable pub nodes_by_id_distance : KBucket → ℕ → List Node
nodes_by_id_distance b id = sorted (id_distance id) b.nodes

unfoldable pub in_range : KBucket → Node → Bool
in_range b n = leb b.start n.id && leb n.id b.end

unfoldable pub is_full : KBucket → Bool
is_full b = length b.nodes == k_bucket_size

-- the new bucket, and the node that should be pinged
unfoldable pub add_node : ℕ → Node → KBucket → KBucket × Option Node
unfolding contains remove
add_node now n b =
    if contains n b.nodes
    then (record b { nodes = remove n b.nodes ++ n ∷ []; last_updated = now }, none)
    else if ltb (length b.nodes) k_bucket_size
    then (record b { nodes = b.nodes ++ n ∷ []; last_updated = now }, none)
    else (record b { last_updated = now }, head? b.nodes)

unfoldable pub remove_node : Node → KBucket → KBucket
unfolding contains remove
remove_node n b = if contains n b.nodes then record b { nodes = remove n b.nodes } else b

-- the two loops of `split`, over the lower and the upper bucket
unfoldable pub distribute : (now splitid : ℕ) → List Node → KBucket × KBucket → KBucket × KBucket
unfolding add_node
distribute now splitid [] p = p
distribute now splitid (n ∷ ns) (lower, upper) = distribute now splitid ns (
    if leb n.id splitid
    then ((add_node now n lower).0, upper)
    else (lower, (add_node now n upper).0))

unfoldable pub cache_append : Node → KBucket → KBucket
cache_append n b = record b { replacement_cache = b.replacement_cache ++ n ∷ [] }

unfoldable pub distribute_cache : (splitid : ℕ) → List Node → KBucket × KBucket → KBucket × KBucket
unfolding cache_append
distribute_cache splitid [] p = p
distribute_cache splitid (n ∷ ns) (lower, upper) =
    distribute_cache splitid ns
      (if leb n.id splitid then (cache_append n lower, upper) else (lower, cache_append n upper))

unfoldable pub split : ℕ → KBucket → KBucket × KBucket
unfolding midpoint new_bucket distribute distribute_cache
split now b =
    let splitid = midpoint b in
    let empty : KBucket × KBucket =
      (new_bucket now b.start splitid, new_bucket now (splitid + 1) b.end) in
    distribute_cache splitid b.replacement_cache (distribute now splitid b.nodes empty)

-- `to_binary`: the `w` low bits of `x`, the most significant first
unfoldable pub to_binary : ℕ → ℕ → List Bool
to_binary zero x = []
to_binary (suc w) x = (x / 2 ^ w % 2 == 1) ∷ to_binary w x

unfoldable pub bits_eq : List Bool → List Bool → Bool
bits_eq [] [] = true
bits_eq (true ∷ xs) (true ∷ ys) = bits_eq xs ys
bits_eq (false ∷ xs) (false ∷ ys) = bits_eq xs ys
bits_eq _ _ = false

-- `len(set(b[:i] for b in bits)) == 1` for a list that is not empty
unfoldable pub share_prefix : ℕ → List (List Bool) → Bool
unfolding bits_eq
share_prefix i [] = false
share_prefix i (b ∷ []) = true
share_prefix i (b ∷ c ∷ bs) = bits_eq (take i b) (take i c) && share_prefix i (c ∷ bs)

-- `for i in range(k_id_size)` with `rounds` rounds left
unfoldable pub depth_loop : (rounds i : ℕ) → List (List Bool) → Result ℕ
unfolding share_prefix
depth_loop zero i bits = err bare_exception
depth_loop (suc r) i bits = elim (share_prefix i bits) [
  | true ↦ depth_loop r (i + 1) bits
  | false ↦ ok (i - 1)
]

unfoldable pub depth : KBucket → Result ℕ
unfolding to_binary depth_loop
depth b =
    if ltb (length b.nodes) 2
    then ok k_id_size
    else depth_loop k_id_size 0 (map (λ (n : Node). to_binary k_id_size n.id) b.nodes)

unfoldable pub should_split : KBucket → Result Bool
unfolding depth is_full
should_split b = do d ← depth b; ok (is_full b && (not (d % k_b == 0) && not (d == k_id_size)))
