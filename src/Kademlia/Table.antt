-- ===== src/Kademlia/Table.antt =====
-- `RoutingTable` of pydevp2p/devp2p/kademlia.py. Buckets are objects that the table holds by
-- reference, so the search for a bucket gives its place: what stands before it and after it.
pub mod Lookup
pub mod Shape
pub mod Adds
pub mod Keeps
pub mod Effect
pub mod Ends
pub mod Nearest
pub mod Removal
pub mod Addresses
use structured_p2p_overlay_n.Prelude.{
  ℕ, zero, suc, ◌+◌, ◌-◌, ◌*◌, ◌%◌, ◌≡◌, Bool, true, false, not, ◌&&◌, ◌||◌, Option, none, some,
  List, [], ◌∷◌, ◌++◌, length, take, filter, ltb, leb, ◌==◌, if◌then◌else◌, Result, ok, err,
  assertion_error, bare_exception, out_of_fuel, check, ◌>>=◌, ◌>>◌,
}
use structured_p2p_overlay_n.Prelude.Sort.{sorted}
use structured_p2p_overlay_n.Kademlia.Bucket
use structured_p2p_overlay_n.Kademlia.Bucket.{
  KBucket, new_bucket, bucket_id_distance, nodes_by_id_distance, in_range, depth, split,
}
use structured_p2p_overlay_n.Kademlia.Node.{
  Node, k_b, k_bucket_size, k_id_size, k_max_node_id, k_idle_bucket_refresh_interval, id_distance,
  node_ne, contains,
}

pub record RoutingTable : Type 0 where
  pub this_node : Node
  pub buckets : List KBucket

unfoldable pub new_table : ℕ → Node → RoutingTable
unfolding new_bucket
new_table now n = record { this_node = n; buckets = new_bucket now 0 k_max_node_id ∷ [] }

pub record Place : Type 0 where
  pub before : List KBucket
  pub found : KBucket
  pub after : List KBucket

abbrev pub later : KBucket → Place → Place
later b p = record p { before = b ∷ p.before }

-- the loop of `bucket_by_node`
unfoldable pub find_bucket : Node → List KBucket → Result Place
find_bucket n [] = err bare_exception
find_bucket n (b ∷ bs) = elim (ltb n.id b.end) [
  | true ↦ do
    check (leb b.start n.id) assertion_error
    ok (record { before = []; found = b; after = bs })
  | false ↦ do p ← find_bucket n bs; ok (later b p)
]

unfoldable pub bucket_by_node : Node → RoutingTable → Result Place
unfolding find_bucket
bucket_by_node n t = find_bucket n t.buckets

-- the table after the bucket at a place has become `b`
unfoldable pub put_bucket : Place → KBucket → RoutingTable → RoutingTable
put_bucket p b t = record t { buckets = p.before ++ b ∷ p.after }

unfoldable pub split_bucket : ℕ → Place → KBucket → RoutingTable → RoutingTable
split_bucket now p b t =
    let (lower, upper) = split now b in record t { buckets = p.before ++ lower ∷ upper ∷ p.after }

abbrev pub State : Type 0
State = RoutingTable × Result (Option Node)

-- the test of `add_node` on a full bucket
unfoldable pub may_split : RoutingTable → KBucket → Result Bool
may_split t b = do
  d ← depth b
  ok (in_range b t.this_node || (not (d % k_b == 0) && not (d == k_id_size)))

-- What `add_node` does with a full bucket: it splits it and tries again, or hands back the
-- candidate. A raise leaves the table as it is by then.
unfoldable pub when_full :
    (retry : RoutingTable → State) → ℕ → Place → KBucket → RoutingTable → Node → Result Bool → State
unfolding split_bucket
when_full retry now p b t candidate (err e) = (t, err e)
when_full retry now p b t candidate (ok true) = retry (split_bucket now p b t)
when_full retry now p b t candidate (ok false) = (t, ok (some candidate))

unfoldable pub after_bucket :
    (retry : RoutingTable → State) → ℕ → Place → KBucket → RoutingTable → Option Node → State
unfolding when_full may_split
after_bucket retry now p b t none = (t, ok none)
after_bucket retry now p b t (some candidate) = when_full retry now p b t candidate (may_split t b)

unfoldable pub add_at :
    (retry : RoutingTable → State) → ℕ → Node → RoutingTable → Result Place → State
unfolding after_bucket put_bucket
add_at retry now n t (err e) = (t, err e)
add_at retry now n t (ok p) =
    let (b, candidate) = Bucket.add_node now n p.found in
    after_bucket retry now p b (put_bucket p b t) candidate

unfoldable pub add_node : (fuel : ℕ) → ℕ → Node → RoutingTable → State
unfolding add_at bucket_by_node
add_node zero now n t = (t, err out_of_fuel)
add_node (suc f) now n t =
    if node_ne n t.this_node
    then add_at (λ u. add_node f now n u) now n t (bucket_by_node n t)
    else (t, err assertion_error)

unfoldable pub remove_at : Node → RoutingTable → Result Place → RoutingTable × Result (Unit {0})
unfolding put_bucket
remove_at n t (err e) = (t, err e)
remove_at n t (ok p) = (put_bucket p (Bucket.remove_node n p.found) t, ok tt)

unfoldable pub remove_node : Node → RoutingTable → RoutingTable × Result (Unit {0})
unfolding remove_at bucket_by_node
remove_node n t = remove_at n t (bucket_by_node n t)

-- `__contains__` looks into one bucket; `__len__` and `__iter__` go through all.
unfoldable pub table_contains : Node → RoutingTable → Result Bool
unfolding bucket_by_node
table_contains n t = do p ← bucket_by_node n t; ok (contains n p.found.nodes)

unfoldable pub nodes_of : List KBucket → List Node
nodes_of [] = []
nodes_of (b ∷ bs) = b.nodes ++ nodes_of bs

unfoldable pub table_length : List KBucket → ℕ
table_length [] = 0
table_length (b ∷ bs) = length b.nodes + table_length bs

-- `b.last_updated < time.time() - k_idle_bucket_refresh_interval`, with the difference moved over
unfoldable pub idle_buckets : ℕ → RoutingTable → List KBucket
unfolding filter
idle_buckets now t =
    filter (λ (b : KBucket). ltb (b.last_updated + k_idle_bucket_refresh_interval) now) t.buckets

unfoldable pub not_full_buckets : RoutingTable → List KBucket
unfolding filter
not_full_buckets t = filter (λ (b : KBucket). ltb (length b.nodes) k_bucket_size) t.buckets

unfoldable pub buckets_by_id_distance : ℕ → RoutingTable → List KBucket
unfolding sorted bucket_id_distance
buckets_by_id_distance id t = sorted (bucket_id_distance id) t.buckets

-- the inner loop of `neighbours`: it is left when the list has exactly `limit` nodes
unfoldable pub collect : (limit : ℕ) → List Node → List Node → List Node
collect limit acc [] = acc
collect limit acc (n ∷ ns) =
    let acc' = acc ++ n ∷ [] in
    elim (length acc' == limit) [ true ↦ acc' | false ↦ collect limit acc' ns ]

unfoldable pub collect_all : (limit id : ℕ) → List Node → List KBucket → List Node
unfolding collect nodes_by_id_distance
collect_all limit id acc [] = acc
collect_all limit id acc (b ∷ bs) =
    collect_all limit id (collect limit acc (nodes_by_id_distance b id)) bs

-- `neighbours(node, k)`; `node` is an id by the time of the loop, so no `n is not node` fails.
unfoldable pub neighbours : RoutingTable → ℕ → ℕ → List Node
unfolding collect_all buckets_by_id_distance sorted id_distance
neighbours t id k =
    take k (sorted (id_distance id) (collect_all (k * 2) id [] (buckets_by_id_distance id t)))

unfoldable pub neighbours_within_distance : RoutingTable → ℕ → ℕ → List Node
unfolding nodes_of sorted filter id_distance
neighbours_within_distance t id distance =
    sorted (id_distance id)
      (filter (λ (n : Node). leb (id_distance id n) distance) (nodes_of t.buckets))
