-- ===== src/Kademlia/Tests.antt =====
-- Runs of the theorems on small nodes, buckets and tables.
use structured_p2p_overlay_n.Kademlia.Node.Members.{others}
use structured_p2p_overlay_n.Prelude.{
  ◌≤◌, All, ◌++◌, inr, out_of_fuel, some, inl, min, length, ok, err, ◌+◌, none, ◌≢◌, if◌then◌else◌,
  [], List, ◌-◌, Fault, arith, suc, ◌∷◌, ◌^◌, ◌≡◌,
}
use structured_p2p_overlay_n.Prelude.Sort.{IsSorted}
use structured_p2p_overlay_n.Kademlia.Protocol.{run_update, new_kademlia, Env}
use structured_p2p_overlay_n.Kademlia.Protocol.Runs.{here, next, bootstrap_call, perform}
use structured_p2p_overlay_n.Prelude.{refl}
use mathlib.Core.List.{Perm}
use structured_p2p_overlay_n.Kademlia.Node.{k_max_node_id, id_distance, k_id_size, contains, Node}
use structured_p2p_overlay_n.Kademlia.Bucket
use structured_p2p_overlay_n.Kademlia.Bucket.{midpoint, split, KBucket}
use structured_p2p_overlay_n.Kademlia.Bucket.Lru
use structured_p2p_overlay_n.Kademlia.Table
use structured_p2p_overlay_n.Kademlia.Table.{
  nodes_of, bucket_by_node, table_length, Place, RoutingTable,
}
use structured_p2p_overlay_n.Kademlia.Table.Lookup
use structured_p2p_overlay_n.Kademlia.Table.Effect
use structured_p2p_overlay_n.Kademlia.Table.Ends
use structured_p2p_overlay_n.Kademlia.Table.Nearest
use structured_p2p_overlay_n.Kademlia.Protocol.Fuel
use structured_p2p_overlay_n.Kademlia.Protocol.Runs
use structured_p2p_overlay_n.Kademlia.Protocol.Invariant

abbrev me : Node
me = record { pubkey = 1 ∷ []; id = 5; address = none }

abbrev near : Node
near = record { pubkey = 2 ∷ []; id = 9; address = none }

abbrev far : Node
far = record { pubkey = 3 ∷ []; id = 2 ^ 255 + 77; address = none }

-- a node whose id is the last one of the lower half
abbrev edge : Node
edge = record { pubkey = 4 ∷ []; id = 2 ^ 255 - 1; address = none }

abbrev low_bucket : KBucket
low_bucket = record {
  start = 0;
  end = 2 ^ 255 - 1;
  nodes = near ∷ [];
  replacement_cache = edge ∷ [];
  last_updated = 3;
}

abbrev high_bucket : KBucket
high_bucket = record {
  start = 2 ^ 255;
  end = k_max_node_id;
  nodes = far ∷ [];
  replacement_cache = [];
  last_updated = 4;
}

abbrev halves : RoutingTable
halves = record { this_node = me; buckets = low_bucket ∷ high_bucket ∷ [] }

low_bucket-IsValid : Lru.IsValid low_bucket
unfolding contains
low_bucket-IsValid = record {
  ordered = omega arith;
  fits = omega arith;
  distinct = (refl, tt);
  ranged = ((omega arith, omega arith), tt);
}

halves-IsValid : Lookup.IsValid halves
unfolding contains
halves-IsValid = record {
  tiles = (refl, (refl, refl));
  buckets = (
    low_bucket-IsValid,
    (
      record {
        ordered = omega arith;
        fits = omega arith;
        distinct = (refl, tt);
        ranged = ((omega arith, omega arith), tt);
      },
      tt,
    ),
  );
}

abbrev env : Env
env = record { now = 1000; echo = λ i n. i ∷ 7 ∷ []; randint = λ i lo hi. lo }

Reach-IsValid_example :
    Invariant.IsValid (perform env (bootstrap_call (near ∷ far ∷ [])) (new_kademlia 0 me)).0
Reach-IsValid_example = Runs.Reach-IsValid 0 me (next env (bootstrap_call (near ∷ far ∷ [])) here)

add_node-touch_example :
    ((Bucket.add_node 9 edge low_bucket).0
      ≡ record low_bucket { nodes = Lru.touch edge low_bucket.nodes; last_updated = 9 })
    × ((Bucket.add_node 9 edge low_bucket).1
        ≡ (if contains edge (Lru.touch edge low_bucket.nodes) then none else some near))
add_node-touch_example = Lru.add_node-touch 9 edge low_bucket low_bucket-IsValid

remove_node-others_example :
    Bucket.remove_node near low_bucket ≡ record low_bucket { nodes = others near low_bucket.nodes }
remove_node-others_example = Lru.remove_node-others near low_bucket low_bucket-IsValid

bucket_by_node-IsPlace_example :
    (p : Place) × (bucket_by_node far halves ≡ ok p) × Lookup.IsPlace far halves.buckets p
bucket_by_node-IsPlace_example =
    Lookup.bucket_by_node-IsPlace far halves halves-IsValid (omega arith)
      (elim [ inl e ↦ omega arith | inr (inl e) ↦ omega arith | inr (inr x) ↦ x ])

bucket_by_node-AtEnd_example : (e : Fault) × (bucket_by_node edge halves ≡ err e)
bucket_by_node-AtEnd_example =
    Lookup.bucket_by_node-AtEnd edge halves halves-IsValid (omega arith) (inl refl)

add_node-Effect_example : Effect.Effect halves far (Table.add_node 2 9 far halves)
add_node-Effect_example = Effect.add_node-Effect 2 9 far halves halves-IsValid

add_node_total_example : (Table.add_node (suc k_id_size) 9 far halves).1 ≢ err out_of_fuel
add_node_total_example = Ends.add_node_total 9 far halves halves-IsValid

neighbours-IsSorted_example :
    ((rest : List Node) × Perm (Table.neighbours halves 8 1 ++ rest) (nodes_of halves.buckets))
    × IsSorted (id_distance 8) (Table.neighbours halves 8 1)
    × (length (Table.neighbours halves 8 1) ≡ min 1 (table_length halves.buckets))
neighbours-IsSorted_example = Nearest.neighbours-IsSorted halves 8 1

neighbours_nearest_example :
    (rest : List Node) × Perm (Table.neighbours halves 8 1 ++ rest) (nodes_of halves.buckets)
    × All (λ x. All (λ y. id_distance 8 x ≤ id_distance 8 y) rest) (Table.neighbours halves 8 1)
unfolding table_length
neighbours_nearest_example = Nearest.neighbours_nearest halves 8 1 (omega arith)

run_update_total_example : (run_update env near none (new_kademlia 0 me)).1 ≢ err out_of_fuel
run_update_total_example =
    Fuel.run_update_total env near none (new_kademlia 0 me) (Runs.Reach-IsValid 0 me here)
