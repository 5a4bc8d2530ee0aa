-- ===== src/Kademlia/Table/Shape.antt =====
-- Replacing one bucket of a table by buckets that cover the same ids keeps the table valid.
use structured_p2p_overlay_n.Prelude.{
  ℕ, ◌+◌, ◌<◌, ◌≡◌, refl, sym, ap, subst, List, [], ◌∷◌, ◌++◌, All, All-append,
}
use structured_p2p_overlay_n.Kademlia.Node.{k_max_node_id}
use structured_p2p_overlay_n.Kademlia.Bucket.{KBucket, split}
use structured_p2p_overlay_n.Kademlia.Bucket.Lru
use structured_p2p_overlay_n.Kademlia.Bucket.Lru.{InRange, add_node-touch, remove_node-others}
use structured_p2p_overlay_n.Kademlia.Bucket.Split.{split-filter, split-IsValid}
use structured_p2p_overlay_n.Kademlia.Table.{RoutingTable, Place, put_bucket, split_bucket}
use structured_p2p_overlay_n.Kademlia.Table.Lookup.{Tiles, IsValid}

Tiles-replace :
    (lo top : ℕ) (xs ys mid : List KBucket) (b : KBucket)
    → Tiles b.start (b.end + 1) mid
    → Tiles lo top (xs ++ b ∷ ys)
    → Tiles lo top (xs ++ (mid ++ ys))
Tiles-replace lo top [] ys mid b h t =
    prefix lo (b.end + 1) mid (subst (λ k. Tiles k (b.end + 1) mid) t.0 h) t.1
  where
    prefix : (k m : ℕ) (ms : List KBucket) → Tiles k m ms → Tiles m top ys → Tiles k top (ms ++ ys)
    prefix k m [] e s = subst (λ j. Tiles j top ys) (sym e) s
    prefix k m (c ∷ cs) e s = (e.0, prefix (c.end + 1) m cs e.1 s)
Tiles-replace lo top (x ∷ xs) ys mid b h t = (t.0, Tiles-replace (x.end + 1) top xs ys mid b h t.1)

pub All-replace {κ} :
    (P : KBucket → Type κ) (xs ys mid : List KBucket) (b : KBucket)
    → All P mid
    → All P (xs ++ b ∷ ys)
    → All P (xs ++ (mid ++ ys))
All-replace P [] ys mid b h a = All-append P mid ys h a.1
All-replace P (x ∷ xs) ys mid b h a = (a.0, All-replace P xs ys mid b h a.1)

pub All-at {κ} :
    (P : KBucket → Type κ) (xs ys : List KBucket) (b : KBucket) → All P (xs ++ b ∷ ys) → P b
All-at P [] ys b a = a.0
All-at P (x ∷ xs) ys b a = All-at P xs ys b a.1

module _ (t : RoutingTable) (p : Place) (whole : p.before ++ p.found ∷ p.after ≡ t.buckets)
    (v : IsValid t) where
  tiles : Tiles 0 (k_max_node_id + 1) (p.before ++ p.found ∷ p.after)
  tiles = rw whole v.tiles

  valid : All Lru.IsValid (p.before ++ p.found ∷ p.after)
  valid = rw whole v.buckets

  pub found-IsValid : Lru.IsValid p.found
  found-IsValid = All-at Lru.IsValid p.before p.after p.found valid

  -- A valid bucket with the same range may take the place of another.
  pub put_bucket-IsValid :
      (b : KBucket)
      → b.start ≡ p.found.start
      → b.end ≡ p.found.end
      → Lru.IsValid b
      → IsValid (put_bucket p b t)
  unfolding put_bucket
  put_bucket-IsValid b s e w = record {
    tiles = Tiles-replace 0 _ p.before p.after (b ∷ []) p.found (s, ap (λ k. k + 1) e) tiles;
    buckets = All-replace Lru.IsValid p.before p.after (b ∷ []) p.found (w, tt) valid;
  }

  -- So may the two halves of a valid bucket with the same range.
  pub split_bucket-IsValid :
      (now : ℕ) (b : KBucket)
      → b.start ≡ p.found.start
      → b.end ≡ p.found.end
      → b.start < b.end
      → Lru.IsValid b
      → IsValid (split_bucket now p b t)
  unfolding split_bucket
  split_bucket-IsValid now b s e h w =
      let halves = split-IsValid now b w h in
      let cut = split-filter now b w in
      record {
        tiles =
            Tiles-replace 0 _ p.before p.after ((split now b).0 ∷ (split now b).1 ∷ []) p.found
              (rw cut (s, (refl, ap (λ k. k + 1) e))) tiles;
        buckets =
            All-replace Lru.IsValid p.before p.after ((split now b).0 ∷ (split now b).1 ∷ [])
              p.found (halves.0, (halves.1, tt)) valid;
      }
