-- ===== src/Kademlia/Node/Members.antt =====
-- Lists of nodes as the program searches them: by the public key.
use mathlib.Core.Path.{◌∙◌}
use structured_p2p_overlay_n.Prelude.{
  ◌+◌, ◌≡◌, refl, sym, ap, Bool, true, false, not, ◌&&◌, ◌||◌, List, [], ◌∷◌, ◌++◌, arith, length,
  filter, Bool-cases, inl, inr,
}
use structured_p2p_overlay_n.Kademlia.Node.{Node, node_eq, node_eq_iff, contains, remove}

-- No public key stands twice.
abbrev pub Distinct : List Node → Type 0
Distinct [] = Unit
Distinct (n ∷ ns) = (contains n ns ≡ false) × Distinct ns

-- All but the nodes equal to `n`.
abbrev pub others : Node → List Node → List Node
others n = filter (λ m. not (node_eq m n))

pub node_eq_comm : (a b : Node) → node_eq a b ≡ node_eq b a
node_eq_comm a b = elim (Bool-cases (node_eq a b)) [
  | inl e ↦ e ∙ sym ((node_eq_iff b a).1 (sym ((node_eq_iff a b).0 e)))
  | inr e ↦ elim (Bool-cases (node_eq b a)) [
    | inl f ↦ (node_eq_iff a b).1 (sym ((node_eq_iff b a).0 f)) ∙ sym f
    | inr f ↦ e ∙ sym f
  ]
]

-- What is equal to a node is equal to the same nodes.
pub node_eq_congr : (a b c : Node) → node_eq a b ≡ true → node_eq c a ≡ node_eq c b
node_eq_congr a b c e = elim (Bool-cases (node_eq c a)) [
  | inl f ↦ f ∙ sym ((node_eq_iff c b).1 ((node_eq_iff c a).0 f ∙ (node_eq_iff a b).0 e))
  | inr f ↦ elim (Bool-cases (node_eq c b)) [
    | inl g ↦ (node_eq_iff c a).1 ((node_eq_iff c b).0 g ∙ sym ((node_eq_iff a b).0 e)) ∙ sym g
    | inr g ↦ f ∙ sym g
  ]
]

pub contains_congr :
    (a b : Node) (ns : List Node) → node_eq a b ≡ true → contains a ns ≡ contains b ns
unfolding contains
contains_congr a b [] e = refl
contains_congr a b (n ∷ ns) e = ground (arith, node_eq_congr a b n e, contains_congr a b ns e)

pub contains-append :
    (n : Node) (xs ys : List Node) → contains n (xs ++ ys) ≡ (contains n xs || contains n ys)
unfolding contains
contains-append n [] ys = refl
contains-append n (x ∷ xs) ys = ground (arith, contains-append n xs ys)

pub contains-snoc :
    (n m : Node) (xs : List Node) → contains n (xs ++ m ∷ []) ≡ (contains n xs || node_eq m n)
unfolding contains
contains-snoc n m [] = ground arith
contains-snoc n m (x ∷ xs) = ground (arith, contains-snoc n m xs)

-- In a list without repetition `remove` takes out every equal node, and one node at most.
pub remove-others_absent : (n : Node) (ns : List Node) → contains n ns ≡ false → others n ns ≡ ns
unfolding contains filter
remove-others_absent n [] h = refl
remove-others_absent n (m ∷ ms) h = ground (arith, remove-others_absent n ms)

pub remove-others : (n : Node) (ns : List Node) → Distinct ns → remove n ns ≡ others n ns
unfolding remove filter
remove-others n [] d = refl
remove-others n (m ∷ ms) d = elim (Bool-cases (node_eq m n)) [
  | inl e ↦
      rw (e, remove, filter) (sym (remove-others_absent n ms (sym (contains_congr m n ms e) ∙ d.0)))
  | inr e ↦ rw (e, remove, filter) (ap (◌∷◌ m) (remove-others n ms d.1))
]

pub length-remove :
    (n : Node) (ns : List Node) → contains n ns ≡ true → length (remove n ns) + 1 ≡ length ns
unfolding contains remove
length-remove n [] h = cc
length-remove n (m ∷ ms) h = ground (arith, length-remove n ms)

pub contains-others :
    (q n : Node) (ns : List Node) → contains q (others n ns) ≡ (contains q ns && not (node_eq q n))
unfolding contains filter
contains-others q n [] = refl
contains-others q n (m ∷ ms) = elim (Bool-cases (node_eq m q)) [
  | inl e ↦
      ground
        (arith, contains-others q n ms, node_eq_congr m q n e, node_eq_comm m n, node_eq_comm q n)
  | inr e ↦ ground (arith, contains-others q n ms)
]

pub others-Distinct : (n : Node) (ns : List Node) → Distinct ns → Distinct (others n ns)
unfolding filter
others-Distinct n [] d = tt
others-Distinct n (m ∷ ms) d = ground (arith, others-Distinct n ms d.1, contains-others m n ms)

pub snoc-Distinct :
    (n : Node) (ns : List Node) → Distinct ns → contains n ns ≡ false → Distinct (ns ++ n ∷ [])
unfolding contains
snoc-Distinct n [] d h = (refl, tt)
snoc-Distinct n (m ∷ ms) d h =
    ground (arith, snoc-Distinct n ms d.1, contains-snoc m n ms, node_eq_comm m n)

not_contains-filter :
    (q : Node) (p : Node → Bool) (ns : List Node)
    → contains q ns ≡ false
    → contains q (filter p ns) ≡ false
unfolding contains filter
not_contains-filter q p [] h = refl
not_contains-filter q p (n ∷ ns) h = ground (arith, not_contains-filter q p ns)

pub filter-Distinct : (p : Node → Bool) (ns : List Node) → Distinct ns → Distinct (filter p ns)
unfolding filter
filter-Distinct p [] d = tt
filter-Distinct p (n ∷ ns) d =
    ground (arith, filter-Distinct p ns d.1, not_contains-filter n p ns d.0)

-- A list is what passes a test and what does not.
pub contains-filter-filter :
    (q : Node) (p : Node → Bool) (ns : List Node)
    → contains q ns ≡ (contains q (filter p ns) || contains q (filter (λ n. not (p n)) ns))
unfolding contains filter
contains-filter-filter q p [] = refl
contains-filter-filter q p (n ∷ ns) = ground (arith, contains-filter-filter q p ns)
