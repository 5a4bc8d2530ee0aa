-- ===== src/Kademlia/Node.antt =====
-- `Node` of pydevp2p/devp2p/kademlia.py, and the constants of that file. Times are in milliseconds.
pub mod Members
use structured_p2p_overlay_n.Prelude.{
  Option, none, ℕ, ◌-◌, ◌*◌, ◌^◌, bit_xor, ◌≡◌, refl, ◌↔◌, Bool, true, false, not, List, [], ◌∷◌,
  arith, length, ltb, ◌==◌, if◌then◌else◌, Result, ok, assertion_error, check, ◌>>=◌, ◌>>◌,
  Bool-cases, inl, inr,
}
use structured_p2p_overlay_n.Prelude.Bytes.{Bytes, bytes_eq, bytes_eq_iff, bytes_eq_self}

abbrev pub k_b : ℕ
k_b = 8

abbrev pub k_bucket_size : ℕ
k_bucket_size = 16

abbrev pub k_request_timeout : ℕ
k_request_timeout = 900

abbrev pub k_idle_bucket_refresh_interval : ℕ
k_idle_bucket_refresh_interval = 3_600_000

abbrev pub k_find_concurrency : ℕ
k_find_concurrency = 3

abbrev pub k_id_size : ℕ
k_id_size = 256

abbrev pub k_max_node_id : ℕ
k_max_node_id = 2 ^ k_id_size - 1

-- `s.lstrip(b'\x00')`
unfoldable pub lstrip_zeros : Bytes → Bytes
lstrip_zeros [] = []
lstrip_zeros (b ∷ bs) = elim (b == 0) [ true ↦ lstrip_zeros bs | false ↦ b ∷ bs ]

-- `big_endian_to_int` of utils.py, over `rlp.sedes.big_endian_int.deserialize`
unfoldable pub big_endian_to_int : (Bytes → ℕ) → Bytes → ℕ
unfolding lstrip_zeros
big_endian_to_int deserialize s = deserialize (lstrip_zeros s)

-- A number stands for the address of a node of discovery.py; nodes of this class have none.
pub record Node : Type 0 where
  pub pubkey : Bytes
  pub id : ℕ
  pub address : Option ℕ

-- `Node.__init__`: `sha3` and `deserialize` are of third-party packages.
unfoldable pub new_node : (sha3 : Bytes → Bytes) (deserialize : Bytes → ℕ) → Bytes → Result Node
unfolding big_endian_to_int
new_node sha3 deserialize pubkey = do
  check (length pubkey == 64) assertion_error
  ok (record { pubkey = pubkey; id = big_endian_to_int deserialize (sha3 pubkey); address = none })

unfoldable pub distance : Node → Node → ℕ
distance a b = bit_xor a.id b.id

unfoldable pub id_distance : ℕ → Node → ℕ
id_distance id n = bit_xor n.id id

-- `__eq__` compares public keys, `__lt__` ids.
unfoldable pub node_eq : Node → Node → Bool
node_eq a b = bytes_eq a.pubkey b.pubkey

unfoldable pub node_ne : Node → Node → Bool
unfolding node_eq
node_ne a b = not (node_eq a b)

unfoldable pub node_lt : Node → Node → Bool
node_lt a b = ltb a.id b.id

pub node_eq_self : (a : Node) → node_eq a a ≡ true
unfolding node_eq
node_eq_self a = bytes_eq_self a.pubkey

pub node_eq_iff : (a b : Node) → (node_eq a b ≡ true) ↔ (a.pubkey ≡ b.pubkey)
unfolding node_eq
node_eq_iff a b = bytes_eq_iff a.pubkey b.pubkey

-- `node in nodes`
unfoldable pub contains : Node → List Node → Bool
contains n [] = false
contains n (m ∷ ms) = elim (node_eq m n) [ true ↦ true | false ↦ contains n ms ]

-- `nodes.remove(node)`: the first equal element goes
unfoldable pub remove : Node → List Node → List Node
remove n [] = []
remove n (m ∷ ms) = elim (node_eq m n) [ true ↦ ms | false ↦ m ∷ remove n ms ]
