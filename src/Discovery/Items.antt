-- ===== src/Discovery/Items.antt =====
-- What the package `rlp` reads and writes in pydevp2p/devp2p/discovery.py, and the operations of
-- pydevp2p/devp2p/crypto.py that the file calls, as interfaces.
use structured_p2p_overlay_n.Prelude.{ℕ, List, [], ◌∷◌, length, Result, ok, ◌≡◌, refl, ap}
use structured_p2p_overlay_n.Prelude.Bytes.{Bytes}

-- `bytes` or a list of items
mutual
  pub data Item : Type 0 where
    blob : Bytes → Item
    group : Items → Item

  pub data Items : Type 0 where
    end : Items
    cons : Item → Items → Items

unfoldable pub to_list : Items → List Item
to_list end = []
to_list (cons i is) = i ∷ to_list is

unfoldable pub of_list : List Item → Items
of_list [] = end
of_list (i ∷ is) = cons i (of_list is)

pub to_list-of_list : (l : List Item) → to_list (of_list l) ≡ l
unfolding to_list of_list
to_list-of_list [] = refl
to_list-of_list (i ∷ is) = ap (λ l. i ∷ l) (to_list-of_list is)

-- `rlp.encode` of a list, `rlp.decode` with `strict=False`, and `serialize` and `deserialize` of
-- `big_endian_int`
pub record ItemCodec : Type 0 where
  pub encode : List Item → Bytes
  pub decode : Bytes → Result Item
  pub serialize : ℕ → Bytes
  pub deserialize : Item → Result ℕ

-- A list of these items and a number are read back.
pub record ReadsBack (codec : ItemCodec) (l : List Item) : Type 0 where
  pub decode-encode : codec.decode (codec.encode l) ≡ ok (group (of_list l))
  pub deserialize-serialize : (n : ℕ) → codec.deserialize (blob (codec.serialize n)) ≡ ok n

-- `sha3`, `sign`, which takes the hash first, and `ecdsa_recover`
pub record Signing : Type 0 where
  pub sha3 : Bytes → Bytes
  pub sign : Bytes → Bytes → Bytes
  pub ecdsa_recover : Bytes → Bytes → Result Bytes

-- The key that is recovered from a signature is the public one of the key that signed.
pub record IsSigning (crypto : Signing) (privkey pubkey : Bytes) : Type 0 where
  pub length-sha3 : (b : Bytes) → length (crypto.sha3 b) ≡ 32
  pub length-sign : (b : Bytes) → length (crypto.sign b privkey) ≡ 65
  pub length-pubkey : length pubkey ≡ 64
  pub recover-sign :
      (b : Bytes)
      → crypto.ecdsa_recover (crypto.sha3 b) (crypto.sign (crypto.sha3 b) privkey) ≡ ok pubkey
