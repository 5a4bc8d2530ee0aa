-- ===== src/Peer/Capabilities.antt =====
-- The capabilities of a hello, as `receive_hello` of pydevp2p/devp2p/peer.py groups them by name.
use structured_p2p_overlay_n.Prelude.{
  ℕ, Bool, true, false, ◌&&◌, Option, none, some, List, [], ◌∷◌, ◌++◌, leb, ◌==◌, if◌then◌else◌,
  Result, ok, err, ◌>>=◌, value_error,
}
use structured_p2p_overlay_n.Prelude.Bytes.{Bytes, bytes_eq}
use structured_p2p_overlay_n.Peer.Protocol.{Name, text, raw}

-- `remote_services[name].append(version)`, from an empty dict
unfoldable pub note_service : Bytes → ℕ → List (Bytes × List ℕ) → List (Bytes × List ℕ)
note_service name version [] = (name, version ∷ []) ∷ []
note_service name version ((n, vs) ∷ d) = elim (bytes_eq n name) [
  | true ↦ (n, vs ++ version ∷ []) ∷ d
  | false ↦ (n, vs) ∷ note_service name version d
]

-- The bytes that may follow in a UTF-8 sequence, as bounds, behind a byte that starts one.
unfoldable pub continuation : ℕ → Option (List (ℕ × ℕ))
continuation b =
    if leb b 127
    then some []
    else if leb b 193
    then none
    else if leb b 223
    then some ((128, 191) ∷ [])
    else if b == 224
    then some ((160, 191) ∷ (128, 191) ∷ [])
    else if b == 237
    then some ((128, 159) ∷ (128, 191) ∷ [])
    else if leb b 239
    then some ((128, 191) ∷ (128, 191) ∷ [])
    else if b == 240
    then some ((144, 191) ∷ (128, 191) ∷ (128, 191) ∷ [])
    else if leb b 243
    then some ((128, 191) ∷ (128, 191) ∷ (128, 191) ∷ [])
    else if b == 244
    then some ((128, 143) ∷ (128, 191) ∷ (128, 191) ∷ [])
    else none

-- whether bytes are UTF-8, with the bounds of those that have to follow
unfoldable pub is_utf8 : List (ℕ × ℕ) → Bytes → Bool
unfolding continuation
is_utf8 [] [] = true
is_utf8 (e ∷ es) [] = false
is_utf8 [] (b ∷ bs) = elim (continuation b) [ none ↦ false | some es ↦ is_utf8 es bs ]
is_utf8 ((low, high) ∷ es) (b ∷ bs) = elim (leb low b && leb b high) [
  | false ↦ false
  | true ↦ is_utf8 es bs
]

-- `name.decode('utf-8')`: a text is the bytes of its UTF-8, and other bytes raise a UnicodeDecodeError,
-- which is a ValueError.
unfoldable pub decode_name : Bytes → Result Bytes
unfolding is_utf8
decode_name name = if is_utf8 [] name then ok name else err value_error

unfoldable pub group_services :
    List (Bytes × List ℕ) → List (Bytes × ℕ) → Result (List (Bytes × List ℕ))
unfolding note_service decode_name
group_services d [] = ok d
group_services d ((name, version) ∷ l) =
    decode_name name >>= λ n. group_services (note_service n version d) l

-- `remote_services[proto.name]`: the names of the dict are texts, which bytes never equal.
unfoldable pub versions_of : Name → List (Bytes × List ℕ) → Option (List ℕ)
versions_of n [] = none
versions_of (raw b) (e ∷ d) = none
versions_of (text b) ((n, vs) ∷ d) = elim (bytes_eq n b) [
  | true ↦ some vs
  | false ↦ versions_of (text b) d
]
