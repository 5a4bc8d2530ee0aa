-- ===== src/Peer/Dispatch.antt =====
-- The command ids on the wire, pydevp2p/devp2p/peer.py: which protocol and command a peer reads.
use structured_p2p_overlay_n.Prelude.{
  of_option-eq-ok, unknown_command, ◌>>=◌, ◌≢◌, ℕ, zero, suc, ◌+◌, ◌-◌, ◌≤◌, ◌<◌, ◌≡◌, refl, ap,
  ◌∙◌, arith, Bool, true, false, some, List, [], ◌∷◌, ◌++◌, ◌==◌, if◌then◌else◌, length, get_elem?,
  ok, of_option,
}
use structured_p2p_overlay_n.Multiplexer.State.{Packet}
use structured_p2p_overlay_n.Peer.Protocol.{
  Protocol, find_protocol, offset, rewrite, by_offset, dispatch, knows,
}

-- `n` commands of a protocol from `c` on
abbrev commands : Protocol → ℕ → ℕ → List (Protocol × ℕ)
commands p c zero = []
commands p c (suc n) = (p, c) ∷ commands p (c + 1) n

-- The command space of the wire: the commands 0 to the highest one of each protocol, in order.
abbrev pub table : List Protocol → List (Protocol × ℕ)
table [] = []
table (p ∷ ps) = commands p 0 (p.max_cmd_id + 1) ++ table ps

length-commands : (p : Protocol) (c n : ℕ) → length (commands p c n) ≡ n
length-commands p c zero = refl
length-commands p c (suc n) = omega (arith, length-commands p (c + 1) n)

nth-commands :
    (p : Protocol) (c n i : ℕ) (rest : List (Protocol × ℕ))
    → i < n
    → get_elem? (commands p c n ++ rest) i ≡ some (p, c + i)
nth-commands p c zero i rest h = let impossible : ⊥ = omega arith in absurd impossible
nth-commands p c (suc n) zero rest h = ground arith
nth-commands p c (suc n) (suc i) rest h =
    nth-commands p (c + 1) n i rest (omega arith) ∙ ap (λ z. some (p, z)) (omega arith)

nth-behind :
    (p : Protocol) (c n i : ℕ) (rest : List (Protocol × ℕ))
    → n ≤ i
    → get_elem? (commands p c n ++ rest) i ≡ get_elem? rest (i - n)
nth-behind p c zero i rest h = ground arith
nth-behind p c (suc n) zero rest h = let impossible : ⊥ = omega arith in absurd impossible
nth-behind p c (suc n) (suc i) rest h =
    nth-behind p (c + 1) n i rest (omega arith) ∙ ap (get_elem? rest) (omega arith)

by_offset-nth :
    (m c : ℕ) (ps : List Protocol) → m ≤ c → by_offset m c ps ≡ get_elem? (table ps) (c - m)
unfolding by_offset
by_offset-nth m c [] h = refl
by_offset-nth m c (p ∷ ps) h = ground (
  arith,
  nth-commands p 0 (p.max_cmd_id + 1) (c - m) (table ps),
  nth-behind p 0 (p.max_cmd_id + 1) (c - m) (table ps),
  by_offset-nth (m + (p.max_cmd_id + 1)) c ps,
)

-- Every protocol before the first one with the id `i` takes room in the command space.
abbrev pub HasRoom : ℕ → List Protocol → Type 0
HasRoom i [] = Unit
HasRoom i (p ∷ ps) = elim (p.protocol_id == i) [
  | true ↦ Unit
  | false ↦ (1 ≤ p.max_cmd_id) × HasRoom i ps
]

-- the protocols before the first one with the id `i` that take no room when a packet is sent
abbrev pub roomless : ℕ → List Protocol → ℕ
roomless i [] = 0
roomless i (p ∷ ps) = elim (p.protocol_id == i) [
  | true ↦ 0
  | false ↦ (if p.max_cmd_id == 0 then 1 else 0) + roomless i ps
]

find_protocol-id :
    (i : ℕ) (ps : List Protocol) (p : Protocol) → find_protocol i ps ≡ some p → p.protocol_id ≡ i
unfolding find_protocol
find_protocol-id i [] p h = cc
find_protocol-id i (q ∷ ps) p h = ground (arith, find_protocol-id i ps p)

by_offset-offset :
    (m c i : ℕ) (ps : List Protocol) (p : Protocol)
    → find_protocol i ps ≡ some p
    → c ≤ p.max_cmd_id
    → HasRoom i ps
    → by_offset m (m + offset i ps + c) ps ≡ some (p, c)
unfolding by_offset offset find_protocol
by_offset-offset m c i [] p found small room = cc
by_offset-offset m c i (q ∷ ps) p found small room =
    ground (arith, by_offset-offset (m + (q.max_cmd_id + 1)) c i ps p)

-- Behind `s` ids that were given out and `max_id` ids that are passed over, `z` too many.
by_offset-misread :
    (sent max_id s z c i : ℕ) (ps : List Protocol) (p : Protocol)
    → sent ≡ s + offset i ps + c
    → max_id ≡ s + z
    → find_protocol i ps ≡ some p
    → c ≤ p.max_cmd_id
    → 1 ≤ z + roomless i ps
    → max_id ≤ sent
    → by_offset max_id sent ps ≢ some (p, c)
unfolding by_offset offset find_protocol
by_offset-misread sent max_id s z c i [] p e₁ e₂ found small some_z reached = λ h. cc
by_offset-misread sent max_id s z c i (q ∷ ps) p e₁ e₂ found small some_z reached = λ h. ground (
  arith,
  find_protocol-id i (q ∷ ps) p found,
  by_offset-misread sent (max_id + (q.max_cmd_id + 1))
      (s + (if q.max_cmd_id == 0 then 0 else q.max_cmd_id + 1))
      (z + (if q.max_cmd_id == 0 then 1 else 0)) c i ps p,
)

-- In the mode that goes by offsets a packet is read as the command that stands at its id in the
-- command space, and has an unknown command behind the end of it.
pub dispatch-table :
    (ps : List Protocol) (packet : Packet)
    → dispatch true ps packet ≡ of_option unknown_command (get_elem? (table ps) packet.cmd_id)
unfolding dispatch
dispatch-table ps packet =
    ap (of_option unknown_command)
      (by_offset-nth 0 packet.cmd_id ps (omega arith) ∙ ap (get_elem? (table ps)) (omega arith))

-- A packet of a known command, up to the highest id of its protocol, is read by a peer with the same
-- protocols in the same mode as this command of this protocol, if, in the mode that goes by offsets,
-- every protocol before it has a highest id above 0.
pub dispatch-rewrite :
    (mode : Bool) (ps : List Protocol) (packet : Packet) (p : Protocol)
    → find_protocol packet.protocol_id ps ≡ some p
    → knows packet.cmd_id p.cmd_ids ≡ true
    → packet.cmd_id ≤ p.max_cmd_id
    → HasRoom packet.protocol_id ps
    → (rewrite mode ps packet >>= dispatch mode ps) ≡ ok (p, packet.cmd_id)
unfolding dispatch rewrite
dispatch-rewrite true ps packet p found known small room =
    let i = packet.protocol_id in
    let order : packet.cmd_id + offset i ps ≡ 0 + offset i ps + packet.cmd_id = omega arith in
    rw (found, known, order, by_offset-offset 0 packet.cmd_id i ps p found small room) refl
dispatch-rewrite false ps packet p found known small room = rw (found, known, found) refl

-- In the mode that goes by offsets, a packet of a known command is never read as this command, if a
-- protocol with the highest id 0 stands before its protocol.
pub dispatch-rewrite-roomless :
    (ps : List Protocol) (packet : Packet) (p : Protocol)
    → find_protocol packet.protocol_id ps ≡ some p
    → knows packet.cmd_id p.cmd_ids ≡ true
    → packet.cmd_id ≤ p.max_cmd_id
    → 1 ≤ roomless packet.protocol_id ps
    → (rewrite true ps packet >>= dispatch true ps) ≢ ok (p, packet.cmd_id)
unfolding dispatch rewrite
dispatch-rewrite-roomless ps packet p found known small zero_before =
    let i = packet.protocol_id in
    let wrong =
      by_offset-misread (packet.cmd_id + offset i ps) 0 0 0 packet.cmd_id i ps p (omega arith) refl
        found small (omega (arith, zero_before)) (omega arith) in
    rw (found, known) (λ h. wrong (of_option-eq-ok unknown_command _ h))
