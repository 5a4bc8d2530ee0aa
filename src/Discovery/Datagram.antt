-- ===== src/Discovery/Datagram.antt =====
-- `pack`, `unpack` and `receive` of class DiscoveryProtocol in pydevp2p/devp2p/discovery.py.
-- The clock is in milliseconds, an expiration in seconds.
use structured_p2p_overlay_n.Prelude.{
  ℕ, ◌+◌, ◌*◌, ◌/◌, List, [], ◌∷◌, ◌++◌, length, take, drop, head?, true, false, ltb, ◌==◌,
  if◌then◌else◌, Option, none, some, Result, ok, err, check, of_option, ◌>>=◌, ◌>>◌,
  assertion_error, key_error, index_error, wrong_mac, packet_expired,
}
use structured_p2p_overlay_n.Prelude.Bytes.{Bytes, bytes_eq}
use structured_p2p_overlay_n.Discovery.Items.{Item, blob, group, to_list, ItemCodec, Signing}

pub data Cmd : Type 0 where
  ping pong find_node neighbours : Cmd

-- seconds that a message is good for
abbrev pub expiration : ℕ
expiration = 60

unfoldable pub cmd_id_map : Cmd → ℕ
cmd_id_map ping = 1
cmd_id_map pong = 2
cmd_id_map find_node = 3
cmd_id_map neighbours = 4

unfoldable pub rev_cmd_id_map : ℕ → Option Cmd
rev_cmd_id_map n =
    if n == 1
    then some ping
    else if n == 2
    then some pong
    else if n == 3
    then some find_node
    else if n == 4
    then some neighbours
    else none

unfoldable pub cmd_elem_count_map : Cmd → ℕ
cmd_elem_count_map ping = 4
cmd_elem_count_map pong = 3
cmd_elem_count_map find_node = 2
cmd_elem_count_map neighbours = 2

-- `payload.pop()`: the rest and the last element
unfoldable pub pop : List Item → Option (List Item × Item)
pop [] = none
pop (i ∷ []) = some ([], i)
pop (i ∷ j ∷ is) = elim (pop (j ∷ is)) [ none ↦ none | some p ↦ some (i ∷ p.0, p.1) ]

-- `isinstance(payload, list)`
unfoldable pub as_list : Item → Result (List Item)
unfolding to_list
as_list (blob b) = err assertion_error
as_list (group is) = ok (to_list is)

-- what `unpack` returns
pub record Unpacked : Type 0 where
  pub remote_pubkey : Bytes
  pub cmd : Cmd
  pub payload : List Item
  pub mdc : Bytes

-- the time `int(time.time() + self.expiration)`
unfoldable pub expires : ℕ → ℕ
expires now = (now + expiration * 1_000) / 1_000

-- `except DefectiveMessage: return`; other exceptions go on to the caller
abbrev pub drop_defective : Result Unpacked → Result (Option Unpacked)
drop_defective (ok u) = ok (some u)
drop_defective (err wrong_mac) = ok none
drop_defective (err packet_expired) = ok none
drop_defective (err e) = err e

module _ (codec : ItemCodec) (crypto : Signing) where
  -- The command id is the one of a command, so the first assertion holds.
  unfoldable pub pack : (now : ℕ) (privkey : Bytes) → Cmd → List Item → Result Bytes
  unfolding cmd_id_map expires
  pack now privkey cmd payload =
      let encoded_data = codec.encode (payload ++ blob (codec.serialize (expires now)) ∷ []) in
      let signed_data = crypto.sha3 (cmd_id_map cmd ∷ encoded_data) in
      let signature = crypto.sign signed_data privkey in
      let mdc = crypto.sha3 (signature ++ (cmd_id_map cmd ∷ encoded_data)) in
      check (length signature == 65) assertion_error
      >> (check (length mdc == 32) assertion_error
          >> ok (mdc ++ (signature ++ (cmd_id_map cmd ∷ encoded_data))))

  unfoldable pub unpack : Bytes → Result Unpacked
  unfolding rev_cmd_id_map cmd_elem_count_map as_list
  unpack message =
      let mdc = take 32 message in
      let signature = take 65 (drop 32 message) in
      let signed_data = crypto.sha3 (drop 97 message) in
      check (bytes_eq mdc (crypto.sha3 (drop 32 message))) wrong_mac
      >> (check (length signature == 65) assertion_error
          >> (crypto.ecdsa_recover signed_data signature >>= λ remote_pubkey.
              check (length remote_pubkey == 64) assertion_error
              >> (of_option index_error (head? (drop 97 message)) >>= λ cmd_id.
                  of_option key_error (rev_cmd_id_map cmd_id) >>= λ cmd.
                  codec.decode (drop 98 message) >>= λ item. as_list item >>= λ payload.
                  ok (record {
                    remote_pubkey = remote_pubkey;
                    cmd = cmd;
                    payload = take (cmd_elem_count_map cmd) payload;
                    mdc = mdc;
                  }))))

  -- `receive` up to the `try`: the message without its expiration, which it raises on
  unfoldable pub unpack_fresh : ℕ → Bytes → Result Unpacked
  unfolding unpack pop
  unpack_fresh now message = unpack message >>= λ u. of_option index_error (pop u.payload) >>= λ p.
      codec.deserialize p.1 >>= λ time.
      check (if ltb (time * 1_000) now then false else true) packet_expired
      >> ok (record u { payload = p.0 })

  -- `receive`, up to the dispatch to the handler of the command
  unfoldable pub receive : ℕ → Bytes → Result (Option Unpacked)
  unfolding unpack_fresh
  receive now message = drop_defective (unpack_fresh now message)
