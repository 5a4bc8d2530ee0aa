-- ===== src/Discovery/Endpoint.antt =====
-- Class Address of pydevp2p/devp2p/discovery.py, with the port codecs of pydevp2p/devp2p/utils.py.
use structured_p2p_overlay_n.Prelude.{
  ℕ, zero, suc, ◌-◌, ◌%◌, ◌^◌, ◌<◌, ◌≤◌, [], ◌∷◌, length, drop, All, Bool, true, false, ◌&&◌, ◌||◌,
  ltb, leb, ◌==◌, if◌then◌else◌, Result, ok, err, check, ◌>>=◌, ◌>>◌, struct_error, value_error,
  ◌≡◌, refl, ◌∙◌, arith,
}
use structured_p2p_overlay_n.Prelude.Bytes.{Bytes, bytes_eq, to_be, from_be}
use structured_p2p_overlay_n.Kademlia.Node.{lstrip_zeros, big_endian_to_int}

-- The address is kept packed, in 4 or 16 bytes.
pub record Address : Type 0 where
  pub ip : Bytes
  pub udp_port : ℕ
  pub tcp_port : ℕ

unfoldable pub is_digit : ℕ → Bool
is_digit c = leb 48 c && leb c 57

unfoldable pub is_hex : ℕ → Bool
unfolding is_digit
is_hex c = is_digit c || (leb 97 c && leb c 102)

-- what stands behind at most `n` digits
unfoldable pub skip_digits : ℕ → Bytes → Bytes
skip_digits zero b = b
skip_digits (suc n) [] = []
skip_digits (suc n) (c ∷ cs) = if is_digit c then skip_digits n cs else c ∷ cs

unfoldable pub starts_with : (ℕ → Bool) → Bytes → Bool
starts_with p [] = false
starts_with p (c ∷ cs) = p c

-- `\d{1,3}` and `n` times `\.\d{1,3}`
unfoldable pub dotted : ℕ → Bytes → Bool
unfolding starts_with skip_digits
dotted zero b = starts_with is_digit b
dotted (suc n) b =
    let rest = skip_digits 3 b in
    starts_with is_digit b && (starts_with (λ c. c == 46) rest && dotted n (drop 1 rest))

-- `([0-9a-f]{0,4}:)*([0-9a-f]{0,4})?$`, with `n` digits left in the group: `$` stands at the end or
-- before a line break that ends the bytes.
unfoldable pub hex_groups : ℕ → Bytes → Bool
unfolding is_hex
hex_groups n [] = true
hex_groups n (c ∷ cs) =
    if c == 58
    then hex_groups 4 cs
    else if is_hex c
    then ltb 0 n && hex_groups (n - 1) cs
    else c == 10 && bytes_eq cs []

-- `ip_pattern.match`
unfoldable pub ip_pattern : Bytes → Bool
unfolding dotted hex_groups
ip_pattern b = dotted 3 b || hex_groups 4 b

-- `ipaddress.ip_address` of a text and of bytes, as a packed address, and `deserialize` of
-- `big_endian_int`
pub record AddressCodec : Type 0 where
  pub of_text : Bytes → Result Bytes
  pub of_packed : Bytes → Result Bytes
  pub deserialize : Bytes → ℕ

-- A number without zeros in front is read, and a text without a dot or colon is no address.
pub record IsAddressCodec (codec : AddressCodec) : Type 0 where
  pub deserialize_lem :
      (b : Bytes) → codec.deserialize (lstrip_zeros b) ≡ from_be 0 (lstrip_zeros b)
  pub of_text-refused :
      (b : Bytes) → All (λ c. is_hex c ≡ true) b → codec.of_text b ≡ err value_error

-- `utils.ienc4(p)[-2:]`
unfoldable pub enc_port : ℕ → Result Bytes
enc_port p = check (ltb p (2 ^ 32)) struct_error >> ok (drop 2 (to_be 4 p))

-- `tcp_port or udp_port` on bytes
unfoldable pub or_else : Bytes → Bytes → Bytes
or_else [] b = b
or_else (c ∷ cs) b = c ∷ cs

unfoldable pub address_to_binary : Address → Result (Bytes × Bytes × Bytes)
unfolding enc_port
address_to_binary a =
    enc_port a.udp_port >>= λ udp. enc_port a.tcp_port >>= λ tcp. ok (a.ip, udp, tcp)

-- `update`
unfoldable pub address_update : Address → Address → Address
address_update a b = if a.tcp_port == 0 then record a { tcp_port = b.tcp_port } else a

-- `__eq__`
unfoldable pub address_eq : Address → Address → Bool
address_eq a b = bytes_eq a.ip b.ip && (a.udp_port == b.udp_port)

module _ (codec : AddressCodec) where
  unfoldable pub parse_ip : Bytes → Result Bytes
  parse_ip ip = if ip_pattern ip then codec.of_text ip else codec.of_packed ip

  -- `__init__`, with ports that are numbers
  unfoldable pub new_address : Bytes → ℕ → ℕ → Result Address
  unfolding parse_ip
  new_address ip udp_port tcp_port =
      let tcp = if tcp_port == 0 then udp_port else tcp_port in
      parse_ip ip >>= λ packed. ok (record { ip = packed; udp_port = udp_port; tcp_port = tcp })

  -- `from_binary`: `__init__` with ports that are bytes
  unfoldable pub from_binary : Bytes → Bytes → Bytes → Result Address
  unfolding parse_ip or_else big_endian_to_int
  from_binary ip udp_port tcp_port = parse_ip ip >>= λ packed. ok (record {
    ip = packed;
    udp_port = big_endian_to_int codec.deserialize udp_port;
    tcp_port = big_endian_to_int codec.deserialize (or_else tcp_port udp_port);
  })

pub from_be-lstrip_zeros : (b : Bytes) → from_be 0 (lstrip_zeros b) ≡ from_be 0 b
unfolding lstrip_zeros from_be
from_be-lstrip_zeros [] = refl
from_be-lstrip_zeros (c ∷ cs) = ground (arith, from_be-lstrip_zeros cs)

module _ (codec : AddressCodec) (reads : IsAddressCodec codec) where
  port-read : (p : ℕ) → big_endian_to_int codec.deserialize (drop 2 (to_be 4 p)) ≡ p % 2 ^ 16
  unfolding big_endian_to_int to_be from_be
  port-read p =
      reads.deserialize_lem (drop 2 (to_be 4 p))
      ∙ from_be-lstrip_zeros (drop 2 (to_be 4 p))
      ∙ omega arith

  -- The endpoint that is made of an address with ports below 2 ^ 32 is read as this address with
  -- the low 16 bits of its ports, if the bytes of the ip are not taken for a text.
  pub from_binary-address_to_binary :
      (a : Address)
      → a.udp_port < 2 ^ 32
      → a.tcp_port < 2 ^ 32
      → ip_pattern a.ip ≡ false
      → codec.of_packed a.ip ≡ ok a.ip
      → (address_to_binary a >>= λ e. from_binary codec e.0 e.1 e.2)
        ≡ ok (record { ip = a.ip; udp_port = a.udp_port % 2 ^ 16; tcp_port = a.tcp_port % 2 ^ 16 })
  unfolding address_to_binary from_binary parse_ip enc_port or_else to_be
  from_binary-address_to_binary a u t p k =
      ground (arith, port-read a.udp_port, port-read a.tcp_port)

digit-lem : (c : ℕ) → is_hex c ≡ true → (c == 58) ≡ false
unfolding is_hex is_digit
digit-lem c h = ground arith

hex_groups-hex :
    (n : ℕ) (b : Bytes) → All (λ c. is_hex c ≡ true) b → length b ≤ n → hex_groups n b ≡ true
unfolding hex_groups
hex_groups-hex n [] h short = refl
hex_groups-hex n (c ∷ cs) h short =
    ground (arith, h.0, digit-lem c h.0, hex_groups-hex (n - 1) cs h.1 (omega (arith, short)))

module _ (codec : AddressCodec) (reads : IsAddressCodec codec) where
  -- At most four bytes that are all characters of hexadecimal digits, as of the address
  -- 97.98.99.100, are taken for a text, and so raise, whatever the ports.
  pub from_binary-hex :
      (ip udp_port tcp_port : Bytes)
      → length ip ≤ 4
      → All (λ c. is_hex c ≡ true) ip
      → from_binary codec ip udp_port tcp_port ≡ err value_error
  unfolding from_binary parse_ip ip_pattern
  from_binary-hex ip udp_port tcp_port short hex =
      ground (arith, hex_groups-hex 4 ip hex short, reads.of_text-refused ip hex)
