-- ===== src/Mqtt/Primitives.antt =====
-- Integers, strings and binary data in src_py/hat/drivers/mqtt/transport/encoder.py.
pub mod RoundTrip
pub mod Sequence
pub mod Uintvar
pub mod Drains
use hat_drivers.Base.{
  ℕ, zero, suc, ◌+◌, ◌*◌, ◌/◌, ◌^◌, bit_and, bit_or, List, [], ◌∷◌, ◌++◌, length,
}
use hat_drivers.Base.{
  take, drop, true, false, not, ltb, leb, ◌==◌, Result, ok, err, ◌>>=◌, ◌>>◌, guard,
}
use hat_drivers.Base.{value_error, stuck, mqtt_malformed_packet}
use hat_drivers.Base.Utf8.{is_utf8}
use hat_drivers.Mqtt.Common.{Text}

unfoldable pub encode_uint8 : ℕ → Result (List ℕ)
encode_uint8 value = do guard (leb value 0xff) value_error; ok (value ∷ [])

unfoldable pub decode_uint8 : List ℕ → Result (ℕ × List ℕ)
decode_uint8 (a ∷ rest) = ok (a, rest)
decode_uint8 [] = err mqtt_malformed_packet

unfoldable pub encode_uint16 : ℕ → Result (List ℕ)
encode_uint16 value = do
  guard (leb value 0xffff) value_error
  ok (bit_and (value / 2 ^ 8) 0xff ∷ bit_and value 0xff ∷ [])

unfoldable pub decode_uint16 : List ℕ → Result (ℕ × List ℕ)
decode_uint16 (a ∷ b ∷ rest) = ok (bit_or (a * 2 ^ 8) b, rest)
decode_uint16 _ = err mqtt_malformed_packet

unfoldable pub encode_uint32 : ℕ → Result (List ℕ)
encode_uint32 value = do
  guard (leb value 0xffffffff) value_error
  ok (
      bit_and (value / 2 ^ 24) 0xff
      ∷ bit_and (value / 2 ^ 16) 0xff
      ∷ bit_and (value / 2 ^ 8) 0xff
      ∷ bit_and value 0xff
      ∷ [])

unfoldable pub decode_uint32 : List ℕ → Result (ℕ × List ℕ)
decode_uint32 (a ∷ b ∷ c ∷ d ∷ rest) =
    ok (bit_or (bit_or (bit_or (a * 2 ^ 24) (b * 2 ^ 16)) (c * 2 ^ 8)) d, rest)
decode_uint32 _ = err mqtt_malformed_packet

-- The loop of `_encode_uintvar`; four rounds are enough for 28 bits.
unfoldable pub uintvar_bytes : ℕ → ℕ → Result (List ℕ)
uintvar_bytes zero value = err stuck
uintvar_bytes (suc fuel) value = elim (value / 2 ^ 7 == 0) [
  | true ↦ ok (bit_and value 0x7f ∷ [])
  | false ↦ do
    rest ← uintvar_bytes fuel (value / 2 ^ 7)
    ok (bit_or (bit_and value 0x7f) 0x80 ∷ rest)
]

unfoldable pub encode_uintvar : ℕ → Result (List ℕ)
unfolding uintvar_bytes
encode_uintvar value = do guard (leb value 0x0fffffff) value_error; uintvar_bytes 4 value

-- The loop of `_decode_uintvar`, `n` rounds before `i > 3`
unfoldable pub uintvar_from : ℕ → ℕ → ℕ → List ℕ → Result (ℕ × List ℕ)
uintvar_from zero i value bs = err mqtt_malformed_packet
uintvar_from (suc n) i value [] = err mqtt_malformed_packet
uintvar_from (suc n) i value (b ∷ bs) =
    let value' = bit_or value (bit_and b 0x7f * 2 ^ (i * 7)) in
    elim (bit_and b 0x80 == 0) [ true ↦ ok (value', bs) | false ↦ uintvar_from n (i + 1) value' bs ]

unfoldable pub decode_uintvar : List ℕ → Result (ℕ × List ℕ)
unfolding uintvar_from
decode_uintvar bs = uintvar_from 4 0 0 bs

unfoldable pub encode_binary : List ℕ → Result (List ℕ)
encode_binary value = do size ← encode_uint16 (length value); ok (size ++ value)

unfoldable pub decode_binary : List ℕ → Result (List ℕ × List ℕ)
decode_binary bs = do
  (size, rest) ← decode_uint16 bs
  guard (not (ltb (length rest) size)) mqtt_malformed_packet
  ok (take size rest, drop size rest)

-- `value.encode()` of a string is the string here.
unfoldable pub encode_string : Text → Result (List ℕ)
encode_string value = do size ← encode_uint16 (length value); ok (size ++ value)

unfoldable pub decode_string : List ℕ → Result (Text × List ℕ)
decode_string bs = do
  (size, rest) ← decode_uint16 bs
  guard (not (ltb (length rest) size)) mqtt_malformed_packet
  guard (is_utf8 (take size rest)) mqtt_malformed_packet
  ok (take size rest, drop size rest)

-- One generator after another: `yield from a; yield from b`
infixr 6 ◌+>◌
abbrev pub ◌+>◌ : Result (List ℕ) → Result (List ℕ) → Result (List ℕ)
a +> b = do image ← a; rest ← b; ok (image ++ rest)

-- `for i in items: yield from write(i)`
unfoldable pub encode_all : {A : Type 0} (write : A → Result (List ℕ)) → List A → Result (List ℕ)
encode_all write [] = ok []
encode_all write (a ∷ items) = write a +> encode_all write items

-- `while data: item, data = read(data); items.append(item)`; each round takes a byte at least.
unfoldable pub decode_all :
    {A : Type 0} (read : List ℕ → Result (A × List ℕ)) → ℕ → List ℕ → Result (List A)
decode_all read fuel [] = ok []
decode_all read zero (b ∷ bs) = err stuck
decode_all read (suc fuel) (b ∷ bs) = do
  (a, rest) ← read (b ∷ bs)
  items ← decode_all read fuel rest
  ok (a ∷ items)
