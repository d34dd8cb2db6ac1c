-- ===== src/Modbus/Transport/Values.antt =====
-- The parts of src_py/hat/drivers/modbus/transport/encoder.py that pack coils into bits and registers
-- into pairs of bytes.
pub mod Laws
mod Byte
use hat_drivers.Base.{ℕ, zero, suc, ◌+◌, ◌*◌, ◌/◌, ◌%◌, ◌^◌, bit_and, bit_or, List, [], ◌∷◌, ◌++◌}
use hat_drivers.Base.{Bool, not, ◌&&◌, ltb, ◌==◌, if◌then◌else◌, length, get_or}
use hat_drivers.Base.{Result, ok, ◌>>=◌}
use hat_drivers.Base.Bytes.{at, slice, from_big}

-- `quantity // 8 + (1 if quantity % 8 else 0)`
unfoldable pub coil_count : ℕ → ℕ
coil_count quantity = quantity / 8 + (if quantity % 8 == 0 then 0 else 1)

-- `len(values) > k and values[k]`
abbrev pub is_set : List ℕ → ℕ → Bool
is_set values k = ltb k (length values) && not (get_or values k 0 == 0)

-- The loop `for j in range(8)` over the bits of one byte, `n` rounds before its end
unfoldable pub set_bits : (ℕ → Bool) → ℕ → ℕ → ℕ → ℕ
set_bits is_on zero j data_byte = data_byte
set_bits is_on (suc n) j data_byte =
    set_bits is_on n (j + 1) (if is_on j then bit_or data_byte (2 ^ j) else data_byte)

unfoldable pub coil_byte : List ℕ → ℕ → ℕ
unfolding set_bits
coil_byte values i = set_bits (λ j. is_set values (i * 8 + j)) 8 0 0

-- The loop `for i in range(count)`, `n` rounds before its end
unfoldable pub coil_bytes : List ℕ → ℕ → ℕ → List ℕ
coil_bytes values zero i = []
coil_bytes values (suc n) i = coil_byte values i ∷ coil_bytes values n (i + 1)

-- `[int(bool(values_bytes[i // 8] & (1 << (i % 8)))) for i in range(quantity)]`
unfoldable pub request_coils : List ℕ → ℕ → ℕ → Result (List ℕ)
request_coils values_bytes zero i = ok []
request_coils values_bytes (suc n) i = do
  byte ← at values_bytes (i / 8)
  rest ← request_coils values_bytes n (i + 1)
  ok ((if bit_and byte (2 ^ (i % 8)) == 0 then 0 else 1) ∷ rest)

-- `((i >> j) & 1 for j in range(8))`
unfoldable pub byte_bits : ℕ → ℕ → ℕ → List ℕ
byte_bits byte zero j = []
byte_bits byte (suc n) j = bit_and (byte / 2 ^ j) 1 ∷ byte_bits byte n (j + 1)

-- `list(itertools.chain.from_iterable(… for i in values_bytes))`
unfoldable pub response_coils : List ℕ → List ℕ
unfolding byte_bits
response_coils [] = []
response_coils (byte ∷ bytes) = byte_bits byte 8 0 ++ response_coils bytes

-- `for i in range(count): yield (values[i // 2] >> (0 if i % 2 else 8)) & 0xFF`
unfoldable pub request_register_bytes : List ℕ → ℕ → ℕ → Result (List ℕ)
request_register_bytes values zero i = ok []
request_register_bytes values (suc n) i = do
  value ← at values (i / 2)
  rest ← request_register_bytes values n (i + 1)
  ok (bit_and (value / 2 ^ (if i % 2 == 0 then 8 else 0)) 0xFF ∷ rest)

-- `for i in values: yield from [(i >> 8) & 0xFF, i & 0xFF]`
unfoldable pub response_register_bytes : List ℕ → List ℕ
response_register_bytes [] = []
response_register_bytes (i ∷ values) =
    bit_and (i / 256) 0xFF ∷ bit_and i 0xFF ∷ response_register_bytes values

-- `[int.from_bytes(values_bytes[i*2:(i+1)*2], 'big') for i in range(n)]`
unfoldable pub registers : List ℕ → ℕ → ℕ → List ℕ
registers values_bytes zero i = []
registers values_bytes (suc n) i =
    from_big 0 (slice (i * 2) ((i + 1) * 2) values_bytes) ∷ registers values_bytes n (i + 1)
