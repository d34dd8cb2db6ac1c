-- ===== src/Apci/Encoder.antt =====
-- src_py/hat/drivers/iec60870/apci/common.py and encoder.py: APDUs and their bytes.
pub mod RoundTrip
pub mod Errors
use hat_drivers.Base.{ℕ, ◌+◌, ◌*◌, ◌/◌, ◌≤◌, bit_and, bit_or, List, [], ◌∷◌, length, All}
use hat_drivers.Base.{Bool, not, ◌&&◌, ltb, ◌==◌, if◌then◌else◌}
use hat_drivers.Base.{Result, ok, err, ◌>>=◌, ◌>>◌, guard, plain, value_error}
use hat_drivers.Base.Bytes.{at, slice, to_bytes, IsByte}

pub data ApduFunction : Type 0 where
  testfr_con testfr_act stopdt_con stopdt_act startdt_con startdt_act : ApduFunction

unfoldable pub function_value : ApduFunction → ℕ
function_value testfr_con = 0x83
function_value testfr_act = 0x43
function_value stopdt_con = 0x23
function_value stopdt_act = 0x13
function_value startdt_con = 0x0B
function_value startdt_act = 0x07

-- `common.ApduFunction(value)`, which raises `ValueError` on any other value
unfoldable pub to_function : ℕ → Result ApduFunction
to_function v =
    if v == 0x83
    then ok testfr_con
    else if v == 0x43
    then ok testfr_act
    else if v == 0x23
    then ok stopdt_con
    else if v == 0x13
    then ok stopdt_act
    else if v == 0x0B
    then ok startdt_con
    else if v == 0x07
    then ok startdt_act
    else err value_error

pub data Apdu : Type 0 where
  apdui : (ssn rsn : ℕ) → List ℕ → Apdu
  apdus : (rsn : ℕ) → Apdu
  apduu : ApduFunction → Apdu

unfoldable pub get_next_apdu_size : List ℕ → Result ℕ
get_next_apdu_size bs = if ltb (length bs) 2 then ok 2 else do
  start ← at bs 0
  guard (start == 0x68) plain
  size ← at bs 1
  guard (not (ltb size 4)) plain
  ok (size + 2)

-- `x & mask` as a condition
abbrev pub has_bit : ℕ → ℕ → Bool
has_bit x mask = not (bit_and x mask == 0)

-- `(high << 7) | (low >> 1)`
unfoldable pub sequence_number : ℕ → ℕ → ℕ
sequence_number high low = bit_or (high * 128) (low / 2)

unfoldable pub decode_fields : List ℕ → List ℕ → Result Apdu
unfolding to_function sequence_number
decode_fields fields payload = do
  c0 ← at fields 0
  if has_bit c0 1 && has_bit c0 2
      then (do f ← to_function c0; ok (apduu f))
      else if has_bit c0 1
      then (do c3 ← at fields 3; c2 ← at fields 2; ok (apdus (sequence_number c3 c2)))
      else do
        c1 ← at fields 1
        c3 ← at fields 3
        c2 ← at fields 2
        ok (apdui (sequence_number c1 c0) (sequence_number c3 c2) payload)

unfoldable pub decode : List ℕ → Result Apdu
decode bs = do
  start ← at bs 0
  guard (start == 0x68) plain
  size ← at bs 1
  guard (not (ltb size 4)) plain
  decode_fields (slice 2 6 bs) (slice 6 (2 + size) bs)

-- `(n << 1) & 0xFF` and `(n >> 7) & 0xFF`
unfoldable pub low_field : ℕ → ℕ
low_field n = bit_and (n * 2) 0xFF

unfoldable pub high_field : ℕ → ℕ
high_field n = bit_and (n / 128) 0xFF

-- The list `data` that `encode` builds
unfoldable pub encode_fields : Apdu → Result (List ℕ)
unfolding function_value low_field high_field
encode_fields (apdui ssn rsn payload) = do
  guard (not (ltb 0x7FFF ssn)) value_error
  guard (not (ltb 0x7FFF rsn)) value_error
  guard (not (ltb 249 (length payload))) value_error
  ok (low_field ssn ∷ high_field ssn ∷ low_field rsn ∷ high_field rsn ∷ payload)
encode_fields (apdus rsn) = do
  guard (not (ltb 0x7FFF rsn)) value_error
  ok (1 ∷ 0 ∷ low_field rsn ∷ high_field rsn ∷ [])
encode_fields (apduu f) = ok (function_value f ∷ 0 ∷ 0 ∷ 0 ∷ [])

unfoldable pub encode : Apdu → Result (List ℕ)
encode apdu = do fields ← encode_fields apdu; to_bytes (0x68 ∷ length fields ∷ fields)

-- What `encode` accepts: sequence numbers of 15 bits, and at most 249 bytes of data.
abbrev pub IsApdu : Apdu → Type 0
IsApdu (apdui ssn rsn payload) =
    (ssn ≤ 0x7FFF) × (rsn ≤ 0x7FFF) × (length payload ≤ 249) × All IsByte payload
IsApdu (apdus rsn) = rsn ≤ 0x7FFF
IsApdu (apduu f) = Unit
