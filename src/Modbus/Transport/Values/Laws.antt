-- ===== src/Modbus/Transport/Values/Laws.antt =====
-- Packing values and unpacking them gives them back.
use hat_drivers.Modbus.Transport.Values.Byte.{bit, coil_byte-bit, coil_byte-shift, coil_byte-IsByte}
use hat_drivers.Base.{
  ℕ, zero, suc, ◌+◌, ◌-◌, ◌*◌, ◌/◌, ◌%◌, ◌^◌, ◌≤◌, ◌<◌, ◌≡◌, refl, ap, sym, ap₂, ◌∙◌, arith,
}
use hat_drivers.Base.{bit_and, List, [], ◌∷◌, ◌++◌, length, replicate, All}
use hat_drivers.Base.{◌==◌, if◌then◌else◌, ok}
use hat_drivers.Base.Bits.{bit_and_low}
use hat_drivers.Base.Bytes.{at, slice, from_big, IsByte, IsU16}
use hat_drivers.Modbus.Transport.Values.{coil_count, is_set, coil_byte, coil_bytes}
use hat_drivers.Modbus.Transport.Values.{request_coils, byte_bits, response_coils, registers}
use hat_drivers.Modbus.Transport.Values.{request_register_bytes, response_register_bytes}
use mathlib.Core.List.{append-nil}

-- A coil is 0 or 1.
abbrev pub IsBit : ℕ → Type 0
IsBit v = v < 2

-- The coils from `i` on, and 0 where the values have ended
unfoldable pub coils_from : List ℕ → ℕ → ℕ → List ℕ
coils_from values zero i = []
coils_from values (suc n) i = bit (is_set values i) ∷ coils_from values n (i + 1)

at-coil_bytes :
    (values : List ℕ) (n i m : ℕ)
    → m < n
    → at (coil_bytes values n i) m ≡ ok (coil_byte values (i + m))
unfolding coil_bytes
at-coil_bytes values zero i m h = absurd (omega arith)
at-coil_bytes values (suc n) i zero h = ap (λ t. ok (coil_byte values t)) (omega arith)
at-coil_bytes values (suc n) i (suc m) h =
    at-coil_bytes values n (i + 1) m (omega arith) ∙ ap (λ t. ok (coil_byte values t)) (omega arith)

pub length-coil_bytes : (values : List ℕ) (n i : ℕ) → length (coil_bytes values n i) ≡ n
unfolding coil_bytes
length-coil_bytes values zero i = refl
length-coil_bytes values (suc n) i = ap suc (length-coil_bytes values n (i + 1))

pub coil_bytes-IsByte : (values : List ℕ) (n i : ℕ) → All IsByte (coil_bytes values n i)
unfolding coil_bytes
coil_bytes-IsByte values zero i = tt
coil_bytes-IsByte values (suc n) i = (coil_byte-IsByte values i, coil_bytes-IsByte values n (i + 1))

at-coil_bytes_zero :
    (values : List ℕ) (n m : ℕ) → m < n → at (coil_bytes values n 0) m ≡ ok (coil_byte values m)
at-coil_bytes_zero values n m h =
    at-coil_bytes values n 0 m h ∙ ap (λ t. ok (coil_byte values t)) (omega arith)

coil-at :
    (values : List ℕ) (i : ℕ)
    → (if bit_and (coil_byte values (i / 8)) (2 ^ (i % 8)) == 0 then 0 else 1)
      ≡ bit (is_set values i)
coil-at values i =
    coil_byte-bit values (i / 8) (i % 8) (omega arith)
    ∙ ap (λ t. bit (is_set values t)) (omega arith)

-- Reading `n` coils of a request out of the packed bytes
request_coils-from :
    (values : List ℕ) (count n i : ℕ)
    → i + n ≤ count * 8
    → request_coils (coil_bytes values count 0) n i ≡ ok (coils_from values n i)
unfolding request_coils coils_from
request_coils-from values count zero i h = refl
request_coils-from values count (suc n) i h =
    rw
      (
        at-coil_bytes_zero values count (i / 8) (omega arith),
        request_coils-from values count n (i + 1) (omega arith),
      )
      (ap (λ t. ok (t ∷ coils_from values n (i + 1))) (coil-at values i))

bit-is_set-suc :
    (v : ℕ) (values : List ℕ) (i : ℕ) → bit (is_set (v ∷ values) (suc i)) ≡ bit (is_set values i)
bit-is_set-suc v values i = ground arith

bit-is_set-zero : (v : ℕ) (values : List ℕ) → IsBit v → bit (is_set (v ∷ values) 0) ≡ v
bit-is_set-zero v values h = ground arith

coils_from-suc :
    (v : ℕ) (values : List ℕ) (n i : ℕ) → coils_from (v ∷ values) n (suc i) ≡ coils_from values n i
unfolding coils_from
coils_from-suc v values zero i = refl
coils_from-suc v values (suc n) i =
    let e : suc i + 1 ≡ suc (i + 1) = omega arith in
    rw e (ap₂ ◌∷◌ (bit-is_set-suc v values i) (coils_from-suc v values n (i + 1)))

coils_from-nil : (n i : ℕ) → coils_from [] n i ≡ replicate n 0
unfolding coils_from
coils_from-nil zero i = refl
coils_from-nil (suc n) i = ap₂ ◌∷◌ (ground arith) (coils_from-nil n (i + 1))

-- The coils are the values, and zeros behind them.
coils_from-values :
    (values : List ℕ) (k : ℕ)
    → All IsBit values
    → coils_from values (length values + k) 0 ≡ values ++ replicate k 0
unfolding coils_from
coils_from-values [] k h = let e : 0 + k ≡ k = omega arith in rw e (coils_from-nil k 0)
coils_from-values (v ∷ values) k h =
    let e : suc (length values) + k ≡ suc (length values + k) = omega arith in
    rw e (
      ap₂ ◌∷◌ (bit-is_set-zero v values h.0)
        (coils_from-suc v values (length values + k) 0 ∙ coils_from-values values k h.1))

-- A request's coils, each 0 or 1, come back as they were.
pub request_coils-coil_bytes :
    (values : List ℕ)
    → All IsBit values
    → request_coils (coil_bytes values (coil_count (length values)) 0) (length values) 0 ≡ ok values
unfolding coil_count
request_coils-coil_bytes values h =
    let e : length values + 0 ≡ length values = omega arith in
    request_coils-from values (coil_count (length values)) (length values) 0 (ground arith)
    ∙ ap ok (rw (append-nil, e) at (coils_from-values values 0 h))

coils_from-append :
    (values : List ℕ) (a b i : ℕ)
    → coils_from values (a + b) i ≡ coils_from values a i ++ coils_from values b (i + a)
unfolding coils_from
coils_from-append values zero b i = ap₂ (coils_from values) (omega arith) (omega arith)
coils_from-append values (suc a) b i =
    let e : suc a + b ≡ suc (a + b) = omega arith in
    let k : i + 1 + a ≡ i + suc a = omega arith in
    rw e (ap (◌∷◌ (bit (is_set values i))) (rw k at (coils_from-append values a b (i + 1))))

byte_bits-from :
    (values : List ℕ) (i m j : ℕ)
    → j + m ≤ 8
    → byte_bits (coil_byte values i) m j ≡ coils_from values m (i * 8 + j)
unfolding byte_bits coils_from
byte_bits-from values i zero j h = refl
byte_bits-from values i (suc m) j h =
    let e : i * 8 + (j + 1) ≡ i * 8 + j + 1 = omega arith in
    ap₂ ◌∷◌ (coil_byte-shift values i j (omega arith))
      (rw e at (byte_bits-from values i m (j + 1) (omega arith)))

response_coils-from :
    (values : List ℕ) (n i : ℕ)
    → response_coils (coil_bytes values n i) ≡ coils_from values (n * 8) (i * 8)
unfolding response_coils coil_bytes coils_from
response_coils-from values zero i = refl
response_coils-from values (suc n) i =
    let e : suc n * 8 ≡ 8 + n * 8 = omega arith in
    let k : (i + 1) * 8 ≡ i * 8 + 8 = omega arith in
    let z : i * 8 + 0 ≡ i * 8 = omega arith in
    rw e (
      ap₂ ◌++◌ (rw z at (byte_bits-from values i 8 0 (omega arith)))
        (rw k at (response_coils-from values n (i + 1)))
      ∙ sym (coils_from-append values 8 (n * 8) (i * 8)))

-- What a response's coils come back as: zeros fill the last byte.
abbrev pub padded : List ℕ → List ℕ
padded values = values ++ replicate (coil_count (length values) * 8 - length values) 0

-- A response's coils, each 0 or 1, come back as they were, with zeros that fill the last byte.
pub response_coils-coil_bytes :
    (values : List ℕ)
    → All IsBit values
    → response_coils (coil_bytes values (coil_count (length values)) 0) ≡ padded values
unfolding coil_count
response_coils-coil_bytes values h =
    let n = coil_count (length values) * 8 in
    let e : length values + (n - length values) ≡ n = ground arith in
    response_coils-from values (coil_count (length values)) 0
    ∙ (rw e at (coils_from-values values (n - length values) h))

-- The high and the low byte of each register
abbrev pub register_bytes : List ℕ → List ℕ
register_bytes [] = []
register_bytes (v ∷ values) = v / 256 ∷ v % 256 ∷ register_bytes values

pub length-register_bytes : (values : List ℕ) → length (register_bytes values) ≡ length values * 2
length-register_bytes [] = refl
length-register_bytes (v ∷ values) = omega (arith, length-register_bytes values)

pub register_bytes-IsByte :
    (values : List ℕ) → All IsU16 values → All IsByte (register_bytes values)
register_bytes-IsByte [] h = tt
register_bytes-IsByte (v ∷ values) h =
    (omega (arith, h.0), (omega arith, register_bytes-IsByte values h.1))

pub response_register_bytes_lem :
    (values : List ℕ) → All IsU16 values → response_register_bytes values ≡ register_bytes values
unfolding response_register_bytes
response_register_bytes_lem [] h = refl
response_register_bytes_lem (v ∷ values) h =
    ap₂ ◌∷◌ (omega (arith, h.0, bit_and_low 8 (v / 256)))
      (ap₂ ◌∷◌ (bit_and_low 8 v) (response_register_bytes_lem values h.1))

request_register_bytes-suc :
    (v : ℕ) (values : List ℕ) (n i : ℕ)
    → request_register_bytes (v ∷ values) n (suc (suc i)) ≡ request_register_bytes values n i
unfolding request_register_bytes
request_register_bytes-suc v values zero i = refl
request_register_bytes-suc v values (suc n) i =
    let e : suc (suc i) / 2 ≡ suc (i / 2) = omega arith in
    let k : suc (suc i) % 2 ≡ i % 2 = omega arith in
    let j : suc (suc i) + 1 ≡ suc (suc (i + 1)) = omega arith in
    rw (e, k, j, request_register_bytes-suc v values n (i + 1))

pub request_register_bytes_lem :
    (values : List ℕ)
    → All IsU16 values
    → request_register_bytes values (2 * length values) 0 ≡ ok (register_bytes values)
unfolding request_register_bytes
request_register_bytes_lem [] h = refl
request_register_bytes_lem (v ∷ values) h =
    let e : 2 * suc (length values) ≡ suc (suc (2 * length values)) = omega arith in
    let high : bit_and (v / 2 ^ 8) 0xFF ≡ v / 256 = omega (arith, h.0, bit_and_low 8 (v / 256)) in
    let low : bit_and (v / 2 ^ 0) 0xFF ≡ v % 256 = omega (arith, bit_and_low 8 (v / 1)) in
    rw (
      e,
      request_register_bytes-suc v values (2 * length values) 0,
      request_register_bytes_lem values h.1,
      high,
      low,
    )

registers-suc :
    (a b : ℕ) (bytes : List ℕ) (n i : ℕ) → registers (a ∷ b ∷ bytes) n (suc i) ≡ registers bytes n i
unfolding registers
registers-suc a b bytes zero i = refl
registers-suc a b bytes (suc n) i =
    let e : suc i * 2 ≡ suc (suc (i * 2)) = omega arith in
    let k : (suc i + 1) * 2 ≡ suc (suc ((i + 1) * 2)) = omega arith in
    let j : suc i + 1 ≡ suc (i + 1) = omega arith in
    rw (k, e, j)
      (ap (◌∷◌ (from_big 0 (slice (i * 2) ((i + 1) * 2) bytes)))
        (registers-suc a b bytes n (i + 1)))

-- The registers come back as they were.
pub registers-register_bytes :
    (values : List ℕ) → registers (register_bytes values) (length values) 0 ≡ values
unfolding registers
registers-register_bytes [] = refl
registers-register_bytes (v ∷ values) = ap₂ ◌∷◌ (omega arith) (
    registers-suc (v / 256) (v % 256) (register_bytes values) (length values) 0
    ∙ registers-register_bytes values)
