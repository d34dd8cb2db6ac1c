-- ===== src/Base/Bytes.antt =====
-- Python's operations on byte strings, over lists of numbers.
use hat_drivers.Base.Tests.{lt→ltb, ltb, ltb→lt, Bool-cases, if◌then◌else◌}
use hat_drivers.Base.Lists.{length, length-take, length, take, All}
use hat_drivers.Base.Outcome.{value_error, index_error, overflow_error, struct_error}
use hat_drivers.Base.Outcome.{Result, ok, err, ◌>>=◌, ◌>>◌, guard, Result-cases}
use Prim.Native.Nat.{ℕ, zero, suc, ◌+◌, max, ◌≤◌, ◌*◌, ◌/◌, ◌%◌, ◌≤◌, ◌<◌}
use mathlib.Core.Path.{◌≡◌, refl}
use mathlib.Core.List.{List, [], ◌∷◌}
use mathlib.Core.Logic.{◌⊎◌, inl, inr}
use native.Mathlib.Omega.{arith}

abbrev pub IsByte : ℕ → Type 0
IsByte b = b < 256

abbrev pub IsU16 : ℕ → Type 0
IsU16 n = n < 65536

-- `data[i]`
abbrev pub at : List ℕ → ℕ → Result ℕ
at [] i = err index_error
at (x ∷ xs) zero = ok x
at (x ∷ xs) (suc i) = at xs i

-- `data[first:last]` for `0 <= first <= last`
abbrev pub slice : ℕ → ℕ → List ℕ → List ℕ
slice zero last data' = take last data'
slice (suc first) zero data' = []
slice (suc first) (suc last) [] = []
slice (suc first) (suc last) (x ∷ xs) = slice first last xs

-- `sum(data)`
abbrev pub sum : List ℕ → ℕ
sum [] = 0
sum (x ∷ xs) = x + sum xs

-- `bytes(data)`, and `extend` of a `bytearray`: each element is below 256.
unfoldable pub to_bytes : List ℕ → Result (List ℕ)
to_bytes [] = ok []
to_bytes (x ∷ xs) = do guard (ltb x 256) value_error; rest ← to_bytes xs; ok (x ∷ rest)

-- `int.from_bytes(data, 'big')` behind a number already read
abbrev pub from_big : ℕ → List ℕ → ℕ
from_big acc [] = acc
from_big acc (x ∷ xs) = from_big (acc * 256 + x) xs

-- `int.from_bytes(data, 'little')`
abbrev pub from_little : List ℕ → ℕ
from_little [] = 0
from_little (x ∷ xs) = x + 256 * from_little xs

-- `x.to_bytes(size, 'little')`
unfoldable pub int_to_little : ℕ → ℕ → Result (List ℕ)
int_to_little x zero = if ltb 0 x then err overflow_error else ok []
int_to_little x (suc size) = do rest ← int_to_little (x / 256) size; ok ((x % 256) ∷ rest)

-- One field of `struct.pack('>…')`: `B` and `H`
unfoldable pub pack_b : ℕ → Result (List ℕ)
pack_b x = if ltb x 256 then ok (x ∷ []) else err struct_error

unfoldable pub pack_h : ℕ → Result (List ℕ)
pack_h x = if ltb x 65536 then ok ((x / 256) ∷ (x % 256) ∷ []) else err struct_error

-- `struct.unpack('>…')` of whole fields
abbrev pub unpack_hh : List ℕ → Result (ℕ × ℕ)
unpack_hh (a ∷ b ∷ c ∷ d ∷ []) = ok (a * 256 + b, c * 256 + d)
unpack_hh _ = err struct_error

abbrev pub unpack_hhb : List ℕ → Result (ℕ × ℕ × ℕ)
unpack_hhb (a ∷ b ∷ c ∷ d ∷ e ∷ []) = ok (a * 256 + b, c * 256 + d, e)
unpack_hhb _ = err struct_error

abbrev pub unpack_hhh : List ℕ → Result (ℕ × ℕ × ℕ)
unpack_hhh (a ∷ b ∷ c ∷ d ∷ e ∷ f ∷ []) = ok (a * 256 + b, c * 256 + d, e * 256 + f)
unpack_hhh _ = err struct_error

abbrev pub unpack_hhhb : List ℕ → Result (ℕ × ℕ × ℕ × ℕ)
unpack_hhhb (a ∷ b ∷ c ∷ d ∷ e ∷ f ∷ g ∷ []) = ok (a * 256 + b, c * 256 + d, e * 256 + f, g)
unpack_hhhb _ = err struct_error

pub pack_h_lem : (x : ℕ) → IsU16 x → pack_h x ≡ ok ((x / 256) ∷ (x % 256) ∷ [])
unfolding pack_h
pack_h_lem x h = rw (lt→ltb x 65536 h)

pub pack_b_lem : (x : ℕ) → IsByte x → pack_b x ≡ ok (x ∷ [])
unfolding pack_b
pack_b_lem x h = rw (lt→ltb x 256 h)

pub to_bytes_lem : (xs : List ℕ) → All IsByte xs → to_bytes xs ≡ ok xs
unfolding to_bytes
to_bytes_lem [] h = refl
to_bytes_lem (x ∷ xs) h = ground (arith, to_bytes_lem xs)

pub to_bytes-IsByte : (xs : List ℕ) {ys : List ℕ} → to_bytes xs ≡ ok ys → (ys ≡ xs) × All IsByte xs
unfolding to_bytes
to_bytes-IsByte [] h = ground arith
to_bytes-IsByte (x ∷ xs) {ys} h = elim (Result-cases (to_bytes xs)) [
  | inl (zs, e) ↦ ground (arith, e, to_bytes-IsByte xs e)
  | inr (x, e) ↦ ground (arith, e)
]

-- `bytes` accepts a list of bytes, and raises `ValueError` on any other.
pub to_bytes_cases :
    (xs : List ℕ)
    → (All IsByte xs × (to_bytes xs ≡ ok xs))
      ⊎ ((¬ All IsByte xs) × (to_bytes xs ≡ err value_error))
unfolding to_bytes
to_bytes_cases [] = inl (tt, refl)
to_bytes_cases (x ∷ xs) = elim (to_bytes_cases xs) [
  | inl (h, e) ↦ elim (Bool-cases (ltb x 256)) [
    | inl t ↦ inl ((ltb→lt x 256 t, h), rw (t, e))
    | inr t ↦ inr ((λ k. ground arith), rw t)
  ]
  | inr (h, e) ↦ elim (Bool-cases (ltb x 256)) [
    | inl t ↦ inr ((λ k. h k.1), rw (t, e))
    | inr t ↦ inr ((λ k. h k.1), rw t)
  ]
]

pub length-slice-le :
    (first last : ℕ) (xs : List ℕ) → length (slice first last xs) + first ≤ max first last
length-slice-le zero last xs = omega (arith, length-take {0} last xs)
length-slice-le (suc first) zero xs = omega arith
length-slice-le (suc first) (suc last) [] = omega arith
length-slice-le (suc first) (suc last) (x ∷ xs) = omega (arith, length-slice-le first last xs)

pub All-take {κ} : (P : ℕ → Type κ) (n : ℕ) (xs : List ℕ) → All P xs → All P (take n xs)
All-take P zero xs h = tt
All-take P (suc n) [] h = tt
All-take P (suc n) (x ∷ xs) h = (h.0, All-take P n xs h.1)

pub All-slice {κ} :
    (P : ℕ → Type κ) (first last : ℕ) (xs : List ℕ) → All P xs → All P (slice first last xs)
All-slice P zero last xs h = All-take P last xs h
All-slice P (suc first) zero xs h = tt
All-slice P (suc first) (suc last) [] h = tt
All-slice P (suc first) (suc last) (x ∷ xs) h = All-slice P first last xs h.1
