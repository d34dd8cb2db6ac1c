-- ===== src/Mqtt/Primitives/Uintvar.antt =====
-- The shape of numbers of variable length: each byte but the last has the bit 0x80.
use hat_drivers.Base.{ℕ, zero, suc, ◌≤◌, ◌/◌, ◌%◌, ◌^◌, ◌≡◌, ◌≢◌, refl, arith, bit_and, bit_or}
use hat_drivers.Base.{List, [], ◌∷◌, ◌++◌, length, true, false, ◌==◌, leb, ok, ◌>>=◌}
use hat_drivers.Base.{All}
use hat_drivers.Base.Bytes.{IsByte}
use hat_drivers.Base.{Bool-cases, Result-cases, inl, inr}
use mathlib.Core.Path.{subst}
use hat_drivers.Mqtt.Primitives.{uintvar_bytes, encode_uintvar, decode_uintvar}
use hat_drivers.Mqtt.Primitives.RoundTrip.{
  uintvar-Reads, seven_bits, set_flag, clear_flag, read_flag,
}

-- At most `n` bytes, of which the last one alone lacks the bit
abbrev pub IsUintvar : ℕ → List ℕ → Type 0
IsUintvar n [] = ⊥
IsUintvar zero (b ∷ bs) = ⊥
IsUintvar (suc n) (b ∷ []) = (bit_and b 0x80 == 0) ≡ true
IsUintvar (suc n) (b ∷ c ∷ bs) = ((bit_and b 0x80 == 0) ≡ false) × IsUintvar n (c ∷ bs)

cons-IsUintvar :
    (n b : ℕ) (bs : List ℕ)
    → (bit_and b 0x80 == 0) ≡ false
    → IsUintvar n bs
    → IsUintvar (suc n) (b ∷ bs)
cons-IsUintvar n b [] h k = absurd k
cons-IsUintvar n b (c ∷ bs) h k = (h, k)

last_byte : (v : ℕ) → (bit_and (bit_and v 0x7f) 0x80 == 0) ≡ true
last_byte v = rw (seven_bits v, clear_flag (v % 128) (omega arith)) refl

other_byte : (v : ℕ) → (bit_and (bit_or (bit_and v 0x7f) 0x80) 0x80 == 0) ≡ false
other_byte v =
    rw (seven_bits v, set_flag (v % 128) (omega arith), read_flag (v % 128) (omega arith)) refl

no_rounds : (v : ℕ) {image : List ℕ} → uintvar_bytes zero v ≢ ok image
unfolding uintvar_bytes
no_rounds v e = cc

last_step : (n v : ℕ) → (v / 2 ^ 7 == 0) ≡ true → uintvar_bytes (suc n) v ≡ ok (bit_and v 0x7f ∷ [])
unfolding uintvar_bytes
last_step n v t = rw (uintvar_bytes, t) refl

next_step :
    (n v : ℕ)
    → (v / 2 ^ 7 == 0) ≡ false
    → uintvar_bytes (suc n) v
      ≡ (uintvar_bytes n (v / 2 ^ 7) >>= λ rest. ok (bit_or (bit_and v 0x7f) 0x80 ∷ rest))
unfolding uintvar_bytes
next_step n v t = rw (uintvar_bytes, t) refl

pub bytes-IsUintvar : (n v : ℕ) (image : List ℕ) → uintvar_bytes n v ≡ ok image → IsUintvar n image
bytes-IsUintvar zero v image e = absurd (no_rounds v e)
bytes-IsUintvar (suc n) v image e = elim (Bool-cases (v / 2 ^ 7 == 0)) [
  | inl t ↦
      let i : bit_and v 0x7f ∷ [] ≡ image = cc (last_step n v t, e) in
      subst (IsUintvar (suc n)) i (last_byte v)
  | inr t ↦ elim (Result-cases (uintvar_bytes n (v / 2 ^ 7))) [
    | inl (rest, r) ↦
        let i : bit_or (bit_and v 0x7f) 0x80 ∷ rest ≡ image = cc (rw r at (next_step n v t), e) in
        subst (IsUintvar (suc n)) i (
          cons-IsUintvar n (bit_or (bit_and v 0x7f) 0x80) rest (other_byte v)
            (bytes-IsUintvar n (v / 2 ^ 7) rest r))
    | inr (x, r) ↦ absurd (cc (rw r at (next_step n v t), e))
  ]
]

pub encode_uintvar_lem : (v : ℕ) (image : List ℕ) → encode_uintvar v ≡ ok image → IsUintvar 4 image
unfolding encode_uintvar
encode_uintvar_lem v image e = elim (Bool-cases (leb v 0x0fffffff)) [
  | inl t ↦ bytes-IsUintvar 4 v image (rw t at e)
  | inr t ↦ absurd (cc (rw t at e))
]

uintvar-length : (n : ℕ) (bs : List ℕ) → IsUintvar n bs → length bs ≤ n
uintvar-length n [] h = absurd h
uintvar-length zero (b ∷ bs) h = absurd h
uintvar-length (suc n) (b ∷ []) h = omega arith
uintvar-length (suc n) (b ∷ c ∷ bs) h = omega (arith, uintvar-length n (c ∷ bs) h.1)

-- For a number up to 0x0fffffff, `_encode_uintvar` gives at most four bytes, of which the last one alone
-- lacks the bit 0x80, and `_decode_uintvar` reads the number back, whatever follows.
pub encode_uintvar_cases :
    (v : ℕ) (rest : List ℕ)
    → v ≤ 0x0fffffff
    → (bs : List ℕ) × (encode_uintvar v ≡ ok bs)
      × All IsByte bs
      × (length bs ≤ 4)
      × IsUintvar 4 bs
      × (decode_uintvar (bs ++ rest) ≡ ok (v, rest))
encode_uintvar_cases v rest h =
    let r = uintvar-Reads v h in
    let u = encode_uintvar_lem v r.image r.writes in
    (r.image, r.writes, r.are_bytes, uintvar-length 4 r.image u, u, r.reads rest)
