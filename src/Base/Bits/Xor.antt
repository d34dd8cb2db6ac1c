-- ===== src/Base/Bits/Xor.antt =====
-- `^` as an operation of a group, and as carry-less addition: it moves with doubling.
use Prim.Native.Nat.{ℕ, zero, suc, ◌+◌, ◌*◌, ◌/◌, ◌%◌, ◌^◌, ◌≤◌, ◌<◌, bit_xor, differ}
use mathlib.Core.Path.{◌≡◌, refl, ap, ◌∙◌}
use native.Mathlib.Nat.{pow-suc}
use native.Mathlib.Omega.{arith}
use hat_drivers.Base.Bits.Digit.{bit_xor_digit, differ-le}

differ_comm : (x y : ℕ) → x ≤ 1 → y ≤ 1 → differ x y ≡ differ y x
differ_comm zero zero h k = refl
differ_comm zero (suc y) h k = refl
differ_comm (suc x) zero h k = refl
differ_comm (suc x) (suc y) h k = differ_comm x y (omega arith) (omega arith)

differ_zero : (x : ℕ) → differ x 0 ≡ x
differ_zero zero = refl
differ_zero (suc x) = refl

differ_self : (x : ℕ) → differ x x ≡ 0
differ_self zero = refl
differ_self (suc x) = differ_self x

differ_assoc : (x y z : ℕ) → x ≤ 1 → y ≤ 1 → z ≤ 1 → differ (differ x y) z ≡ differ x (differ y z)
differ_assoc zero y z h k l = refl
differ_assoc (suc zero) zero z h k l = refl
differ_assoc (suc zero) (suc zero) zero h k l = refl
differ_assoc (suc zero) (suc zero) (suc zero) h k l = refl
differ_assoc (suc zero) (suc zero) (suc (suc z)) h k l = absurd (omega arith)
differ_assoc (suc zero) (suc (suc y)) z h k l = absurd (omega arith)
differ_assoc (suc (suc x)) y z h k l = absurd (omega arith)

-- The halves and the lowest digit of an exclusive or
parts :
    (a b : ℕ)
    → (bit_xor a b / 2 ≡ bit_xor (a / 2) (b / 2)) × (bit_xor a b % 2 ≡ differ (a % 2) (b % 2))
parts a b =
    let d = bit_xor_digit a b in
    let l = differ-le (a % 2) (b % 2) (omega arith) (omega arith) in
    (omega (arith, d, l), omega (arith, d, l))

comm_below : (n a b : ℕ) → a ≤ n → b ≤ n → bit_xor a b ≡ bit_xor b a
comm_below zero zero zero h k = refl
comm_below zero (suc a) b h k = absurd (omega arith)
comm_below zero zero (suc b) h k = absurd (omega arith)
comm_below (suc n) a b h k = omega (
  arith,
  bit_xor_digit a b,
  bit_xor_digit b a,
  differ_comm (a % 2) (b % 2) (omega arith) (omega arith),
  comm_below n (a / 2) (b / 2) (omega arith) (omega arith),
)

pub bit_xor_comm : (a b : ℕ) → bit_xor a b ≡ bit_xor b a
bit_xor_comm a b = comm_below (a + b) a b (omega arith) (omega arith)

zero_below : (n a : ℕ) → a ≤ n → bit_xor a 0 ≡ a
zero_below zero zero h = refl
zero_below zero (suc a) h = absurd (omega arith)
zero_below (suc n) a h =
    omega (arith, bit_xor_digit a 0, differ_zero (a % 2), zero_below n (a / 2) (omega arith))

pub bit_xor_zero : (a : ℕ) → bit_xor a 0 ≡ a
bit_xor_zero a = zero_below a a (omega arith)

self_below : (n a : ℕ) → a ≤ n → bit_xor a a ≡ 0
self_below zero zero h = refl
self_below zero (suc a) h = absurd (omega arith)
self_below (suc n) a h =
    omega (arith, bit_xor_digit a a, differ_self (a % 2), self_below n (a / 2) (omega arith))

pub bit_xor_self : (a : ℕ) → bit_xor a a ≡ 0
bit_xor_self a = self_below a a (omega arith)

assoc_below :
    (n a b c : ℕ) → a ≤ n → b ≤ n → c ≤ n → bit_xor (bit_xor a b) c ≡ bit_xor a (bit_xor b c)
assoc_below zero zero zero zero h k l = refl
assoc_below zero (suc a) b c h k l = absurd (omega arith)
assoc_below zero zero (suc b) c h k l = absurd (omega arith)
assoc_below zero zero zero (suc c) h k l = absurd (omega arith)
assoc_below (suc n) a b c h k l =
    let e = parts a b in
    let f = parts b c in
    let r = assoc_below n (a / 2) (b / 2) (c / 2) (omega arith) (omega arith) (omega arith) in
    let d = differ_assoc (a % 2) (b % 2) (c % 2) (omega arith) (omega arith) (omega arith) in
    let p : bit_xor (bit_xor a b / 2) (c / 2) ≡ bit_xor (a / 2) (bit_xor b c / 2) =
      rw (e.0, f.0) r in
    let q : differ (bit_xor a b % 2) (c % 2) ≡ differ (a % 2) (bit_xor b c % 2) = rw (e.1, f.1) d in
    omega (arith, bit_xor_digit (bit_xor a b) c, bit_xor_digit a (bit_xor b c), p, q)

pub bit_xor_assoc : (a b c : ℕ) → bit_xor (bit_xor a b) c ≡ bit_xor a (bit_xor b c)
bit_xor_assoc a b c = assoc_below (a + b + c) a b c (omega arith) (omega arith) (omega arith)

-- What is added twice is gone.
pub bit_xor_cancel : (a b : ℕ) → bit_xor (bit_xor a b) b ≡ a
bit_xor_cancel a b = bit_xor_assoc a b b ∙ (ap (λ t. bit_xor a t) (bit_xor_self b) ∙ bit_xor_zero a)

pub bit_xor_double : (a b : ℕ) → bit_xor (2 * a) (2 * b) ≡ 2 * bit_xor a b
bit_xor_double a b =
    let ha : 2 * a / 2 ≡ a = omega arith in
    let hb : 2 * b / 2 ≡ b = omega arith in
    let la : 2 * a % 2 ≡ 0 = omega arith in
    let lb : 2 * b % 2 ≡ 0 = omega arith in
    let p : bit_xor (2 * a / 2) (2 * b / 2) ≡ bit_xor a b = rw (ha, hb) refl in
    let q : differ (2 * a % 2) (2 * b % 2) ≡ 0 = rw (la, lb) refl in
    omega (arith, bit_xor_digit (2 * a) (2 * b), p, q)

pub pow_times : (k a : ℕ) → 2 ^ suc k * a ≡ 2 * (2 ^ k * a)
pow_times k a = omega (arith, ap (λ (t : ℕ). t * a) (pow-suc 2 k))

pub bit_xor_scale : (k a b : ℕ) → bit_xor (2 ^ k * a) (2 ^ k * b) ≡ 2 ^ k * bit_xor a b
bit_xor_scale zero a b =
    let ha : 2 ^ 0 * a ≡ a = omega arith in
    let hb : 2 ^ 0 * b ≡ b = omega arith in rw (ha, hb) (omega arith)
bit_xor_scale (suc k) a b =
    rw (pow_times k a, pow_times k b, pow_times k (bit_xor a b))
      (bit_xor_double (2 ^ k * a) (2 ^ k * b) ∙ ap (λ (t : ℕ). 2 * t) (bit_xor_scale k a b))

-- A low field beside a shifted number is added to it.
pub bit_xor_shifted :
    (width high low : ℕ) → low < 2 ^ width → bit_xor (2 ^ width * high) low ≡ 2 ^ width * high + low
bit_xor_shifted zero high zero h = bit_xor_zero (1 * high) ∙ omega arith
bit_xor_shifted zero high (suc low) h = absurd (omega arith)
bit_xor_shifted (suc k) high low h =
    let r = bit_xor_shifted k high (low / 2) (omega (arith, h, pow-suc 2 k)) in
    let m = 2 ^ k * high in
    let hm : 2 * m / 2 ≡ m = omega arith in
    let lm : 2 * m % 2 ≡ 0 = omega arith in
    let p : bit_xor (2 * m / 2) (low / 2) ≡ bit_xor m (low / 2) = rw hm refl in
    let q : differ (2 * m % 2) (low % 2) ≡ low % 2 = rw lm refl in
    rw (pow_times k high) (omega (arith, bit_xor_digit (2 * m) low, p, q, r))
