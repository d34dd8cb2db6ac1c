-- ===== src/Base/Bits.antt =====
-- `&` with a mask of low bits, `|` of disjoint fields, and tables over one byte, as arithmetic.
mod Digit
pub mod Xor
use Digit.{bit_and_digit, bit_or_digit, bit_xor_digit, differ-le}
use Prim.Native.Nat.{ℕ, zero, suc, ◌+◌, ◌-◌, ◌*◌, ◌/◌, ◌%◌, ◌^◌, ◌≤◌, ◌<◌, bit_and, bit_or, bit_xor}
use mathlib.Core.Path.{◌≡◌, refl, ap, ◌∙◌}
use mathlib.Core.Bool.{Bool, true, ◌&&◌}
use native.Mathlib.Nat.{pow-suc, one-le-pow}
use native.Mathlib.Omega.{arith}
use hat_drivers.Base.Tests.{◌==◌}

-- `x | 0` and `x & 0`, with a bound on `x` to recur on.
or_none : (n x : ℕ) → x ≤ n → bit_or x 0 ≡ x
or_none n zero h = refl
or_none zero (suc x) h = absurd (omega arith)
or_none (suc n) (suc x) h =
    omega (arith, bit_or_digit (suc x) 0, or_none n (suc x / 2) (omega arith))

and_none : (n x : ℕ) → x ≤ n → bit_and x 0 ≡ 0
and_none n zero h = refl
and_none zero (suc x) h = absurd (omega arith)
and_none (suc n) (suc x) h =
    omega (arith, bit_and_digit (suc x) 0, and_none n (suc x / 2) (omega arith))

double_power : (h k : ℕ) → h * 2 ^ suc k ≡ h * 2 ^ k + h * 2 ^ k
double_power h k = omega (arith, ap (λ (t : ℕ). h * t) (pow-suc 2 k))

-- `(high << width) | low` is a sum if `low` has at most `width` bits.
pub bit_or_shifted :
    (width high low : ℕ) → low < 2 ^ width → bit_or (high * 2 ^ width) low ≡ high * 2 ^ width + low
bit_or_shifted zero high low h = ground (arith, or_none high high)
bit_or_shifted (suc k) high low h = ground (
  arith,
  double_power high k,
  pow-suc 2 k,
  bit_or_digit (high * 2 ^ suc k) low,
  bit_or_shifted k high (low / 2),
)

mask_digit : (k : ℕ) → ((2 ^ suc k - 1) / 2 ≡ 2 ^ k - 1) × ((2 ^ suc k - 1) % 2 ≡ 1)
mask_digit k =
    (omega (arith, pow-suc 2 k, one-le-pow k 2), omega (arith, pow-suc 2 k, one-le-pow k 2))

low_field :
    (width high low : ℕ) → low < 2 ^ width → bit_and (high * 2 ^ width + low) (2 ^ width - 1) ≡ low
low_field zero high low h = ground (arith, and_none (high * 1 + low) (high * 1 + low))
low_field (suc k) high low h = ground (
  arith,
  double_power high k,
  pow-suc 2 k,
  mask_digit k,
  bit_and_digit (high * 2 ^ suc k + low) (2 ^ suc k - 1),
  low_field k high (low / 2),
)

-- A mask of `width` ones is a remainder.
pub bit_and_low : (width x : ℕ) → bit_and x (2 ^ width - 1) ≡ x % 2 ^ width
bit_and_low width x =
    ground (arith, one-le-pow width 2, low_field width (x / 2 ^ width) (x % 2 ^ width))

-- Exclusive or keeps a width.
pub bit_xor-lt : (width a b : ℕ) → a < 2 ^ width → b < 2 ^ width → bit_xor a b < 2 ^ width
bit_xor-lt zero zero zero h k = omega (arith, bit_xor_digit 0 0)
bit_xor-lt zero zero (suc b) h k = absurd (omega arith)
bit_xor-lt zero (suc a) b h k = absurd (omega arith)
bit_xor-lt (suc w) a b h k = omega (
  arith,
  pow-suc 2 w,
  bit_xor_digit a b,
  differ-le (a % 2) (b % 2) (omega arith) (omega arith),
  bit_xor-lt w (a / 2) (b / 2) (omega (arith, pow-suc 2 w)) (omega (arith, pow-suc 2 w)),
)

-- Facts on one byte are checked at each value.
unfoldable pub holds_below : ℕ → (ℕ → Bool) → Bool
holds_below zero p = true
holds_below (suc n) p = p n && holds_below n p

pub holds_below→holds : (n : ℕ) (p : ℕ → Bool) (x : ℕ) → holds_below n p ≡ true → x < n → p x ≡ true
unfolding holds_below
holds_below→holds zero p x h lt = absurd (omega arith)
holds_below→holds (suc n) p x h lt = ground (arith, holds_below→holds n p x)

module _ (f g : ℕ → ℕ) (n : ℕ) (checked : holds_below n (λ x. f x == g x) ≡ true) where
  pub agree_below : (x : ℕ) → x < n → f x ≡ g x
  agree_below x h = ground (arith, holds_below→holds n (λ x. f x == g x) x checked h)

or_comm_below : (n a b : ℕ) → a ≤ n → b ≤ n → bit_or a b ≡ bit_or b a
or_comm_below zero zero zero h k = refl
or_comm_below zero (suc a) b h k = absurd (omega arith)
or_comm_below zero zero (suc b) h k = absurd (omega arith)
or_comm_below (suc n) a b h k = omega (
  arith,
  bit_or_digit a b,
  bit_or_digit b a,
  or_comm_below n (a / 2) (b / 2) (omega arith) (omega arith),
)

-- `low | (high << width)`
pub bit_or_under :
    (width high low : ℕ) → low < 2 ^ width → bit_or low (high * 2 ^ width) ≡ low + high * 2 ^ width
bit_or_under width high low h =
    let m = high * 2 ^ width in
    or_comm_below (low + m) low m (omega arith) (omega arith)
    ∙ (bit_or_shifted width high low h ∙ omega arith)
