-- ===== src/Apci/Connection/Window.antt =====
-- The numbers that wait for an acknowledgement are consecutive, modulo 0x8000.
use hat_drivers.Base.{==-refl}
use hat_drivers.Base.{
  ℕ, zero, suc, ◌+◌, ◌-◌, ◌%◌, ◌≤◌, ◌<◌, ◌≡◌, refl, sym, ap, arith, List, [], ◌∷◌,
}
use hat_drivers.Base.{◌++◌, length, ◌==◌, false, leb, ok, err, plain}
use hat_drivers.Base.{Bool-cases, inl, inr, leb→le}
use hat_drivers.Apci.Connection.{numbers, range, contains, remove, pop_handles, acknowledged}

abbrev pub advance : ℕ → ℕ → ℕ
advance a k = (a + k) % 0x8000

-- `n` numbers from `a` on, modulo 0x8000
abbrev pub ring : ℕ → ℕ → List ℕ
ring a zero = []
ring a (suc n) = a ∷ ring (advance a 1) n

pub length-ring : (a n : ℕ) → length (ring a n) ≡ n
length-ring a zero = refl
length-ring a (suc n) = omega (arith, length-ring (advance a 1) n)

pub ring-append : (a c d : ℕ) → a < 0x8000 → ring a (c + d) ≡ ring a c ++ ring (advance a c) d
ring-append a zero d h =
    let z : advance a 0 ≡ a = omega arith in let e : 0 + d ≡ d = omega arith in rw (z, e)
ring-append a (suc c) d h =
    let e : advance (advance a 1) c ≡ advance a (suc c) = omega arith in
    let k : suc c + d ≡ suc (c + d) = omega arith in
    rw (k) (ap (◌∷◌ a) (rw (sym e) (ring-append (advance a 1) c d (omega arith))))

-- Without a wrap-around
numbers-ring : (a n : ℕ) → a + n ≤ 0x8000 → numbers a n ≡ ring a n
unfolding numbers
numbers-ring a zero h = refl
numbers-ring a (suc zero) h = refl
numbers-ring a (suc (suc n)) h =
    let e : advance a 1 ≡ a + 1 = omega arith in
    ap (◌∷◌ a) (rw e (numbers-ring (a + 1) (suc n) (omega arith)))

-- How many numbers there are from `a` to `b`, modulo 0x8000
abbrev pub distance : ℕ → ℕ → ℕ
distance a b = (b + 0x8000 - a) % 0x8000

pub acknowledged-ring :
    (a b : ℕ) → a < 0x8000 → b < 0x8000 → acknowledged a b ≡ ring a (distance a b)
unfolding acknowledged range
acknowledged-ring a b h k = elim (Bool-cases (leb a b)) [
  | inl t ↦
      let l : a ≤ b = leb→le a b t in
      let e : distance a b ≡ b - a = omega arith in rw (t, e) (numbers-ring a (b - a) (omega arith))
  | inr t ↦
      let l : b < a = ground arith in
      let e : distance a b ≡ (0x8000 - a) + b = omega arith in
      let z : advance a (0x8000 - a) ≡ 0 = omega arith in
      let m : b - 0 ≡ b = omega arith in
      rw (
        t,
        e,
        m,
        ring-append a (0x8000 - a) b h,
        z,
        numbers-ring a (0x8000 - a) (omega arith),
        numbers-ring 0 b (omega arith),
      )
]

-- The numbers at the front of the window are taken from it.
pub pop_handles-ring :
    (a k d : ℕ) → a < 0x8000 → pop_handles (ring a k) (ring a (k + d)) ≡ ok (ring (advance a k) d)
unfolding pop_handles contains remove
pop_handles-ring a zero d h =
    let z : advance a 0 ≡ a = omega arith in let e : 0 + d ≡ d = omega arith in rw (z, e)
pop_handles-ring a (suc k) d h =
    let e : advance (advance a 1) k ≡ advance a (suc k) = omega arith in
    let l : suc k + d ≡ suc (k + d) = omega arith in
    rw (l, ==-refl a, sym e) (pop_handles-ring (advance a 1) k d (omega arith))

-- More numbers than wait are refused.
pub pop_handles-beyond :
    (a n d : ℕ) → a < 0x8000 → pop_handles (ring a (suc (n + d))) (ring a n) ≡ err plain
unfolding pop_handles contains remove
pop_handles-beyond a zero d h = refl
pop_handles-beyond a (suc n) d h =
    let l : suc n + d ≡ suc (n + d) = omega arith in
    rw (l, ==-refl a) (pop_handles-beyond (advance a 1) n d (omega arith))

-- The next number is not in the window while it is not full.
pub contains-ring :
    (a n j : ℕ) → a < 0x8000 → n + j < 0x8000 → contains (ring a n) (advance a (n + j)) ≡ false
unfolding contains
contains-ring a zero j h k = refl
contains-ring a (suc n) j h k =
    let e : advance (advance a 1) (n + j) ≡ advance a (suc n + j) = omega arith in
    let d : (a == advance a (suc n + j)) ≡ false = ground arith in
    rw (d, sym e) (contains-ring (advance a 1) n j (omega arith) (omega arith))
