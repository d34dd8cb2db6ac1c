-- ===== src/Modbus/Transport/Values/Byte.antt =====
-- The eight bits of one packed byte, checked for each choice of them.
use hat_drivers.Base.{
  ℕ, zero, suc, ◌+◌, ◌*◌, ◌/◌, ◌^◌, ◌<◌, ◌≡◌, refl, arith, bit_and, bit_or, List,
}
use hat_drivers.Base.{Bool, true, false, ltb, ltb→lt, ◌&&◌, ==→eq, and-true, ◌==◌, if◌then◌else◌}
use hat_drivers.Base.Bytes.{IsByte}
use hat_drivers.Modbus.Transport.Values.{is_set, set_bits, coil_byte}

abbrev pub bit : Bool → ℕ
bit b = if b then 1 else 0

abbrev pick : Bool → ℕ → ℕ → ℕ
pick b x j = if b then bit_or x (2 ^ j) else x

abbrev byte8 : (a b c d e f g h : Bool) → ℕ
byte8 a b c d e f g h =
    pick h (pick g (pick f (pick e (pick d (pick c (pick b (pick a 0 0) 1) 2) 3) 4) 5) 6) 7

-- What the decoders see of bit `j`: `x & (1 << j)` and `(x >> j) & 1`
abbrev Reads : ℕ → ℕ → Bool → Type 0
Reads x j b = ((if bit_and x (2 ^ j) == 0 then 0 else 1) ≡ bit b) × (bit_and (x / 2 ^ j) 1 ≡ bit b)

abbrev ReadsAll : (x : ℕ) (a b c d e f g h : Bool) → Type 0
ReadsAll x a b c d e f g h =
    (ltb x 256 ≡ true)
    × (Reads x 0 a × Reads x 1 b × Reads x 2 c × Reads x 3 d)
    × (Reads x 4 e × Reads x 5 f × Reads x 6 g × Reads x 7 h)

both : (Bool → Bool) → Bool
both p = p true && p false

both→holds : (p : Bool → Bool) → both p ≡ true → (b : Bool) → p b ≡ true
unfolding both
both→holds p h true = ground arith
both→holds p h false = ground arith

reads : ℕ → ℕ → Bool → Bool
reads x j b =
    ((if bit_and x (2 ^ j) == 0 then 0 else 1) == bit b) && (bit_and (x / 2 ^ j) 1 == bit b)

reads→Reads : (x j : ℕ) (b : Bool) → reads x j b ≡ true → Reads x j b
unfolding reads
reads→Reads x j b h = (==→eq _ _ (and-true _ _ h).0, ==→eq _ _ (and-true _ _ h).1)

check8 : (a b c d e f g h : Bool) → Bool
unfolding reads
check8 a b c d e f g h =
    let x = byte8 a b c d e f g h in
    ltb x 256
    && ((reads x 0 a && (reads x 1 b && (reads x 2 c && reads x 3 d)))
        && (reads x 4 e && (reads x 5 f && (reads x 6 g && reads x 7 h))))

check8-true : (a b c d e f g h : Bool) → check8 a b c d e f g h ≡ true
unfolding both check8
check8-true a b c d e f g h =
    let p7 = λ (a b c d e f g : Bool). λ (h : Bool). check8 a b c d e f g h in
    let p6 = λ (a b c d e f : Bool). λ (g : Bool). both (p7 a b c d e f g) in
    let p5 = λ (a b c d e : Bool). λ (f : Bool). both (p6 a b c d e f) in
    let p4 = λ (a b c d : Bool). λ (e : Bool). both (p5 a b c d e) in
    let p3 = λ (a b c : Bool). λ (d : Bool). both (p4 a b c d) in
    let p2 = λ (a b : Bool). λ (c : Bool). both (p3 a b c) in
    let p1 = λ (a : Bool). λ (b : Bool). both (p2 a b) in
    let p0 = λ (a : Bool). both (p1 a) in
    both→holds (p7 a b c d e f g)
      (both→holds (p6 a b c d e f)
        (both→holds (p5 a b c d e)
          (both→holds (p4 a b c d)
            (both→holds (p3 a b c)
              (both→holds (p2 a b) (both→holds (p1 a) (both→holds p0 refl a) b) c) d)
            e)
          f)
        g)
      h

byte8-ReadsAll : (a b c d e f g h : Bool) → ReadsAll (byte8 a b c d e f g h) a b c d e f g h
unfolding check8
byte8-ReadsAll a b c d e f g h =
    let x = byte8 a b c d e f g h in
    let (t, u) = and-true _ _ (check8-true a b c d e f g h) in
    let (v, w) = and-true _ _ u in
    let (v0, v') = and-true _ _ v in
    let (v1, v'') = and-true _ _ v' in
    let (v2, v3) = and-true _ _ v'' in
    let (w0, w') = and-true _ _ w in
    let (w1, w'') = and-true _ _ w' in
    let (w2, w3) = and-true _ _ w'' in
    (
      t,
      (reads→Reads x 0 a v0, reads→Reads x 1 b v1, reads→Reads x 2 c v2, reads→Reads x 3 d v3),
      (reads→Reads x 4 e w0, reads→Reads x 5 f w1, reads→Reads x 6 g w2, reads→Reads x 7 h w3),
    )

set_bits-ReadsAll :
    (is_on : ℕ → Bool)
    → ReadsAll
        (set_bits is_on 8 0 0)
        (is_on 0)
        (is_on 1)
        (is_on 2)
        (is_on 3)
        (is_on 4)
        (is_on 5)
        (is_on 6)
        (is_on 7)
unfolding set_bits
set_bits-ReadsAll is_on =
    byte8-ReadsAll (is_on 0) (is_on 1) (is_on 2) (is_on 3) (is_on 4) (is_on 5) (is_on 6) (is_on 7)

set_bits-Reads : (is_on : ℕ → Bool) (j : ℕ) → j < 8 → Reads (set_bits is_on 8 0 0) j (is_on j)
set_bits-Reads is_on zero h = (set_bits-ReadsAll is_on).1.0
set_bits-Reads is_on (suc zero) h = (set_bits-ReadsAll is_on).1.1
set_bits-Reads is_on (suc (suc zero)) h = (set_bits-ReadsAll is_on).1.2
set_bits-Reads is_on (suc (suc (suc zero))) h = (set_bits-ReadsAll is_on).1.3
set_bits-Reads is_on (suc (suc (suc (suc zero)))) h = (set_bits-ReadsAll is_on).2.0
set_bits-Reads is_on (suc (suc (suc (suc (suc zero))))) h = (set_bits-ReadsAll is_on).2.1
set_bits-Reads is_on (suc (suc (suc (suc (suc (suc zero)))))) h = (set_bits-ReadsAll is_on).2.2
set_bits-Reads is_on (suc (suc (suc (suc (suc (suc (suc zero))))))) h =
    (set_bits-ReadsAll is_on).2.3
set_bits-Reads is_on (suc (suc (suc (suc (suc (suc (suc (suc j)))))))) h = absurd (omega arith)

pub coil_byte-bit :
    (values : List ℕ) (i j : ℕ)
    → j < 8
    → (if bit_and (coil_byte values i) (2 ^ j) == 0 then 0 else 1) ≡ bit (is_set values (i * 8 + j))
unfolding coil_byte
coil_byte-bit values i j h = (set_bits-Reads (λ k. is_set values (i * 8 + k)) j h).0

pub coil_byte-shift :
    (values : List ℕ) (i j : ℕ)
    → j < 8
    → bit_and (coil_byte values i / 2 ^ j) 1 ≡ bit (is_set values (i * 8 + j))
unfolding coil_byte
coil_byte-shift values i j h = (set_bits-Reads (λ k. is_set values (i * 8 + k)) j h).1

pub coil_byte-IsByte : (values : List ℕ) (i : ℕ) → IsByte (coil_byte values i)
unfolding coil_byte
coil_byte-IsByte values i = ltb→lt _ 256 (set_bits-ReadsAll (λ k. is_set values (i * 8 + k))).0
