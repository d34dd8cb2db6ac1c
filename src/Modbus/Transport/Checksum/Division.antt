-- ===== src/Modbus/Transport/Checksum/Division.antt =====
-- The CRC of `_calculate_crc` as the remainder of a division of polynomials over the field of two elements.
-- The lowest bit of a number is the highest coefficient, as in the order of the bits on the line, and
-- exclusive or is the sum.
use hat_drivers.Base.{
  ℕ, zero, suc, ◌+◌, ◌*◌, ◌/◌, ◌%◌, ◌^◌, ◌≡◌, refl, sym, ap, ◌∙◌, bit_and, bit_xor, List, [], ◌∷◌,
  ◌++◌,
}
use hat_drivers.Base.{
  Bool-cases, ==→eq, eq→==, inl, inr, Bool, true, false, ◌==◌, arith, All, length, length-append,
}
use hat_drivers.Base.Bits.{bit_and_low}
use hat_drivers.Base.Bits.Xor.{
  pow_times, bit_xor_comm, bit_xor_assoc, bit_xor_zero, bit_xor_double, bit_xor_scale,
  bit_xor_shifted,
}
use hat_drivers.Base.Bytes.{IsByte, IsU16, from_little}
use hat_drivers.Modbus.Transport.Checksum.{
  crc_bit, crc_bits, crc_from, calculate_crc, calculate_crc-IsU16,
}

-- The generator x^16 + x^15 + x^2 + 1
abbrev pub generator : ℕ
generator = 0x14003

-- A bit times the generator
unfoldable pub when_set : Bool → ℕ
when_set true = generator
when_set false = 0

-- The product of a polynomial, given by its bits, with the generator
unfoldable pub multiple : List Bool → ℕ
unfolding when_set
multiple [] = 0
multiple (b ∷ quotient) = bit_xor (when_set b) (2 * multiple quotient)

-- One round divides a bit off.
round_bit : (crc : ℕ) → (b : Bool) × (crc ≡ bit_xor (2 * crc_bit crc) (when_set b))
unfolding crc_bit when_set
round_bit crc =
    let low : bit_and crc 1 ≡ crc % 2 = bit_and_low 1 crc in
    let half = crc / 2 in
    elim (Bool-cases (bit_and crc 1 == 0)) [
      | inl e ↦
          (false, rw e (omega (arith, low, ==→eq (bit_and crc 1) 0 e, bit_xor_zero (2 * half))))
      | inr e ↦ (
        true,
        rw e (
            let d : bit_xor (2 * half) 0x14002 ≡ 2 * bit_xor half 0xA001 =
              bit_xor_double half 0xA001 in
            let a : bit_xor (bit_xor (2 * half) 0x14002) generator ≡ bit_xor (2 * half) 1 =
              bit_xor_assoc (2 * half) 0x14002 generator in
            let s : bit_xor (2 * half) 1 ≡ 2 * half + 1 = bit_xor_shifted 1 half 1 (omega arith) in
            let odd : crc ≡ 2 * half + 1 = ground (arith, low, eq→== (bit_and crc 1) 0) in
            odd ∙ (sym s ∙ (sym a ∙ ap (λ t. bit_xor t generator) d))),
      )
    ]

-- Under a further round, a sum is doubled and the round's bit added.
deeper :
    (high low bit : ℕ)
    → bit_xor (2 * bit_xor high low) bit ≡ bit_xor (2 * high) (bit_xor bit (2 * low))
deeper high low bit = rw (sym (bit_xor_double high low)) (
    bit_xor_assoc (2 * high) (2 * low) bit
    ∙ ap (λ t. bit_xor (2 * high) t) (bit_xor_comm (2 * low) bit))

rounds_bits :
    (n crc : ℕ)
    → (quotient : List Bool) × (length quotient ≡ n)
      × (crc ≡ bit_xor (2 ^ n * crc_bits n crc) (multiple quotient))
unfolding crc_bits multiple
rounds_bits zero crc =
    let e : 2 ^ 0 * crc ≡ crc = omega arith in ([], refl, rw e (sym (bit_xor_zero crc)))
rounds_bits (suc n) crc =
    let b = round_bit crc in
    let r = rounds_bits n (crc_bit crc) in
    let last = crc_bits n (crc_bit crc) in
    (
      b.0 ∷ r.0,
      ap suc (r.1),
      b.1
          ∙ (ap (λ t. bit_xor (2 * t) (when_set (b.0))) (r.2)
              ∙ (deeper (2 ^ n * last) (multiple (r.0)) (when_set (b.0))
                  ∙ ap (λ t. bit_xor t (multiple (b.0 ∷ r.0))) (sym (pow_times n last)))),
    )

multiple-append :
    (front back : List Bool)
    → multiple (front ++ back) ≡ bit_xor (multiple front) (2 ^ length front * multiple back)
unfolding multiple
multiple-append [] back =
    let e : 2 ^ 0 * multiple back ≡ multiple back = omega arith in
    rw (e, bit_xor_comm 0 (multiple back)) (sym (bit_xor_zero (multiple back)))
multiple-append (b ∷ front) back =
    rw (multiple-append front back, pow_times (length front) (multiple back))
      (ap (λ t. bit_xor (when_set b) t)
          (sym (bit_xor_double (multiple front) (2 ^ length front * multiple back)))
        ∙ sym (
            bit_xor_assoc (when_set b) (2 * multiple front)
              (2 * (2 ^ length front * multiple back))))

-- One byte of the data: the eight rounds divide its bits and those of the register off together.
byte_step :
    (i left crc next last front m rest : ℕ)
    → IsByte i
    → bit_xor crc i ≡ bit_xor (256 * next) front
    → bit_xor left next ≡ bit_xor (2 ^ m * last) rest
    → bit_xor (i + 256 * left) crc ≡ bit_xor (256 * (2 ^ m * last)) (bit_xor front (256 * rest))
byte_step i left crc next last front m rest h e f =
    let s : bit_xor (256 * left) i ≡ i + 256 * left = bit_xor_shifted 8 left i h ∙ omega arith in
    let low : bit_xor i crc ≡ bit_xor (256 * next) front = bit_xor_comm i crc ∙ e in
    let scaled : bit_xor (256 * left) (256 * next) ≡ bit_xor (256 * (2 ^ m * last)) (256 * rest) =
      bit_xor_scale 8 left next
      ∙ (ap (λ (t : ℕ). 256 * t) f ∙ sym (bit_xor_scale 8 (2 ^ m * last) rest)) in
    ap (λ t. bit_xor t crc) (sym s)
    ∙ (bit_xor_assoc (256 * left) i crc
        ∙ (ap (λ t. bit_xor (256 * left) t) low
            ∙ (sym (bit_xor_assoc (256 * left) (256 * next) front)
                ∙ (ap (λ t. bit_xor t front) scaled
                    ∙ (bit_xor_assoc (256 * (2 ^ m * last)) (256 * rest) front
                        ∙ ap (λ t. bit_xor (256 * (2 ^ m * last)) t)
                            (bit_xor_comm (256 * rest) front))))))

pow_bytes : (n a : ℕ) → 2 ^ (8 * suc n) * a ≡ 256 * (2 ^ (8 * n) * a)
pow_bytes n a =
    let k = 8 * n in
    let e : 8 * suc n ≡ suc (suc (suc (suc (suc (suc (suc (suc k))))))) = omega arith in
    rw e (
      omega (
        arith,
        pow_times (suc (suc (suc (suc (suc (suc (suc k))))))) a,
        pow_times (suc (suc (suc (suc (suc (suc k)))))) a,
        pow_times (suc (suc (suc (suc (suc k))))) a,
        pow_times (suc (suc (suc (suc k)))) a,
        pow_times (suc (suc (suc k))) a,
        pow_times (suc (suc k)) a,
        pow_times (suc k) a,
        pow_times k a,
      ))

bytes_bits :
    (crc : ℕ) (bytes : List ℕ)
    → All IsByte bytes
    → (quotient : List Bool) × (length quotient ≡ 8 * length bytes)
      × (bit_xor (from_little bytes) crc
          ≡ bit_xor (2 ^ (8 * length bytes) * crc_from crc bytes) (multiple quotient))
unfolding crc_from multiple
bytes_bits crc [] h =
    let e : 2 ^ (8 * 0) * crc ≡ crc = omega arith in ([], refl, rw e (bit_xor_comm 0 crc))
bytes_bits crc (i ∷ bytes) h =
    let next = crc_bits 8 (bit_xor crc i) in
    let r = rounds_bits 8 (bit_xor crc i) in
    let t = bytes_bits next bytes (h.1) in
    (
      r.0 ++ t.0,
      omega (arith, length-append {0} (r.0) (t.0), r.1, t.1),
      rw (multiple-append (r.0) (t.0), r.1, pow_bytes (length bytes) (crc_from next bytes))
          (byte_step i (from_little bytes) crc next (crc_from next bytes) (multiple (r.0))
            (8 * length bytes) (multiple (t.0)) (h.0) (r.2) (t.2)),
    )

-- The CRC of bytes is the remainder of their division, with sixteen zero bits behind them and 0xFFFF added
-- to the first sixteen coefficients, by the polynomial x^16 + x^15 + x^2 + 1: it has 16 bits, and with a
-- quotient of eight bits for each byte, the dividend is the product of quotient and generator plus the
-- CRC, which stands in the sixteen places behind the bytes.
pub calculate_crc-division :
    (bytes : List ℕ)
    → All IsByte bytes
    → (quotient : List Bool) × (length quotient ≡ 8 * length bytes)
      × IsU16 (calculate_crc bytes)
      × (bit_xor (from_little bytes) 0xFFFF
          ≡ bit_xor (2 ^ (8 * length bytes) * calculate_crc bytes) (multiple quotient))
unfolding calculate_crc
calculate_crc-division bytes h =
    let r = bytes_bits 0xFFFF bytes h in (r.0, r.1, calculate_crc-IsU16 bytes h, r.2)
