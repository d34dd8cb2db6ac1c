-- ===== src/Mqtt/Primitives/RoundTrip.antt =====
-- What the encoders of integers, strings and binary data write is what the decoders read.
use hat_drivers.Base.{
  ℕ, zero, suc, ◌+◌, ◌-◌, ◌*◌, ◌/◌, ◌%◌, ◌^◌, ◌≤◌, ◌<◌, ◌≡◌, refl, ap, ◌∙◌, arith,
}
use hat_drivers.Base.{bit_and, bit_or, List, [], ◌∷◌, ◌++◌, length, length-append}
use hat_drivers.Base.{take-append, drop-append, All, All-append, true, false, ltb, ◌==◌}
use hat_drivers.Base.{le→leb, le→not-ltb, Result, ok, Bool-cases, inl, inr, ==→eq}
use hat_drivers.Base.Bytes.{IsByte}
use hat_drivers.Base.Bits.{bit_or_shifted, bit_or_under, bit_and_low, agree_below, holds_below}
use native.Mathlib.Nat.{pow-suc}
use mathlib.Core.List.{append_assoc}
use hat_drivers.Base.Utf8.{is_utf8}
use hat_drivers.Mqtt.Common.{Text}
use hat_drivers.Mqtt.Primitives.{encode_uint8, decode_uint8, encode_uint16, decode_uint16}
use hat_drivers.Mqtt.Primitives.{encode_uint32, decode_uint32, uintvar_bytes, encode_uintvar}
use hat_drivers.Mqtt.Primitives.{uintvar_from, decode_uintvar, encode_binary, decode_binary}
use hat_drivers.Mqtt.Primitives.{encode_string, decode_string}

-- What is written is read back, whatever follows it.
pub record Reads {ℓ} {A : Type ℓ} (written : Result (List ℕ)) (read : List ℕ → Result (A × List ℕ))
    (a : A) : Type ℓ where
  pub image : List ℕ
  pub writes : written ≡ ok image
  pub reads : (rest : List ℕ) → read (image ++ rest) ≡ ok (a, rest)
  pub are_bytes : All IsByte image

low_byte : (n : ℕ) → bit_and n 0xff ≡ n % 256
low_byte n = bit_and_low 8 n

pub uint8-Reads : (n : ℕ) → n ≤ 255 → Reads (encode_uint8 n) decode_uint8 n
unfolding encode_uint8 decode_uint8
uint8-Reads n h = record {
  image = n ∷ [];
  writes = rw (le→leb n 0xff h);
  reads = λ rest. refl;
  are_bytes = (omega arith, tt);
}

pub uint16-Reads : (n : ℕ) → n ≤ 0xffff → Reads (encode_uint16 n) decode_uint16 n
unfolding encode_uint16 decode_uint16
uint16-Reads n h = record {
  image = (n / 256 % 256) ∷ (n % 256) ∷ [];
  writes = rw (le→leb n 0xffff h, low_byte n, low_byte (n / 256));
  reads = λ rest.
      ap (λ t. ok (t, rest))
        (omega (arith, bit_or_shifted 8 (n / 256 % 256) (n % 256) (omega arith)));
  are_bytes = (omega arith, (omega arith, tt));
}

pub uint32-Reads : (n : ℕ) → n ≤ 0xffffffff → Reads (encode_uint32 n) decode_uint32 n
unfolding encode_uint32 decode_uint32
uint32-Reads n h =
    let a = n / 16777216 % 256 in
    let b = n / 65536 % 256 in
    let c = n / 256 % 256 in
    let d = n % 256 in
    let high : a * 2 ^ 24 + b * 65536 ≡ (a * 256 + b) * 2 ^ 16 = omega arith in
    let middle : (a * 256 + b) * 2 ^ 16 + c * 256 ≡ ((a * 256 + b) * 256 + c) * 2 ^ 8 =
      omega arith in
    record {
      image = a ∷ b ∷ c ∷ d ∷ [];
      writes = rw (
        le→leb n 0xffffffff h,
        low_byte n,
        low_byte (n / 256),
        low_byte (n / 65536),
        low_byte (n / 16777216),
      );
      reads = λ rest.
          ap (λ t. ok (t, rest))
            (ap (λ t. bit_or (bit_or t (c * 256)) d) (bit_or_shifted 24 a (b * 65536) (omega arith))
              ∙ (ap (λ t. bit_or (bit_or t (c * 256)) d) (high)
                  ∙ (ap (λ t. bit_or t d) (bit_or_shifted 16 (a * 256 + b) (c * 256) (omega arith))
                      ∙ (ap (λ t. bit_or t d) (middle)
                          ∙ (bit_or_shifted 8 ((a * 256 + b) * 256 + c) d (omega arith)
                              ∙ omega arith)))));
      are_bytes = (omega arith, (omega arith, (omega arith, (omega arith, tt))));
    }

pub seven_bits : (n : ℕ) → bit_and n 0x7f ≡ n % 128
seven_bits n = bit_and_low 7 n

pub set_flag : (n : ℕ) → n < 128 → bit_or n 0x80 ≡ n + 128
set_flag n h = bit_or_under 7 1 n h

pub clear_flag : (n : ℕ) → n < 128 → bit_and n 0x80 ≡ 0
unfolding holds_below
clear_flag n h = agree_below (λ n. bit_and n 0x80) (λ n. 0) 128 refl n h

pub read_flag : (n : ℕ) → n < 128 → bit_and (n + 128) 0x80 ≡ 128
unfolding holds_below
read_flag n h = agree_below (λ n. bit_and (n + 128) 0x80) (λ n. 128) 128 refl n h

next_shift : (i : ℕ) → 2 ^ ((i + 1) * 7) ≡ 128 * 2 ^ (i * 7)
next_shift i =
    let e : (i + 1) * 7 ≡ suc (suc (suc (suc (suc (suc (suc (i * 7))))))) = omega arith in
    rw e (
      omega (
        arith,
        pow-suc 2 (i * 7),
        pow-suc 2 (suc (i * 7)),
        pow-suc 2 (suc (suc (i * 7))),
        pow-suc 2 (suc (suc (suc (i * 7)))),
        pow-suc 2 (suc (suc (suc (suc (i * 7))))),
        pow-suc 2 (suc (suc (suc (suc (suc (i * 7)))))),
        pow-suc 2 (suc (suc (suc (suc (suc (suc (i * 7))))))),
      ))

room : (p acc x : ℕ) → x < 128 → acc < p → acc + x * p < 128 * p
room p acc x h k =
    let y = 127 - x in
    let e : y + x + 1 ≡ 128 = omega arith in omega (arith, ap (λ (t : ℕ). t * p) e, k)

-- `n + 1` rounds are enough for `7 * (n + 1)` bits, on both sides.
record Loops (n i acc v : ℕ) : Type 0 where
  image : List ℕ
  writes : uintvar_bytes n v ≡ ok image
  reads : (rest : List ℕ) → uintvar_from n i acc (image ++ rest) ≡ ok (acc + v * 2 ^ (i * 7), rest)
  are_bytes : All IsByte image

joined :
    (acc v i : ℕ)
    → acc + v % 128 * 2 ^ (i * 7) + v / 128 * 2 ^ ((i + 1) * 7) ≡ acc + v * 2 ^ (i * 7)
joined acc v i =
    let e : v % 128 + v / 128 * 128 ≡ v = omega arith in
    rw (next_shift i) (omega (arith, ap (λ (t : ℕ). t * 2 ^ (i * 7)) e))

last_round : (n i acc v : ℕ) → v < 128 → acc < 2 ^ (i * 7) → Loops (suc n) i acc v
unfolding uintvar_bytes uintvar_from
last_round n i acc v h k =
    let z : v / 128 ≡ 0 = omega arith in
    let m : v % 128 ≡ v = omega arith in
    record {
      image = v ∷ [];
      writes = rw (uintvar_bytes, z, seven_bits v, m);
      reads =
          λ rest. rw (uintvar_from, clear_flag v h, seven_bits v, m, bit_or_under (i * 7) v acc k);
      are_bytes = (omega arith, tt);
    }

more_follows :
    (n i acc x : ℕ) (rest : List ℕ)
    → x < 128
    → acc < 2 ^ (i * 7)
    → uintvar_from (suc n) i acc ((x + 128) ∷ rest)
      ≡ uintvar_from n (i + 1) (acc + x * 2 ^ (i * 7)) rest
unfolding uintvar_from
more_follows n i acc x rest h k =
    let low : (x + 128) % 128 ≡ x = omega arith in
    rw (uintvar_from, read_flag x h, seven_bits (x + 128), low, bit_or_under (i * 7) x acc k)

uintvar-Loops : (n i acc v : ℕ) → v < 128 ^ suc n → acc < 2 ^ (i * 7) → Loops (suc n) i acc v
unfolding uintvar_bytes uintvar_from
uintvar-Loops zero i acc v h k = last_round zero i acc v (omega (arith, h)) k
uintvar-Loops (suc n) i acc v h k = elim (Bool-cases (v / 128 == 0)) [
  | inl t ↦ last_round (suc n) i acc v (omega (arith, ==→eq (v / 128) 0 t)) k
  | inr t ↦
      let p = 2 ^ (i * 7) in
      let x = v % 128 in
      let more =
        uintvar-Loops n (i + 1) (acc + x * p) (v / 128) (omega (arith, h, pow-suc 128 (suc n)))
          (rw (next_shift i) (room p acc x (omega arith) k)) in
      record {
        image = (x + 128) ∷ more.image;
        writes = rw (uintvar_bytes, t, more.writes, seven_bits v, set_flag x (omega arith));
        reads = λ rest.
            more_follows (suc n) i acc x (more.image ++ rest) (omega arith) k
            ∙ (more.reads rest ∙ ap (λ t. ok (t, rest)) (joined acc v i));
        are_bytes = (omega arith, more.are_bytes);
      }
]

pub uintvar-Reads : (n : ℕ) → n ≤ 0x0fffffff → Reads (encode_uintvar n) decode_uintvar n
unfolding encode_uintvar decode_uintvar
uintvar-Reads n h =
    let l = uintvar-Loops 3 0 0 n (omega arith) (omega arith) in
    record {
      image = l.image;
      writes = rw (le→leb n 0x0fffffff h) (l.writes);
      reads = λ rest. l.reads rest ∙ ap (λ t. ok (t, rest)) (omega arith);
      are_bytes = l.are_bytes;
    }

-- Binary data and strings that fit their 16-bit size
abbrev pub IsBinary : List ℕ → Type 0
IsBinary bs = (length bs ≤ 0xffff) × All IsByte bs

abbrev pub IsText : Text → Type 0
IsText s = IsBinary s × (is_utf8 s ≡ true)

pub binary-Reads : (bs : List ℕ) → IsBinary bs → Reads (encode_binary bs) decode_binary bs
unfolding encode_binary decode_binary
binary-Reads bs h =
    let n = uint16-Reads (length bs) h.0 in
    record {
      image = n.image ++ bs;
      writes = rw (n.writes);
      reads = λ rest.
          let l : ltb (length (bs ++ rest)) (length bs) ≡ false =
            le→not-ltb _ _ (omega (arith, length-append {0} bs rest)) in
          rw (
            append_assoc n.image bs rest,
            n.reads (bs ++ rest),
            l,
            take-append (length bs) bs rest refl,
            drop-append (length bs) bs rest refl,
          );
      are_bytes = All-append IsByte n.image bs n.are_bytes h.1;
    }

pub text-Reads : (s : Text) → IsText s → Reads (encode_string s) decode_string s
unfolding encode_string decode_string
text-Reads bs h =
    let n = uint16-Reads (length bs) h.0.0 in
    record {
      image = n.image ++ bs;
      writes = rw (n.writes);
      reads = λ rest.
          let l : ltb (length (bs ++ rest)) (length bs) ≡ false =
            le→not-ltb _ _ (omega (arith, length-append {0} bs rest)) in
          rw (
            append_assoc n.image bs rest,
            n.reads (bs ++ rest),
            l,
            take-append (length bs) bs rest refl,
            drop-append (length bs) bs rest refl,
            h.1,
          );
      are_bytes = All-append IsByte n.image bs n.are_bytes h.0.1;
    }
