-- ===== src/Modbus/Transport/Ascii.antt =====
-- Frames of Modbus ASCII: their text, what is decoded from it, and its size.
use hat_drivers.Base.{==-refl}
use hat_drivers.Base.{ℕ, suc, ◌+◌, ◌-◌, ◌*◌, ◌/◌, ◌%◌, ◌≤◌, ◌≡◌, ◌≢◌, refl, ap, arith}
use hat_drivers.Base.{List, [], ◌∷◌, ◌++◌, length, length-append, take-append}
use hat_drivers.Base.{All, All-append, ◌⊎◌, inr, Result, ok, err, true, false}
use hat_drivers.Base.{◌==◌, Bool}
use hat_drivers.Base.Bytes.{IsByte}
use hat_drivers.Base.Stream.{Asks, at-append}
use hat_drivers.Base.Bits.{holds_below, holds_below→holds}
use mathlib.Core.List.{append_assoc}
use hat_drivers.Modbus.Transport.Common.{Pdu}
use hat_drivers.Modbus.Transport.Common.{ascii_adu}
use hat_drivers.Modbus.Transport.Pdus.{
  IsPdu, direction_of, pdu_received, pdu_image, pdu_image-IsByte,
}
use hat_drivers.Modbus.Transport.Pdus.{decode_pdu-image}
use hat_drivers.Modbus.Transport.Pdus.{device_bytes-image}
use hat_drivers.Modbus.Transport.Checksum.{calculate_lrc, calculate_lrc-sum}
use hat_drivers.Modbus.Transport.Encode.{hex_digit, hex_text, encode_ascii_adu}
use hat_drivers.Modbus.Transport.Decode.{parse_hex, parse_text, skip_to_colon, decode_ascii_adu}
use hat_drivers.Modbus.Transport.Size.{end_of_text, start_of_text, get_next_ascii_adu_size}

-- The bytes that the text of a frame spells
abbrev pub signed : ℕ → Pdu → List ℕ
signed d p = d ∷ (pdu_image p ++ (calculate_lrc (d ∷ pdu_image p) ∷ []))

abbrev pub ascii_image : ℕ → Pdu → List ℕ
ascii_image d p = b':' ∷ (hex_text (signed d p) ++ (13 ∷ 10 ∷ []))

pub encode_ascii_adu-image :
    (d : ℕ) (p : Pdu) → IsByte d → IsPdu p → encode_ascii_adu d p ≡ ok (ascii_image d p)
unfolding encode_ascii_adu
encode_ascii_adu-image d p hd hp = rw (device_bytes-image d p hd hp)

is_value : Result ℕ → ℕ → Bool
is_value (ok v) i = v == i
is_value (err e) i = false

is_value→eq : (r : Result ℕ) (i : ℕ) → is_value r i ≡ true → r ≡ ok i
unfolding is_value
is_value→eq (ok v) i h = ground arith
is_value→eq (err e) i h = cc

hex_table :
    holds_below 256 (λ i. is_value (parse_hex (hex_digit (i / 16)) (hex_digit (i % 16))) i) ≡ true
unfolding holds_below is_value parse_hex hex_digit
hex_table = refl

parse_hex-digits : (i : ℕ) → IsByte i → parse_hex (hex_digit (i / 16)) (hex_digit (i % 16)) ≡ ok i
parse_hex-digits i h = is_value→eq (parse_hex (hex_digit (i / 16)) (hex_digit (i % 16))) i (
    holds_below→holds 256 (λ i. is_value (parse_hex (hex_digit (i / 16)) (hex_digit (i % 16))) i) i
      hex_table h)

hex_digit-ne : (d : ℕ) → (hex_digit d == 13) ≡ false
unfolding hex_digit
hex_digit-ne d = ground arith

parse_text-hex_text :
    (bytes rest : List ℕ)
    → All IsByte bytes
    → parse_text (hex_text bytes ++ (13 ∷ 10 ∷ rest)) ≡ ok (bytes, rest)
unfolding parse_text hex_text
parse_text-hex_text [] rest h = refl
parse_text-hex_text (i ∷ bytes) rest h =
    rw (hex_digit-ne (i / 16), parse_hex-digits i h.0, parse_text-hex_text bytes rest h.1)

signed-IsByte : (d : ℕ) (p : Pdu) → IsByte d → IsPdu p → All IsByte (signed d p)
signed-IsByte d p hd hp = (
  hd,
  All-append IsByte (pdu_image p) (calculate_lrc (d ∷ pdu_image p) ∷ []) (pdu_image-IsByte p hp)
      ((calculate_lrc-sum (d ∷ pdu_image p)).0, tt),
)

pub decode_ascii_adu-image :
    (d : ℕ) (p : Pdu) (rest : List ℕ)
    → IsByte d
    → IsPdu p
    → decode_ascii_adu (direction_of p) (ascii_image d p ++ rest)
      ≡ ok (ascii_adu d (pdu_received p), rest)
unfolding decode_ascii_adu skip_to_colon
decode_ascii_adu-image d p rest hd hp =
    let lrc = calculate_lrc (d ∷ pdu_image p) in
    let e : length (signed d p) - 1 ≡ length (d ∷ pdu_image p) =
      omega (arith, length-append {0} (pdu_image p) (lrc ∷ [])) in
    rw (
      append_assoc (hex_text (signed d p)) (13 ∷ 10 ∷ []) rest,
      parse_text-hex_text (signed d p) rest (signed-IsByte d p hd hp),
      decode_pdu-image p (lrc ∷ []) hp,
      e,
      at-append (pdu_image p) [] lrc,
      take-append (length (pdu_image p)) (pdu_image p) (lrc ∷ []) refl,
      ==-refl lrc,
    )

length-hex_text : (bytes : List ℕ) → length (hex_text bytes) ≡ length bytes * 2
unfolding hex_text
length-hex_text [] = refl
length-hex_text (i ∷ bytes) = omega (arith, length-hex_text bytes)

end_of_text-hex_text :
    (bytes : List ℕ) (size : ℕ)
    → end_of_text size (hex_text bytes ++ (13 ∷ 10 ∷ [])) ≡ size + length bytes * 2 + 2
unfolding end_of_text hex_text
end_of_text-hex_text [] size = omega arith
end_of_text-hex_text (i ∷ bytes) size =
    rw (hex_digit-ne (i / 16)) (omega (arith, end_of_text-hex_text bytes (size + 2)))

pub get_next_ascii_adu_size-image :
    (d : ℕ) (p : Pdu) → get_next_ascii_adu_size (ascii_image d p) ≡ ok (length (ascii_image d p))
unfolding get_next_ascii_adu_size start_of_text
get_next_ascii_adu_size-image d p = ap ok (
    omega (
      arith,
      end_of_text-hex_text (signed d p) 1,
      length-append {0} (hex_text (signed d p)) (13 ∷ 10 ∷ []),
      length-hex_text (signed d p),
    ))

-- Behind the colon, a front of even length shows no end of the text.
end_of_text-front :
    (bytes a b : List ℕ) (size : ℕ)
    → a ++ b ≡ hex_text bytes ++ (13 ∷ 10 ∷ [])
    → b ≢ []
    → length a % 2 ≡ 0
    → (end_of_text size a ≡ size + length a + 2) × (length a + 2 ≤ length bytes * 2 + 2)
unfolding end_of_text hex_text
end_of_text-front bytes [] b size e ne h = (omega arith, omega arith)
end_of_text-front bytes (x ∷ []) b size e ne h = absurd (omega arith)
end_of_text-front [] (x ∷ y ∷ a) [] size e ne h = absurd (ne refl)
end_of_text-front [] (x ∷ y ∷ a) (z ∷ b) size e ne h =
    absurd (omega (arith, ap length e, length-append {0} a (z ∷ b)))
end_of_text-front (i ∷ bytes) (x ∷ y ∷ a) b size e ne h =
    let (r, k) = end_of_text-front bytes a b (size + 2) (cc) ne (omega arith) in
    let x13 : (x == 13) ≡ false = ground (arith, hex_digit-ne (i / 16)) in
    (rw x13 (omega (arith, r)), omega (arith, k))

-- The loop stops at the start, and where the colon and pairs of digits are read.
abbrev pub Stop : ℕ → Type 0
Stop n = (n ≡ 0) ⊎ (n % 2 ≡ 1)

pub ascii_image-Asks :
    (d : ℕ) (p : Pdu) (a b : List ℕ)
    → a ++ b ≡ ascii_image d p
    → b ≢ []
    → Stop (length a)
    → Asks get_next_ascii_adu_size Stop a b
unfolding get_next_ascii_adu_size start_of_text
ascii_image-Asks d p [] b e ne s = record {
  wanted = 1;
  answer = refl;
  more = omega arith;
  within = omega (arith, ap length e);
  stops = inr refl;
}
ascii_image-Asks d p (x ∷ a) b e ne s =
    let (r, k) = end_of_text-front (signed d p) a b 1 (cc) ne (omega (arith, s)) in
    let total : suc (length a) + length b ≡ suc (length (signed d p) * 2 + 2) = omega (
      arith,
      ap length e,
      length-append {0} a b,
      length-append {0} (hex_text (signed d p)) (13 ∷ 10 ∷ []),
      length-hex_text (signed d p),
    ) in
    record {
      wanted = 1 + length a + 2;
      answer = ground (arith, r);
      more = omega arith;
      within = omega (arith, k, total);
      stops = inr (omega (arith, s));
    }
