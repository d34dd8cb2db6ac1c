-- ===== src/Apci/Transport.antt =====
-- src_py/hat/drivers/iec60870/apci/transport.py: APDUs on a TCP connection.
pub mod Whole
use hat_drivers.Base.{
  ℕ, ◌+◌, ◌≤◌, ◌≡◌, ◌≢◌, refl, arith, ap, List, [], ◌∷◌, ◌++◌, length, length-append, Result, ok,
  ◌>>=◌,
}
use hat_drivers.Base.Stream.{read_frame, rounds, Asks, read_frame-append}
use hat_drivers.Apci.Encoder.{Apdu, get_next_apdu_size, decode, encode, IsApdu}
use mathlib.Core.List.{append-nil}
use hat_drivers.Apci.Encoder.RoundTrip.{image, body, encode-image, decode-image, body-IsByte}

-- The APDU, and what stays in the stream.
unfoldable pub read : List ℕ → Result (Apdu × List ℕ)
read stream = do
  (buff, rest) ← read_frame get_next_apdu_size (rounds stream) [] stream
  apdu ← decode buff
  ok (apdu, rest)

-- What `write` hands to the TCP connection
unfoldable pub write : Apdu → Result (List ℕ)
write apdu = encode apdu

image-Asks :
    (n : ℕ) (fields a b : List ℕ)
    → n ≡ length fields
    → 4 ≤ n
    → a ++ b ≡ 0x68 ∷ n ∷ fields
    → b ≢ []
    → Asks get_next_apdu_size (λ n. Unit {0}) a b
unfolding get_next_apdu_size
image-Asks n fields [] b hn h e ne = record {
  wanted = 2;
  answer = refl;
  more = omega arith;
  within = ground arith;
  stops = tt;
}
image-Asks n fields (x ∷ []) b hn h e ne = record {
  wanted = 2;
  answer = refl;
  more = omega arith;
  within = ground arith;
  stops = tt;
}
image-Asks n fields (x ∷ y ∷ a) [] hn h e ne = absurd (ne refl)
image-Asks n fields (x ∷ y ∷ a) (z ∷ b) hn h e ne =
    let total : length (x ∷ y ∷ (a ++ z ∷ b)) ≡ length (0x68 ∷ n ∷ fields) = ap length e in
    record {
      wanted = n + 2;
      answer = ground arith;
      more = omega (arith, total, length-append {0} a (z ∷ b));
      within = omega (arith, total, length-append {0} a (z ∷ b));
      stops = tt;
    }

image-size : (n : ℕ) (fields : List ℕ) → 4 ≤ n → get_next_apdu_size (0x68 ∷ n ∷ fields) ≡ ok (n + 2)
unfolding get_next_apdu_size
image-size n fields h = ground arith

read-image :
    (apdu : Apdu) (rest : List ℕ) → IsApdu apdu → read (image apdu ++ rest) ≡ ok (apdu, rest)
unfolding read image
read-image apdu rest h =
    let fields = body apdu in
    let bound = body-IsByte apdu h in
    rw
      (read_frame-append get_next_apdu_size (λ n. Unit {0}) rest (rounds (image apdu ++ rest)) []
        (image apdu) {n = length fields + 2} (omega (arith, length-append {0} fields rest))
        (λ a b e ne s. image-Asks (length fields) fields a b refl bound.1 e ne) tt
        (image-size (length fields) fields bound.1) (omega arith))
      (rw (rw append-nil at (decode-image apdu [] h)))

-- For an APDU with fields in range, what `write` sends, `read` takes off the stream as the same APDU, and
-- nothing more.
pub read-write :
    (apdu : Apdu) (rest : List ℕ)
    → IsApdu apdu
    → (write apdu >>= λ bs. read (bs ++ rest)) ≡ ok (apdu, rest)
unfolding write
read-write apdu rest h = rw (encode-image apdu h) (read-image apdu rest h)
