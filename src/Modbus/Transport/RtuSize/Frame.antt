-- ===== src/Modbus/Transport/RtuSize/Frame.antt =====
-- Whole RTU frames.
use hat_drivers.Base.{ℕ, ◌+◌, ◌≤◌, ◌≡◌, ◌≢◌, refl, ap, ◌∙◌, arith, List, [], ◌∷◌, ◌++◌, ok}
use hat_drivers.Base.{length, length-append}
use hat_drivers.Base.Stream.{Asks}
use mathlib.Core.List.{append-nil}
use hat_drivers.Modbus.Transport.Common.{Direction, request, response, Pdu}
use hat_drivers.Modbus.Transport.Size.{get_next_req_size, get_next_res_size, get_next_pdu_size}
use hat_drivers.Modbus.Transport.Size.{get_next_rtu_adu_size}
use hat_drivers.Modbus.Transport.Checksum.{calculate_crc}
use hat_drivers.Modbus.Transport.Pdus.{IsPdu, direction_of, pdu_image, pdu_image-length}
use hat_drivers.Modbus.Transport.Rtu.{rtu_image, crc_bytes}
use hat_drivers.Modbus.Transport.RtuSize.{pdu_image-Sized}

-- Before the function code the unit is taken to have one byte.
one_byte : (direction : Direction) (x : ℕ) → get_next_pdu_size direction (x ∷ []) 1 ≡ ok 1
unfolding get_next_pdu_size get_next_req_size get_next_res_size
one_byte request x = refl
one_byte response x = refl

rtu_size :
    (direction : Direction) (bs : List ℕ) (n : ℕ)
    → 1 ≤ length bs
    → get_next_pdu_size direction bs 1 ≡ ok n
    → get_next_rtu_adu_size direction bs ≡ ok (n + 3)
unfolding get_next_rtu_adu_size
rtu_size direction bs n h e = ground arith

frame-length : (d : ℕ) (p : Pdu) → length (rtu_image d p) ≡ length (pdu_image p) + 3
frame-length d p =
    omega (arith, length-append {0} (pdu_image p) (crc_bytes (calculate_crc (d ∷ pdu_image p)) []))

pub rtu_image-Asks :
    (d : ℕ) (p : Pdu) (a b : List ℕ)
    → IsPdu p
    → a ++ b ≡ rtu_image d p
    → b ≢ []
    → Asks (get_next_rtu_adu_size (direction_of p)) (λ n. Unit {0}) a b
rtu_image-Asks d p a [] h e ne = absurd (ne refl)
rtu_image-Asks d p [] (z ∷ b) h e ne = record {
  wanted = 1;
  answer = unfold get_next_rtu_adu_size in refl;
  more = omega arith;
  within = omega arith;
  stops = tt;
}
rtu_image-Asks d p (x ∷ []) (z ∷ b) h e ne = record {
  wanted = 1 + 3;
  answer = rtu_size (direction_of p) (x ∷ []) 1 (omega arith) (one_byte (direction_of p) x);
  more = omega arith;
  within = omega (arith, ap length e, frame-length d p, pdu_image-length p h);
  stops = tt;
}
rtu_image-Asks d p (x ∷ y ∷ a) (z ∷ b) h e ne =
    let front = x ∷ y ∷ a in
    let tail = crc_bytes (calculate_crc (d ∷ pdu_image p)) [] in
    let s = pdu_image-Sized d tail front (z ∷ b) (omega arith) p e refl in
    let total : length (rtu_image d p) ≡ length front + length (z ∷ b) =
      omega (arith, ap length e, length-append {0} a (z ∷ b)) in
    record {
      wanted = s.wanted + 3;
      answer = rtu_size (direction_of p) front s.wanted (omega arith) s.answer;
      more = s.more (omega (arith, total));
      within = omega (arith, s.within, total);
      stops = tt;
    }

pub rtu_image-size :
    (d : ℕ) (p : Pdu)
    → IsPdu p
    → get_next_rtu_adu_size (direction_of p) (rtu_image d p) ≡ ok (length (rtu_image d p))
rtu_image-size d p h =
    let frame = rtu_image d p in
    let tail = crc_bytes (calculate_crc (d ∷ pdu_image p)) [] in
    let two : 2 ≤ length frame = omega (arith, frame-length d p, pdu_image-length p h) in
    let s = pdu_image-Sized d tail frame [] two p (append-nil frame) refl in
    rtu_size (direction_of p) frame s.wanted (omega (arith, two)) s.answer ∙ ap ok (s.exact refl)
