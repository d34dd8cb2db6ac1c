-- ===== src/Modbus/Transport/Tcp.antt =====
-- Frames of Modbus TCP: their bytes, what is decoded from them, and their size.
use hat_drivers.Base.{ℕ, suc, ◌+◌, ◌≡◌, ◌≢◌, refl, ap, arith}
use hat_drivers.Base.{List, [], ◌∷◌, ◌++◌, length, length-append, take-append, drop-append}
use hat_drivers.Base.{ok}
use hat_drivers.Base.Bytes.{IsByte, IsU16, pack_h_lem, pack_b_lem}
use hat_drivers.Base.Bytes.{to_bytes_lem}
use hat_drivers.Base.Stream.{Asks}
use hat_drivers.Modbus.Transport.Common.{Pdu}
use hat_drivers.Modbus.Transport.Common.{tcp_adu}
use hat_drivers.Modbus.Transport.Pdus.{
  IsPdu, direction_of, pdu_received, pdu_image, pdu_image-IsByte,
}
use hat_drivers.Modbus.Transport.Pdus.{encode_pdu-image, decode_pdu-image_alone}
use hat_drivers.Modbus.Transport.Pdus.{pdu_image-length}
use hat_drivers.Modbus.Transport.Requests.{field, field-join, field-join_zero}
use hat_drivers.Modbus.Transport.Encode.{encode_tcp_adu}
use hat_drivers.Modbus.Transport.Decode.{cut_pdu, decode_tcp_adu}
use hat_drivers.Modbus.Transport.Size.{get_next_tcp_adu_size}

abbrev pub tcp_image : ℕ → ℕ → Pdu → List ℕ
tcp_image t d p = field t (0 ∷ 0 ∷ field (length (pdu_image p) + 1) (d ∷ pdu_image p))

pub encode_tcp_adu-image :
    (t d : ℕ) (p : Pdu) → IsU16 t → IsByte d → IsPdu p → encode_tcp_adu t d p ≡ ok (tcp_image t d p)
unfolding encode_tcp_adu
encode_tcp_adu-image t d p ht hd hp =
    let l : IsU16 (length (pdu_image p) + 1) = omega (arith, pdu_image-length p hp) in
    rw (
      encode_pdu-image p hp,
      to_bytes_lem (pdu_image p) (pdu_image-IsByte p hp),
      pack_h_lem t ht,
      pack_h_lem 0 (omega arith),
      pack_h_lem (length (pdu_image p) + 1) l,
      pack_b_lem d hd,
    )

cut_pdu-image : (xs ys : List ℕ) → cut_pdu (length xs + 1) (xs ++ ys) ≡ (xs, ys)
unfolding cut_pdu
cut_pdu-image xs ys =
    let e : length xs + 1 ≡ suc (length xs) = omega arith in
    rw (e, take-append (length xs) xs ys refl, drop-append (length xs) xs ys refl)

pub decode_tcp_adu-image :
    (t d : ℕ) (p : Pdu) (rest : List ℕ)
    → IsPdu p
    → decode_tcp_adu (direction_of p) (tcp_image t d p ++ rest)
      ≡ ok (tcp_adu t d (pdu_received p), rest)
unfolding decode_tcp_adu
decode_tcp_adu-image t d p rest hp = rw (
  field-join t,
  field-join (length (pdu_image p) + 1),
  cut_pdu-image (pdu_image p) rest,
  decode_pdu-image_alone p hp,
)

pub get_next_tcp_adu_size-image :
    (t d : ℕ) (p : Pdu) → get_next_tcp_adu_size (tcp_image t d p) ≡ ok (length (tcp_image t d p))
unfolding get_next_tcp_adu_size
get_next_tcp_adu_size-image t d p =
    let n = length (pdu_image p) in ground (arith, field-join_zero (n + 1))

-- Every front of a frame asks for what is missing, and for nothing beyond the frame.
pub tcp_image-Asks :
    (t d : ℕ) (p : Pdu) (a b : List ℕ)
    → a ++ b ≡ tcp_image t d p
    → b ≢ []
    → Asks get_next_tcp_adu_size (λ n. Unit {0}) a b
unfolding get_next_tcp_adu_size
tcp_image-Asks t d p a [] e ne = absurd (ne refl)
tcp_image-Asks t d p [] (z ∷ b) e ne = record {
  wanted = 6;
  answer = refl;
  more = omega arith;
  within = omega (arith, ap length e);
  stops = tt;
}
tcp_image-Asks t d p (x0 ∷ []) (z ∷ b) e ne = record {
  wanted = 6;
  answer = refl;
  more = omega arith;
  within = omega (arith, ap length e);
  stops = tt;
}
tcp_image-Asks t d p (x0 ∷ x1 ∷ []) (z ∷ b) e ne = record {
  wanted = 6;
  answer = refl;
  more = omega arith;
  within = omega (arith, ap length e);
  stops = tt;
}
tcp_image-Asks t d p (x0 ∷ x1 ∷ x2 ∷ []) (z ∷ b) e ne = record {
  wanted = 6;
  answer = refl;
  more = omega arith;
  within = omega (arith, ap length e);
  stops = tt;
}
tcp_image-Asks t d p (x0 ∷ x1 ∷ x2 ∷ x3 ∷ []) (z ∷ b) e ne = record {
  wanted = 6;
  answer = refl;
  more = omega arith;
  within = omega (arith, ap length e);
  stops = tt;
}
tcp_image-Asks t d p (x0 ∷ x1 ∷ x2 ∷ x3 ∷ x4 ∷ []) (z ∷ b) e ne = record {
  wanted = 6;
  answer = refl;
  more = omega arith;
  within = omega (arith, ap length e);
  stops = tt;
}
tcp_image-Asks t d p (x0 ∷ x1 ∷ x2 ∷ x3 ∷ x4 ∷ x5 ∷ a) (z ∷ b) e ne =
    let n = length (pdu_image p) in
    record {
      wanted = n + 1 + 6;
      answer = ground (arith, field-join_zero (n + 1));
      more = omega (arith, ap length e, length-append {0} a (z ∷ b));
      within = omega (arith, ap length e, length-append {0} a (z ∷ b));
      stops = tt;
    }
