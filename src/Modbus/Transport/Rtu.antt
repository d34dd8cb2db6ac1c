-- ===== src/Modbus/Transport/Rtu.antt =====
-- Frames of Modbus RTU: their bytes, what is decoded from them, and their size.
use hat_drivers.Base.{==-refl}
use hat_drivers.Base.{ℕ, suc, ◌+◌, ◌-◌, ◌*◌, ◌/◌, ◌%◌, ◌≡◌, refl, ap, arith}
use hat_drivers.Base.{List, [], ◌∷◌, ◌++◌, length, length-append, take, take-append}
use hat_drivers.Base.{ok}
use hat_drivers.Base.Bytes.{IsByte, IsU16}
use hat_drivers.Base.Bytes.{int_to_little}
use mathlib.Core.List.{append_assoc}
use hat_drivers.Modbus.Transport.Common.{Pdu}
use hat_drivers.Modbus.Transport.Common.{rtu_adu}
use hat_drivers.Modbus.Transport.Pdus.{
  IsPdu, direction_of, pdu_received, pdu_image, pdu_image-IsByte,
}
use hat_drivers.Modbus.Transport.Pdus.{decode_pdu-image}
use hat_drivers.Modbus.Transport.Pdus.{device_bytes-image}
use hat_drivers.Modbus.Transport.Checksum.{calculate_crc, calculate_crc-IsU16}
use hat_drivers.Modbus.Transport.Encode.{encode_rtu_adu}
use hat_drivers.Modbus.Transport.Decode.{decode_rtu_adu}

abbrev pub crc_bytes : ℕ → List ℕ → List ℕ
crc_bytes crc rest = crc % 256 ∷ crc / 256 ∷ rest

abbrev pub rtu_image : ℕ → Pdu → List ℕ
rtu_image d p = d ∷ (pdu_image p ++ crc_bytes (calculate_crc (d ∷ pdu_image p)) [])

int_to_little-crc : (crc : ℕ) → IsU16 crc → int_to_little crc 2 ≡ ok (crc_bytes crc [])
unfolding int_to_little
int_to_little-crc crc h = ground arith

pub encode_rtu_adu-image :
    (d : ℕ) (p : Pdu) → IsByte d → IsPdu p → encode_rtu_adu d p ≡ ok (rtu_image d p)
unfolding encode_rtu_adu
encode_rtu_adu-image d p hd hp = rw (
  device_bytes-image d p hd hp,
  int_to_little-crc (calculate_crc (d ∷ pdu_image p))
      (calculate_crc-IsU16 (d ∷ pdu_image p) (hd, pdu_image-IsByte p hp)),
)

crc-join : (crc : ℕ) → crc % 256 + 256 * (crc / 256 + 256 * 0) ≡ crc
crc-join crc = omega arith

-- What precedes the CRC
unsigned :
    (d : ℕ) (xs : List ℕ) (c1 c2 : ℕ) (rest : List ℕ)
    → let bs = d ∷ (xs ++ (c1 ∷ c2 ∷ rest)) in take (length bs - length rest - 2) bs ≡ d ∷ xs
unsigned d xs c1 c2 rest =
    let bs = d ∷ (xs ++ (c1 ∷ c2 ∷ rest)) in
    let e : length bs - length rest - 2 ≡ suc (length xs) =
      omega (arith, length-append {0} xs (c1 ∷ c2 ∷ rest)) in
    rw e (ap (◌∷◌ d) (take-append (length xs) xs (c1 ∷ c2 ∷ rest) refl))

pub decode_rtu_adu-image :
    (d : ℕ) (p : Pdu) (rest : List ℕ)
    → IsPdu p
    → decode_rtu_adu (direction_of p) (rtu_image d p ++ rest)
      ≡ ok (rtu_adu d (pdu_received p), rest)
unfolding decode_rtu_adu
decode_rtu_adu-image d p rest hp =
    let crc = calculate_crc (d ∷ pdu_image p) in
    let tail = crc_bytes crc rest in
    rw (
      append_assoc (pdu_image p) (crc_bytes crc []) rest,
      decode_pdu-image p tail hp,
      unsigned d (pdu_image p) (crc % 256) (crc / 256) rest,
      crc-join crc,
      ==-refl crc,
    )
