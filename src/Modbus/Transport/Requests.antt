-- ===== src/Modbus/Transport/Requests.antt =====
-- `decode_req` reads back what `encode_req` writes.
use hat_drivers.Base.{ℕ, suc, ◌+◌, ◌*◌, ◌/◌, ◌%◌, ◌≤◌, ◌≡◌, sym, ap, arith}
use hat_drivers.Base.{List, [], ◌∷◌, ◌++◌, length, drop, take-append, drop-append, All}
use hat_drivers.Base.{ok, ◌>>=◌, ◌==◌, if◌then◌else◌}
use hat_drivers.Base.Bytes.{IsByte, IsU16, slice, pack_h_lem, pack_b_lem}
use hat_drivers.Base.{not}
use hat_drivers.Modbus.Transport.Values.{coil_count, coil_bytes}
use hat_drivers.Modbus.Transport.Values.Laws.{IsBit, register_bytes, length-coil_bytes}
use hat_drivers.Modbus.Transport.Values.Laws.{coil_bytes-IsByte, request_coils-coil_bytes}
use hat_drivers.Modbus.Transport.Values.Laws.{length-register_bytes}
use hat_drivers.Modbus.Transport.Values.Laws.{register_bytes-IsByte}
use hat_drivers.Modbus.Transport.Values.Laws.{request_register_bytes_lem, registers-register_bytes}
use hat_drivers.Modbus.Transport.Common.{Req, fc_value, to_function_code}
use hat_drivers.Modbus.Transport.Common.{read_coils_req, read_discrete_inputs_req}
use hat_drivers.Modbus.Transport.Common.{read_holding_registers_req, read_input_registers_req}
use hat_drivers.Modbus.Transport.Common.{write_single_coil_req, write_single_register_req}
use hat_drivers.Modbus.Transport.Common.{write_multiple_coils_req, write_multiple_registers_req}
use hat_drivers.Modbus.Transport.Common.{mask_write_register_req, read_fifo_queue_req}
use hat_drivers.Modbus.Transport.Encode.{pack_hh, pack_hhb, pack_hhh, encode_req}
use hat_drivers.Modbus.Transport.Decode.{decode_req_fields, decode_req}

-- Requests that fit the protocol's fields: 16-bit addresses, quantities, registers and masks, and at
-- most as many values as one byte can count.
abbrev pub IsReq : Req → Type 0
IsReq (read_coils_req address quantity) = IsU16 address × IsU16 quantity
IsReq (read_discrete_inputs_req address quantity) = IsU16 address × IsU16 quantity
IsReq (read_holding_registers_req address quantity) = IsU16 address × IsU16 quantity
IsReq (read_input_registers_req address quantity) = IsU16 address × IsU16 quantity
IsReq (write_single_coil_req address value) = IsU16 address × IsBit value
IsReq (write_single_register_req address value) = IsU16 address × IsU16 value
IsReq (write_multiple_coils_req address values) =
    IsU16 address × (length values ≤ 2040) × All IsBit values
IsReq (write_multiple_registers_req address values) =
    IsU16 address × (length values ≤ 127) × All IsU16 values
IsReq (mask_write_register_req address and_mask or_mask) =
    IsU16 address × IsU16 and_mask × IsU16 or_mask
IsReq (read_fifo_queue_req address) = IsU16 address

-- A 16-bit field, high byte first
abbrev pub field : ℕ → List ℕ → List ℕ
field x rest = x / 256 ∷ x % 256 ∷ rest

-- The bytes of a request
abbrev pub req_image : Req → List ℕ
req_image (read_coils_req address quantity) = 1 ∷ field address (field quantity [])
req_image (read_discrete_inputs_req address quantity) = 2 ∷ field address (field quantity [])
req_image (read_holding_registers_req address quantity) = 3 ∷ field address (field quantity [])
req_image (read_input_registers_req address quantity) = 4 ∷ field address (field quantity [])
req_image (write_single_coil_req address value) =
    5 ∷ field address (field (if value == 0 then 0 else 0xFF00) [])
req_image (write_single_register_req address value) = 6 ∷ field address (field value [])
req_image (write_multiple_coils_req address values) =
    let count = coil_count (length values) in
    15 ∷ field address (field (length values) (count ∷ coil_bytes values count 0))
req_image (write_multiple_registers_req address values) =
    16 ∷ field address (field (length values) ((2 * length values) ∷ register_bytes values))
req_image (mask_write_register_req address and_mask or_mask) =
    22 ∷ field address (field and_mask (field or_mask []))
req_image (read_fifo_queue_req address) = 24 ∷ field address []

pub pack_hh_lem : (a b : ℕ) → IsU16 a → IsU16 b → pack_hh a b ≡ ok (field a (field b []))
unfolding pack_hh
pack_hh_lem a b h k = rw (pack_h_lem a h, pack_h_lem b k)

pub pack_hhb_lem :
    (a b c : ℕ) → IsU16 a → IsU16 b → IsByte c → pack_hhb a b c ≡ ok (field a (field b (c ∷ [])))
unfolding pack_hhb
pack_hhb_lem a b c h k l = rw (pack_h_lem a h, pack_h_lem b k, pack_b_lem c l)

pub pack_hhh_lem :
    (a b c : ℕ) → IsU16 a → IsU16 b → IsU16 c → pack_hhh a b c ≡ ok (field a (field b (field c [])))
unfolding pack_hhh
pack_hhh_lem a b c h k l = rw (pack_h_lem a h, pack_h_lem b k, pack_h_lem c l)

pub flag-IsU16 : (v : ℕ) → IsU16 (if v == 0 then 0 else 0xFF00)
flag-IsU16 v = ground arith

pub coil_count-le : (n : ℕ) → n ≤ 2040 → coil_count n ≤ 255
unfolding coil_count
coil_count-le n h = ground arith

pub encode_req-image : (r : Req) → IsReq r → encode_req r ≡ ok (req_image r)
unfolding encode_req fc_value
encode_req-image (read_coils_req a q) h = rw (pack_hh_lem a q h.0 h.1)
encode_req-image (read_discrete_inputs_req a q) h = rw (pack_hh_lem a q h.0 h.1)
encode_req-image (read_holding_registers_req a q) h = rw (pack_hh_lem a q h.0 h.1)
encode_req-image (read_input_registers_req a q) h = rw (pack_hh_lem a q h.0 h.1)
encode_req-image (write_single_coil_req a v) h =
    rw (pack_hh_lem a (if v == 0 then 0 else 0xFF00) h.0 (flag-IsU16 v))
encode_req-image (write_single_register_req a v) h = rw (pack_hh_lem a v h.0 h.1)
encode_req-image (write_multiple_coils_req a vs) h =
    let c : IsByte (coil_count (length vs)) = omega (arith, coil_count-le (length vs) h.1) in
    rw (pack_hhb_lem a (length vs) (coil_count (length vs)) h.0 (omega (arith, h.1)) c)
encode_req-image (write_multiple_registers_req a vs) h = rw (
  pack_hhb_lem a (length vs) (2 * length vs) h.0 (omega (arith, h.1)) (omega (arith, h.1)),
  request_register_bytes_lem vs h.2,
)
encode_req-image (mask_write_register_req a m o) h = rw (pack_hhh_lem a m o h.0 h.1 h.2)
encode_req-image (read_fifo_queue_req a) h = rw (pack_h_lem a h)

pub flag-bit : (v : ℕ) → IsBit v → (if not ((if v == 0 then 0 else 0xFF00) == 0) then 1 else 0) ≡ v
flag-bit v h = ground arith

-- Two bytes of a field are bytes, and give it back.
pub fields-IsByte :
    (a b : ℕ) (rest : List ℕ)
    → IsU16 a
    → IsU16 b
    → All IsByte rest
    → All IsByte (field a (field b rest))
fields-IsByte a b rest h k l = (omega arith, (omega arith, (omega arith, (omega arith, l))))

pub field-join : (x : ℕ) → x / 256 * 256 + x % 256 ≡ x
field-join x = omega arith

pub field-join_zero : (x : ℕ) → (0 * 256 + x / 256) * 256 + x % 256 ≡ x
field-join_zero x = omega arith

pub req_image-IsByte : (r : Req) → IsReq r → All IsByte (req_image r)
req_image-IsByte (read_coils_req a q) h = (omega arith, fields-IsByte a q [] h.0 h.1 tt)
req_image-IsByte (read_discrete_inputs_req a q) h = (omega arith, fields-IsByte a q [] h.0 h.1 tt)
req_image-IsByte (read_holding_registers_req a q) h = (omega arith, fields-IsByte a q [] h.0 h.1 tt)
req_image-IsByte (read_input_registers_req a q) h = (omega arith, fields-IsByte a q [] h.0 h.1 tt)
req_image-IsByte (write_single_coil_req a v) h =
    (omega arith, fields-IsByte a (if v == 0 then 0 else 0xFF00) [] h.0 (flag-IsU16 v) tt)
req_image-IsByte (write_single_register_req a v) h = (omega arith, fields-IsByte a v [] h.0 h.1 tt)
req_image-IsByte (write_multiple_coils_req a vs) h =
    let count = coil_count (length vs) in
    let n : IsU16 (length vs) = omega (arith, h.1) in
    let c : IsByte count = omega (arith, coil_count-le (length vs) h.1) in
    (
      omega arith,
      fields-IsByte a (length vs) (count ∷ coil_bytes vs count 0) h.0 n
          (c, coil_bytes-IsByte vs count 0),
    )
req_image-IsByte (write_multiple_registers_req a vs) h =
    let n : IsU16 (length vs) = omega (arith, h.1) in
    let c : IsByte (2 * length vs) = omega (arith, h.1) in
    (
      omega arith,
      fields-IsByte a (length vs) ((2 * length vs) ∷ register_bytes vs) h.0 n
          (c, register_bytes-IsByte vs h.2),
    )
req_image-IsByte (mask_write_register_req a m o) h =
    (omega arith, fields-IsByte a m (field o []) h.0 h.1 (omega (arith, h.2)))
req_image-IsByte (read_fifo_queue_req a) h = (omega arith, omega arith)

-- The data bytes behind the five bytes of a header
five-slice :
    (a b c d e n : ℕ) (xs ys : List ℕ)
    → n ≡ length xs
    → (slice 5 (n + 5) (a ∷ b ∷ c ∷ d ∷ e ∷ (xs ++ ys)) ≡ xs)
      × (drop (n + 5) (a ∷ b ∷ c ∷ d ∷ e ∷ (xs ++ ys)) ≡ ys)
five-slice a b c d e n xs ys h =
    let k : n + 5 ≡ suc (suc (suc (suc (suc n)))) = omega arith in
    rw k (take-append n xs ys h, drop-append n xs ys h)

pub decode_req-image :
    (r : Req) (rest : List ℕ) → IsReq r → decode_req (req_image r ++ rest) ≡ ok (r, rest)
unfolding decode_req decode_req_fields to_function_code
decode_req-image (read_coils_req a q) rest h = rw (field-join a, field-join q)
decode_req-image (read_discrete_inputs_req a q) rest h = rw (field-join a, field-join q)
decode_req-image (read_holding_registers_req a q) rest h = rw (field-join a, field-join q)
decode_req-image (read_input_registers_req a q) rest h = rw (field-join a, field-join q)
decode_req-image (write_single_coil_req a v) rest h =
    rw (field-join a, field-join (if v == 0 then 0 else 0xFF00))
      (ap (λ t. ok (write_single_coil_req a t, rest)) (flag-bit v h.1))
decode_req-image (write_single_register_req a v) rest h = rw (field-join a, field-join v)
decode_req-image (write_multiple_coils_req a vs) rest h =
    let count = coil_count (length vs) in
    let bytes = coil_bytes vs count 0 in
    let (s, d) =
      five-slice (a / 256) (a % 256) (length vs / 256) (length vs % 256) count count bytes rest
        (sym (length-coil_bytes vs count 0)) in
    rw (field-join a, field-join (length vs), s, d, request_coils-coil_bytes vs h.2)
decode_req-image (write_multiple_registers_req a vs) rest h =
    let (s, d) =
      five-slice (a / 256) (a % 256) (length vs / 256) (length vs % 256) (2 * length vs)
        (2 * length vs) (register_bytes vs) rest (omega (arith, length-register_bytes vs)) in
    rw (field-join a, field-join (length vs), s, d, registers-register_bytes vs)
decode_req-image (mask_write_register_req a m o) rest h =
    rw (field-join a, field-join m, field-join o)
decode_req-image (read_fifo_queue_req a) rest h = rw (field-join_zero a)

-- `decode_req` reads back each request that fits the protocol, and leaves what follows its bytes.
pub decode_req-encode_req :
    (r : Req) (rest : List ℕ)
    → IsReq r
    → (encode_req r >>= λ bs. decode_req (bs ++ rest)) ≡ ok (r, rest)
decode_req-encode_req r rest h = rw (encode_req-image r h) (decode_req-image r rest h)
