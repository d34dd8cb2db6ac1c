-- ===== src/Modbus/Transport/Responses.antt =====
-- `decode_res` reads back what `encode_res` writes.
use hat_drivers.Base.{ℕ, suc, ◌+◌, ◌*◌, ◌/◌, ◌%◌, ◌≤◌, ◌<◌, ◌≡◌, refl, sym, ap, arith}
use hat_drivers.Base.{List, [], ◌∷◌, ◌++◌, length, drop, take-append, drop-append, All}
use hat_drivers.Base.{ok, ◌>>=◌, ◌==◌, if◌then◌else◌, bit_or, bit_and}
use hat_drivers.Base.Bytes.{IsByte, IsU16, slice}
use hat_drivers.Modbus.Transport.Values.{coil_count, coil_bytes}
use hat_drivers.Modbus.Transport.Values.Laws.{IsBit, padded, register_bytes, length-coil_bytes}
use hat_drivers.Modbus.Transport.Values.Laws.{coil_bytes-IsByte, response_coils-coil_bytes}
use hat_drivers.Modbus.Transport.Values.Laws.{length-register_bytes, register_bytes-IsByte}
use hat_drivers.Modbus.Transport.Values.Laws.{response_register_bytes_lem}
use hat_drivers.Modbus.Transport.Values.Laws.{registers-register_bytes}
use hat_drivers.Modbus.Transport.Common.{Res, FunctionCode, fc_value, to_function_code, read_coils}
use hat_drivers.Modbus.Transport.Common.{read_discrete_inputs}
use hat_drivers.Modbus.Transport.Common.{error_res, read_coils_res}
use hat_drivers.Modbus.Transport.Common.{read_discrete_inputs_res, read_holding_registers_res}
use hat_drivers.Modbus.Transport.Common.{read_input_registers_res, write_single_coil_res}
use hat_drivers.Modbus.Transport.Common.{write_single_register_res, write_multiple_coils_res}
use hat_drivers.Modbus.Transport.Common.{write_multiple_registers_res, mask_write_register_res}
use hat_drivers.Modbus.Transport.Common.{read_fifo_queue_res}
use hat_drivers.Modbus.Common.{Error, error_value, to_error, invalid_function_code}
use hat_drivers.Modbus.Transport.Encode.{encode_res}
use hat_drivers.Modbus.Transport.Decode.{
  decode_res_fields, decode_res, decode_coils, decode_registers,
}
use hat_drivers.Modbus.Transport.Requests.{field, pack_hh_lem, pack_hhh_lem, flag-IsU16, flag-bit}
use hat_drivers.Modbus.Transport.Requests.{
  coil_count-le, fields-IsByte, field-join, field-join_zero,
}

-- Responses that fit the protocol's fields.
abbrev pub IsRes : Res → Type 0
IsRes (error_res fc error) = Unit
IsRes (read_coils_res values) = (length values ≤ 2040) × All IsBit values
IsRes (read_discrete_inputs_res values) = (length values ≤ 2040) × All IsBit values
IsRes (read_holding_registers_res values) = (length values ≤ 127) × All IsU16 values
IsRes (read_input_registers_res values) = (length values ≤ 127) × All IsU16 values
IsRes (write_single_coil_res address value) = IsU16 address × IsBit value
IsRes (write_single_register_res address value) = IsU16 address × IsU16 value
IsRes (write_multiple_coils_res address quantity) = IsU16 address × IsU16 quantity
IsRes (write_multiple_registers_res address quantity) = IsU16 address × IsU16 quantity
IsRes (mask_write_register_res address and_mask or_mask) =
    IsU16 address × IsU16 and_mask × IsU16 or_mask
IsRes (read_fifo_queue_res values) = (length values ≤ 127) × All IsU16 values

-- What the receiver sees: the coils of a read come in whole bytes.
abbrev pub received : Res → Res
received (read_coils_res values) = read_coils_res (padded values)
received (read_discrete_inputs_res values) = read_discrete_inputs_res (padded values)
received r = r

-- The bytes of a response
abbrev pub res_image : Res → List ℕ
res_image (error_res fc error) = bit_or (fc_value fc) 0x80 ∷ error_value error ∷ []
res_image (read_coils_res values) =
    let count = coil_count (length values) in 1 ∷ count ∷ coil_bytes values count 0
res_image (read_discrete_inputs_res values) =
    let count = coil_count (length values) in 2 ∷ count ∷ coil_bytes values count 0
res_image (read_holding_registers_res values) = 3 ∷ (length values * 2) ∷ register_bytes values
res_image (read_input_registers_res values) = 4 ∷ (length values * 2) ∷ register_bytes values
res_image (write_single_coil_res address value) =
    5 ∷ field address (field (if value == 0 then 0 else 0xFF00) [])
res_image (write_single_register_res address value) = 6 ∷ field address (field value [])
res_image (write_multiple_coils_res address quantity) = 15 ∷ field address (field quantity [])
res_image (write_multiple_registers_res address quantity) = 16 ∷ field address (field quantity [])
res_image (mask_write_register_res address and_mask or_mask) =
    22 ∷ field address (field and_mask (field or_mask []))
res_image (read_fifo_queue_res values) = 24 ∷ (length values * 2) ∷ register_bytes values

pub encode_res-image : (r : Res) → IsRes r → encode_res r ≡ ok (res_image r)
unfolding encode_res fc_value
encode_res-image (error_res fc error) h = refl
encode_res-image (read_coils_res vs) h = refl
encode_res-image (read_discrete_inputs_res vs) h = refl
encode_res-image (read_holding_registers_res vs) h = rw (response_register_bytes_lem vs h.1)
encode_res-image (read_input_registers_res vs) h = rw (response_register_bytes_lem vs h.1)
encode_res-image (write_single_coil_res a v) h =
    rw (pack_hh_lem a (if v == 0 then 0 else 0xFF00) h.0 (flag-IsU16 v))
encode_res-image (write_single_register_res a v) h = rw (pack_hh_lem a v h.0 h.1)
encode_res-image (write_multiple_coils_res a q) h = rw (pack_hh_lem a q h.0 h.1)
encode_res-image (write_multiple_registers_res a q) h = rw (pack_hh_lem a q h.0 h.1)
encode_res-image (mask_write_register_res a m o) h = rw (pack_hhh_lem a m o h.0 h.1 h.2)
encode_res-image (read_fifo_queue_res vs) h = rw (response_register_bytes_lem vs h.1)

error_code-IsByte : (fc : FunctionCode) → bit_or (fc_value fc) 0x80 < 256
unfolding fc_value
error_code-IsByte read_coils = omega arith
error_code-IsByte _ = omega arith

error_value-IsByte : (e : Error) → error_value e < 256
unfolding error_value
error_value-IsByte invalid_function_code = omega arith
error_value-IsByte _ = omega arith

coils-IsByte :
    (vs : List ℕ)
    → length vs ≤ 2040
    → let count = coil_count (length vs) in All IsByte (count ∷ coil_bytes vs count 0)
coils-IsByte vs h =
    (omega (arith, coil_count-le (length vs) h), coil_bytes-IsByte vs (coil_count (length vs)) 0)

registers-IsByte :
    (vs : List ℕ)
    → length vs ≤ 127
    → All IsU16 vs
    → All IsByte ((length vs * 2) ∷ register_bytes vs)
registers-IsByte vs h k = (omega arith, register_bytes-IsByte vs k)

pub res_image-IsByte : (r : Res) → IsRes r → All IsByte (res_image r)
res_image-IsByte (error_res fc error) h = (error_code-IsByte fc, (error_value-IsByte error, tt))
res_image-IsByte (read_coils_res vs) h = (omega arith, coils-IsByte vs h.0)
res_image-IsByte (read_discrete_inputs_res vs) h = (omega arith, coils-IsByte vs h.0)
res_image-IsByte (read_holding_registers_res vs) h = (omega arith, registers-IsByte vs h.0 h.1)
res_image-IsByte (read_input_registers_res vs) h = (omega arith, registers-IsByte vs h.0 h.1)
res_image-IsByte (write_single_coil_res a v) h =
    (omega arith, fields-IsByte a (if v == 0 then 0 else 0xFF00) [] h.0 (flag-IsU16 v) tt)
res_image-IsByte (write_single_register_res a v) h = (omega arith, fields-IsByte a v [] h.0 h.1 tt)
res_image-IsByte (write_multiple_coils_res a q) h = (omega arith, fields-IsByte a q [] h.0 h.1 tt)
res_image-IsByte (write_multiple_registers_res a q) h =
    (omega arith, fields-IsByte a q [] h.0 h.1 tt)
res_image-IsByte (mask_write_register_res a m o) h =
    (omega arith, fields-IsByte a m (field o []) h.0 h.1 (omega (arith, h.2)))
res_image-IsByte (read_fifo_queue_res vs) h = (omega arith, registers-IsByte vs h.0 h.1)

-- The data bytes behind their count
count-slice :
    (b n : ℕ) (xs ys : List ℕ)
    → n ≡ length xs
    → (slice 1 (n + 1) (b ∷ (xs ++ ys)) ≡ xs) × (drop (n + 1) (b ∷ (xs ++ ys)) ≡ ys)
count-slice b n xs ys h =
    let k : n + 1 ≡ suc n = omega arith in rw k (take-append n xs ys h, drop-append n xs ys h)

decode_coils_lem :
    (vs rest : List ℕ)
    → All IsBit vs
    → let count = coil_count (length vs) in
      decode_coils (count ∷ (coil_bytes vs count 0 ++ rest)) ≡ ok (padded vs, rest)
unfolding decode_coils
decode_coils_lem vs rest h =
    let count = coil_count (length vs) in
    let (s, d) =
      count-slice count count (coil_bytes vs count 0) rest (sym (length-coil_bytes vs count 0)) in
    rw (s, d, response_coils-coil_bytes vs h)

decode_registers_lem :
    (vs rest : List ℕ)
    → decode_registers ((length vs * 2) ∷ (register_bytes vs ++ rest)) ≡ ok (vs, rest)
unfolding decode_registers
decode_registers_lem vs rest =
    let (s, d) =
      count-slice (length vs * 2) (length vs * 2) (register_bytes vs) rest
        (sym (length-register_bytes vs)) in
    let even : length vs * 2 % 2 ≡ 0 = omega arith in
    let half : length vs * 2 / 2 ≡ length vs = omega arith in
    rw (even, s, d, half, registers-register_bytes vs)

error-function_code :
    (fc : FunctionCode)
    → (to_function_code (bit_and (bit_or (fc_value fc) 0x80) 0x7F) ≡ ok fc)
      × (bit_and (bit_or (fc_value fc) 0x80) 0x80 ≡ 0x80)
unfolding fc_value to_function_code
error-function_code read_coils = (refl, refl)
error-function_code read_discrete_inputs = (refl, refl)
error-function_code _ = (refl, refl)

to_error-value : (e : Error) → to_error (error_value e) ≡ ok e
unfolding to_error error_value
to_error-value invalid_function_code = refl
to_error-value _ = refl

error_case :
    (fc : FunctionCode) (error : Error) (rest : List ℕ)
    → decode_res (bit_or (fc_value fc) 0x80 ∷ error_value error ∷ rest)
      ≡ ok (error_res fc error, rest)
unfolding decode_res
error_case fc error rest =
    rw ((error-function_code fc).0, (error-function_code fc).1, to_error-value error)

pub decode_res-image :
    (r : Res) (rest : List ℕ) → IsRes r → decode_res (res_image r ++ rest) ≡ ok (received r, rest)
unfolding decode_res decode_res_fields to_function_code
decode_res-image (error_res fc error) rest h = error_case fc error rest
decode_res-image (read_coils_res vs) rest h = rw (decode_coils_lem vs rest h.1)
decode_res-image (read_discrete_inputs_res vs) rest h = rw (decode_coils_lem vs rest h.1)
decode_res-image (read_holding_registers_res vs) rest h = rw (decode_registers_lem vs rest)
decode_res-image (read_input_registers_res vs) rest h = rw (decode_registers_lem vs rest)
decode_res-image (write_single_coil_res a v) rest h =
    rw (field-join_zero a, field-join_zero (if v == 0 then 0 else 0xFF00))
      (ap (λ t. ok (write_single_coil_res a t, rest)) (flag-bit v h.1))
decode_res-image (write_single_register_res a v) rest h = rw (field-join_zero a, field-join_zero v)
decode_res-image (write_multiple_coils_res a q) rest h = rw (field-join_zero a, field-join_zero q)
decode_res-image (write_multiple_registers_res a q) rest h =
    rw (field-join_zero a, field-join_zero q)
decode_res-image (mask_write_register_res a m o) rest h =
    rw (field-join a, field-join m, field-join o)
decode_res-image (read_fifo_queue_res vs) rest h = rw (decode_registers_lem vs rest)

-- `decode_res` reads back each response that fits the protocol, with the coils of a read filled up
-- to whole bytes by zeros, and leaves what follows its bytes.
pub decode_res-encode_res :
    (r : Res) (rest : List ℕ)
    → IsRes r
    → (encode_res r >>= λ bs. decode_res (bs ++ rest)) ≡ ok (received r, rest)
decode_res-encode_res r rest h = rw (encode_res-image r h) (decode_res-image r rest h)
