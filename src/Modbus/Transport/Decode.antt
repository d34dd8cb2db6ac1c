-- ===== src/Modbus/Transport/Decode.antt =====
-- The decoding half of src_py/hat/drivers/modbus/transport/encoder.py.
use hat_drivers.Base.{ℕ, zero, suc, ◌+◌, ◌-◌, ◌*◌, ◌/◌, ◌%◌, bit_and, List, [], ◌∷◌}
use hat_drivers.Base.{Bool, not, ◌&&◌, ◌||◌, leb, ◌==◌, if◌then◌else◌, length, take, drop}
use hat_drivers.Base.{Result, ok, err, ◌>>=◌, ◌>>◌, guard, plain, value_error, index_error}
use hat_drivers.Base.Bytes.{at, slice, from_big, from_little, unpack_hh, unpack_hhb, unpack_hhh}
use hat_drivers.Base.Bytes.{unpack_hhhb}
use hat_drivers.Modbus.Common.{ModbusType, tcp, rtu, ascii, to_error}
use hat_drivers.Modbus.Transport.Values.{request_coils, response_coils, registers}
use hat_drivers.Modbus.Transport.Checksum.{calculate_crc, calculate_lrc}
use hat_drivers.Modbus.Transport.Common.{Direction, request, response, FunctionCode}
use hat_drivers.Modbus.Transport.Common.{to_function_code, Req, Res, Pdu, req_pdu, res_pdu, Adu}
use hat_drivers.Modbus.Transport.Common.{tcp_adu, rtu_adu, ascii_adu, read_coils}
use hat_drivers.Modbus.Transport.Common.{read_discrete_inputs, read_holding_registers}
use hat_drivers.Modbus.Transport.Common.{read_input_registers, write_single_coil}
use hat_drivers.Modbus.Transport.Common.{write_single_register, write_multiple_coils}
use hat_drivers.Modbus.Transport.Common.{write_multiple_register, mask_write_register}
use hat_drivers.Modbus.Transport.Common.{read_fifo_queue, read_coils_req, read_discrete_inputs_req}
use hat_drivers.Modbus.Transport.Common.{read_holding_registers_req, read_input_registers_req}
use hat_drivers.Modbus.Transport.Common.{write_single_coil_req, write_single_register_req}
use hat_drivers.Modbus.Transport.Common.{write_multiple_coils_req, write_multiple_registers_req}
use hat_drivers.Modbus.Transport.Common.{mask_write_register_req, read_fifo_queue_req, error_res}
use hat_drivers.Modbus.Transport.Common.{read_coils_res, read_discrete_inputs_res}
use hat_drivers.Modbus.Transport.Common.{read_holding_registers_res, read_input_registers_res}
use hat_drivers.Modbus.Transport.Common.{write_single_coil_res, write_single_register_res}
use hat_drivers.Modbus.Transport.Common.{write_multiple_coils_res, write_multiple_registers_res}
use hat_drivers.Modbus.Transport.Common.{mask_write_register_res, read_fifo_queue_res}

-- `if` on the truth of a number
abbrev pub nonzero : ℕ → Bool
nonzero n = not (n == 0)

-- The branches of `_decode_req`, one for each function code
unfoldable pub decode_req_fields : FunctionCode → List ℕ → Result (Req × List ℕ)
decode_req_fields read_coils rest = do
  (address, quantity) ← unpack_hh (take 4 rest)
  ok (read_coils_req address quantity, drop 4 rest)
decode_req_fields read_discrete_inputs rest = do
  (address, quantity) ← unpack_hh (take 4 rest)
  ok (read_discrete_inputs_req address quantity, drop 4 rest)
decode_req_fields read_holding_registers rest = do
  (address, quantity) ← unpack_hh (take 4 rest)
  ok (read_holding_registers_req address quantity, drop 4 rest)
decode_req_fields read_input_registers rest = do
  (address, quantity) ← unpack_hh (take 4 rest)
  ok (read_input_registers_req address quantity, drop 4 rest)
decode_req_fields write_single_coil rest = do
  (address, value) ← unpack_hh (take 4 rest)
  ok (write_single_coil_req address (if nonzero value then 1 else 0), drop 4 rest)
decode_req_fields write_single_register rest = do
  (address, value) ← unpack_hh (take 4 rest)
  ok (write_single_register_req address value, drop 4 rest)
decode_req_fields write_multiple_coils rest = do
  (address, quantity, byte_count) ← unpack_hhb (take 5 rest)
  values ← request_coils (slice 5 (byte_count + 5) rest) quantity 0
  ok (write_multiple_coils_req address values, drop (byte_count + 5) rest)
decode_req_fields write_multiple_register rest = do
  (address, quantity, byte_count) ← unpack_hhb (take 5 rest)
  let values = registers (slice 5 (byte_count + 5) rest) quantity 0
  ok (write_multiple_registers_req address values, drop (byte_count + 5) rest)
decode_req_fields mask_write_register rest = do
  (address, and_mask, or_mask) ← unpack_hhh (take 6 rest)
  ok (mask_write_register_req address and_mask or_mask, drop 6 rest)
decode_req_fields read_fifo_queue rest =
    ok (read_fifo_queue_req (from_big 0 (take 2 rest)), drop 2 rest)

unfoldable pub decode_req : List ℕ → Result (Req × List ℕ)
decode_req bs = do code ← at bs 0; fc ← to_function_code code; decode_req_fields fc (drop 1 bs)

-- The values of a read of registers: a byte count, which is even, and the registers
unfoldable pub decode_registers : List ℕ → Result (List ℕ × List ℕ)
decode_registers rest = do
  byte_count ← at rest 0
  guard (byte_count % 2 == 0) plain
  ok (registers (slice 1 (byte_count + 1) rest) (byte_count / 2) 0, drop (byte_count + 1) rest)

-- The values of a read of coils
unfoldable pub decode_coils : List ℕ → Result (List ℕ × List ℕ)
decode_coils rest = do
  byte_count ← at rest 0
  ok (response_coils (slice 1 (byte_count + 1) rest), drop (byte_count + 1) rest)

-- The branches of `_decode_res` behind the error flag
unfoldable pub decode_res_fields : FunctionCode → List ℕ → Result (Res × List ℕ)
decode_res_fields read_coils rest = do
  (values, rest') ← decode_coils rest
  ok (read_coils_res values, rest')
decode_res_fields read_discrete_inputs rest = do
  (values, rest') ← decode_coils rest
  ok (read_discrete_inputs_res values, rest')
decode_res_fields read_holding_registers rest = do
  (values, rest') ← decode_registers rest
  ok (read_holding_registers_res values, rest')
decode_res_fields read_input_registers rest = do
  (values, rest') ← decode_registers rest
  ok (read_input_registers_res values, rest')
decode_res_fields write_single_coil rest =
    let address = from_big 0 (take 2 rest) in
    let value = from_big 0 (take 2 (drop 2 rest)) in
    ok (write_single_coil_res address (if nonzero value then 1 else 0), drop 2 (drop 2 rest))
decode_res_fields write_single_register rest =
    let address = from_big 0 (take 2 rest) in
    let value = from_big 0 (take 2 (drop 2 rest)) in
    ok (write_single_register_res address value, drop 2 (drop 2 rest))
decode_res_fields write_multiple_coils rest =
    let address = from_big 0 (take 2 rest) in
    let quantity = from_big 0 (take 2 (drop 2 rest)) in
    ok (write_multiple_coils_res address quantity, drop 2 (drop 2 rest))
decode_res_fields write_multiple_register rest =
    let address = from_big 0 (take 2 rest) in
    let quantity = from_big 0 (take 2 (drop 2 rest)) in
    ok (write_multiple_registers_res address quantity, drop 2 (drop 2 rest))
decode_res_fields mask_write_register rest = do
  (address, and_mask, or_mask) ← unpack_hhh (take 6 rest)
  ok (mask_write_register_res address and_mask or_mask, drop 6 rest)
decode_res_fields read_fifo_queue rest = do
  (values, rest') ← decode_registers rest
  ok (read_fifo_queue_res values, rest')

unfoldable pub decode_res : List ℕ → Result (Res × List ℕ)
decode_res bs = do
  code ← at bs 0
  fc ← to_function_code (bit_and code 0x7F)
  let rest = drop 1 bs
  if nonzero (bit_and code 0x80)
      then (do e ← at rest 0; error ← to_error e; ok (error_res fc error, drop 1 rest))
      else decode_res_fields fc rest

unfoldable pub decode_pdu : Direction → List ℕ → Result (Pdu × List ℕ)
decode_pdu request bs = do (r, rest) ← decode_req bs; ok (req_pdu r, rest)
decode_pdu response bs = do (r, rest) ← decode_res bs; ok (res_pdu r, rest)

-- `rest[:length-1], rest[length-1:]`; at length 0 the cut is before the last byte.
unfoldable pub cut_pdu : ℕ → List ℕ → List ℕ × List ℕ
cut_pdu zero rest = (take (length rest - 1) rest, drop (length rest - 1) rest)
cut_pdu (suc n) rest = (take n rest, drop n rest)

unfoldable pub decode_tcp_adu : Direction → List ℕ → Result (Adu × List ℕ)
decode_tcp_adu direction bs = do
  (transaction_id, identifier, size, device_id) ← unpack_hhhb (take 7 bs)
  guard (identifier == 0) plain
  let (pdu_bytes, rest) = cut_pdu size (drop 7 bs)
  (pdu, _) ← decode_pdu direction pdu_bytes
  ok (tcp_adu transaction_id device_id pdu, rest)

unfoldable pub decode_rtu_adu : Direction → List ℕ → Result (Adu × List ℕ)
decode_rtu_adu direction bs = do
  device_id ← at bs 0
  (pdu, rest) ← decode_pdu direction (drop 1 bs)
  let crc = from_little (take 2 rest)
  let rest' = drop 2 rest
  guard (crc == calculate_crc (take (length bs - length rest' - 2) bs)) plain
  ok (rtu_adu device_id pdu, rest')

-- `while True: i, rest = rest[0], rest[1:]; if i == ord(':'): break`
unfoldable pub skip_to_colon : List ℕ → Result (List ℕ)
skip_to_colon [] = err index_error
skip_to_colon (i ∷ rest) = if i == b':' then ok rest else skip_to_colon rest

-- The value of a hexadecimal digit
unfoldable pub digit_value : ℕ → Result ℕ
digit_value c =
    if leb b'0' c && leb c b'9'
    then ok (c - b'0')
    else if leb b'A' c && leb c b'F'
    then ok (c - b'7')
    else if leb b'a' c && leb c b'f'
    then ok (c - b'W')
    else err value_error

-- Python's white space in ASCII
unfoldable pub is_space : ℕ → Bool
is_space c = (leb 9 c && leb c 13) || c == b' '

-- `int(str(i, 'ascii'), 16)` on two bytes, and `append` to a `bytearray`, which refuses what is
-- negative. White space at either end and a sign are accepted by `int`.
unfoldable pub parse_hex : ℕ → ℕ → Result ℕ
unfolding digit_value is_space
parse_hex x y =
    if is_space x || x == b'+'
    then digit_value y
    else if x == b'-'
    then (do d ← digit_value y; guard (d == 0) value_error; ok 0)
    else if is_space y
    then digit_value x
    else do high ← digit_value x; low ← digit_value y; ok (high * 16 + low)

-- `while True: i, rest = rest[:2], rest[2:]; if i == b'\r\n': break; adu_bytes.append(int(…))`.
-- One byte or none is left over only if the text has no end; then `int` of `''` is refused.
unfoldable pub parse_text : List ℕ → Result (List ℕ × List ℕ)
parse_text [] = err value_error
parse_text (x ∷ []) = err value_error
parse_text (x ∷ y ∷ rest) =
    let more = parse_text rest in
    if x == 13 && y == 10
    then ok ([], rest)
    else do byte ← parse_hex x y; (bytes, rest') ← more; ok (byte ∷ bytes, rest')

unfoldable pub decode_ascii_adu : Direction → List ℕ → Result (Adu × List ℕ)
decode_ascii_adu direction bs = do
  text ← skip_to_colon bs
  (adu_bytes, rest) ← parse_text text
  device_id ← at adu_bytes 0
  (pdu, _) ← decode_pdu direction (drop 1 adu_bytes)
  let last = length adu_bytes - 1
  lrc ← at adu_bytes last
  guard (lrc == calculate_lrc (take last adu_bytes)) plain
  ok (ascii_adu device_id pdu, rest)

unfoldable pub decode_adu : ModbusType → Direction → List ℕ → Result (Adu × List ℕ)
decode_adu tcp direction bs = decode_tcp_adu direction bs
decode_adu rtu direction bs = decode_rtu_adu direction bs
decode_adu ascii direction bs = decode_ascii_adu direction bs
