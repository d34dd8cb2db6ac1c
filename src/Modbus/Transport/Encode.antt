-- ===== src/Modbus/Transport/Encode.antt =====
-- The encoding half of src_py/hat/drivers/modbus/transport/encoder.py.
use hat_drivers.Base.{ℕ, ◌+◌, ◌*◌, ◌/◌, ◌%◌, bit_or, List, [], ◌∷◌, ◌++◌, length}
use hat_drivers.Base.{ltb, ◌==◌, if◌then◌else◌, Result, ok, ◌>>=◌, ◌>>◌, guard, value_error}
use hat_drivers.Base.Bytes.{to_bytes, int_to_little, pack_b, pack_h}
use hat_drivers.Modbus.Common.{error_value}
use hat_drivers.Modbus.Transport.Values.{coil_count, coil_bytes, request_register_bytes}
use hat_drivers.Modbus.Transport.Values.{response_register_bytes}
use hat_drivers.Modbus.Transport.Checksum.{calculate_crc, calculate_lrc}
use hat_drivers.Modbus.Transport.Common.{Req, Res, Pdu, req_pdu, res_pdu, Adu, tcp_adu, rtu_adu}
use hat_drivers.Modbus.Transport.Common.{ascii_adu, fc_value, read_coils, read_discrete_inputs}
use hat_drivers.Modbus.Transport.Common.{read_holding_registers, read_input_registers}
use hat_drivers.Modbus.Transport.Common.{write_single_coil, write_single_register}
use hat_drivers.Modbus.Transport.Common.{write_multiple_coils, write_multiple_register}
use hat_drivers.Modbus.Transport.Common.{mask_write_register, read_fifo_queue, read_coils_req}
use hat_drivers.Modbus.Transport.Common.{read_discrete_inputs_req, read_holding_registers_req}
use hat_drivers.Modbus.Transport.Common.{read_input_registers_req, write_single_coil_req}
use hat_drivers.Modbus.Transport.Common.{write_single_register_req, write_multiple_coils_req}
use hat_drivers.Modbus.Transport.Common.{write_multiple_registers_req, mask_write_register_req}
use hat_drivers.Modbus.Transport.Common.{read_fifo_queue_req, error_res, read_coils_res}
use hat_drivers.Modbus.Transport.Common.{read_discrete_inputs_res, read_holding_registers_res}
use hat_drivers.Modbus.Transport.Common.{read_input_registers_res, write_single_coil_res}
use hat_drivers.Modbus.Transport.Common.{write_single_register_res, write_multiple_coils_res}
use hat_drivers.Modbus.Transport.Common.{write_multiple_registers_res, mask_write_register_res}
use hat_drivers.Modbus.Transport.Common.{read_fifo_queue_res}

-- `struct.pack('>HH', …)`, `'>HHB'` and `'>HHH'`
unfoldable pub pack_hh : ℕ → ℕ → Result (List ℕ)
pack_hh a b = do x ← pack_h a; y ← pack_h b; ok (x ++ y)

unfoldable pub pack_hhb : ℕ → ℕ → ℕ → Result (List ℕ)
pack_hhb a b c = do x ← pack_h a; y ← pack_h b; z ← pack_b c; ok (x ++ (y ++ z))

unfoldable pub pack_hhh : ℕ → ℕ → ℕ → Result (List ℕ)
pack_hhh a b c = do x ← pack_h a; y ← pack_h b; z ← pack_h c; ok (x ++ (y ++ z))

unfoldable pub encode_req : Req → Result (List ℕ)
encode_req (read_coils_req address quantity) = do
  body ← pack_hh address quantity
  ok (fc_value read_coils ∷ body)
encode_req (read_discrete_inputs_req address quantity) = do
  body ← pack_hh address quantity
  ok (fc_value read_discrete_inputs ∷ body)
encode_req (read_holding_registers_req address quantity) = do
  body ← pack_hh address quantity
  ok (fc_value read_holding_registers ∷ body)
encode_req (read_input_registers_req address quantity) = do
  body ← pack_hh address quantity
  ok (fc_value read_input_registers ∷ body)
encode_req (write_single_coil_req address value) = do
  body ← pack_hh address (if value == 0 then 0 else 0xFF00)
  ok (fc_value write_single_coil ∷ body)
encode_req (write_single_register_req address value) = do
  body ← pack_hh address value
  ok (fc_value write_single_register ∷ body)
encode_req (write_multiple_coils_req address values) = do
  let quantity = length values
  let count = coil_count quantity
  body ← pack_hhb address quantity count
  ok (fc_value write_multiple_coils ∷ (body ++ coil_bytes values count 0))
encode_req (write_multiple_registers_req address values) = do
  let quantity = length values
  let count = 2 * quantity
  body ← pack_hhb address quantity count
  bytes ← request_register_bytes values count 0
  ok (fc_value write_multiple_register ∷ (body ++ bytes))
encode_req (mask_write_register_req address and_mask or_mask) = do
  body ← pack_hhh address and_mask or_mask
  ok (fc_value mask_write_register ∷ body)
encode_req (read_fifo_queue_req address) = do
  body ← pack_h address
  ok (fc_value read_fifo_queue ∷ body)

unfoldable pub encode_res : Res → Result (List ℕ)
encode_res (error_res fc error) = ok (bit_or (fc_value fc) 0x80 ∷ error_value error ∷ [])
encode_res (read_coils_res values) =
    let count = coil_count (length values) in
    ok (fc_value read_coils ∷ count ∷ coil_bytes values count 0)
encode_res (read_discrete_inputs_res values) =
    let count = coil_count (length values) in
    ok (fc_value read_discrete_inputs ∷ count ∷ coil_bytes values count 0)
encode_res (read_holding_registers_res values) =
    ok (fc_value read_holding_registers ∷ (length values * 2) ∷ response_register_bytes values)
encode_res (read_input_registers_res values) =
    ok (fc_value read_input_registers ∷ (length values * 2) ∷ response_register_bytes values)
encode_res (write_single_coil_res address value) = do
  body ← pack_hh address (if value == 0 then 0 else 0xFF00)
  ok (fc_value write_single_coil ∷ body)
encode_res (write_single_register_res address value) = do
  body ← pack_hh address value
  ok (fc_value write_single_register ∷ body)
encode_res (write_multiple_coils_res address quantity) = do
  body ← pack_hh address quantity
  ok (fc_value write_multiple_coils ∷ body)
encode_res (write_multiple_registers_res address quantity) = do
  body ← pack_hh address quantity
  ok (fc_value write_multiple_register ∷ body)
encode_res (mask_write_register_res address and_mask or_mask) = do
  body ← pack_hhh address and_mask or_mask
  ok (fc_value mask_write_register ∷ body)
encode_res (read_fifo_queue_res values) =
    ok (fc_value read_fifo_queue ∷ (length values * 2) ∷ response_register_bytes values)

-- The numbers that the generator yields; the caller collects them into bytes.
unfoldable pub encode_pdu : Pdu → Result (List ℕ)
encode_pdu (req_pdu r) = encode_req r
encode_pdu (res_pdu r) = encode_res r

unfoldable pub encode_tcp_adu : ℕ → ℕ → Pdu → Result (List ℕ)
encode_tcp_adu transaction_id device_id pdu = do
  items ← encode_pdu pdu
  pdu_bytes ← to_bytes items
  t ← pack_h transaction_id
  p ← pack_h 0
  l ← pack_h (length pdu_bytes + 1)
  d ← pack_b device_id
  ok (t ++ (p ++ (l ++ (d ++ pdu_bytes))))

-- `append` of the device and `extend` by the encoded data unit
unfoldable pub device_bytes : ℕ → Pdu → Result (List ℕ)
device_bytes device_id pdu = do
  guard (ltb device_id 256) value_error
  items ← encode_pdu pdu
  pdu_bytes ← to_bytes items
  ok (device_id ∷ pdu_bytes)

unfoldable pub encode_rtu_adu : ℕ → Pdu → Result (List ℕ)
encode_rtu_adu device_id pdu = do
  adu_bytes ← device_bytes device_id pdu
  crc_bytes ← int_to_little (calculate_crc adu_bytes) 2
  ok (adu_bytes ++ crc_bytes)

-- The digits of `f'{i:02X}'` for a byte `i`
unfoldable pub hex_digit : ℕ → ℕ
hex_digit d = if ltb d 10 then b'0' + d else b'7' + d

unfoldable pub hex_text : List ℕ → List ℕ
unfolding hex_digit
hex_text [] = []
hex_text (i ∷ bytes) = hex_digit (i / 16) ∷ hex_digit (i % 16) ∷ hex_text bytes

unfoldable pub encode_ascii_adu : ℕ → Pdu → Result (List ℕ)
encode_ascii_adu device_id pdu = do
  msg_bytes ← device_bytes device_id pdu
  ok (b':' ∷ (hex_text (msg_bytes ++ (calculate_lrc msg_bytes ∷ [])) ++ (13 ∷ 10 ∷ [])))

unfoldable pub encode_adu : Adu → Result (List ℕ)
encode_adu (tcp_adu transaction_id device_id pdu) = encode_tcp_adu transaction_id device_id pdu
encode_adu (rtu_adu device_id pdu) = encode_rtu_adu device_id pdu
encode_adu (ascii_adu device_id pdu) = encode_ascii_adu device_id pdu
