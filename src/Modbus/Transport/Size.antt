-- ===== src/Modbus/Transport/Size.antt =====
-- The size of the next frame, in src_py/hat/drivers/modbus/transport/encoder.py.
use hat_drivers.Base.{ℕ, ◌+◌, bit_and, List, [], ◌∷◌, ◌&&◌, ltb, ◌==◌, if◌then◌else◌}
use hat_drivers.Base.{length, Result, ok, ◌>>=◌}
use hat_drivers.Base.Bytes.{at, slice, from_big}
use hat_drivers.Modbus.Common.{ModbusType, tcp, rtu, ascii}
use hat_drivers.Modbus.Transport.Decode.{nonzero}
use hat_drivers.Modbus.Transport.Common.{Direction, request, response, FunctionCode}
use hat_drivers.Modbus.Transport.Common.{to_function_code}
use hat_drivers.Modbus.Transport.Common.{write_single_coil, write_single_register}
use hat_drivers.Modbus.Transport.Common.{write_multiple_coils, write_multiple_register}
use hat_drivers.Modbus.Transport.Common.{mask_write_register, read_fifo_queue}

unfoldable pub get_next_tcp_adu_size : List ℕ → Result ℕ
get_next_tcp_adu_size bs = if ltb (length bs) 6 then ok 6 else ok (from_big 0 (slice 4 6 bs) + 6)

-- The branches of `_get_next_req_size` behind the function code
unfoldable pub req_size : FunctionCode → List ℕ → ℕ → Result ℕ
req_size write_multiple_coils bs offset =
    if ltb (length bs) (offset + 6) then ok 6 else do n ← at bs (offset + 5); ok (n + 6)
req_size write_multiple_register bs offset =
    if ltb (length bs) (offset + 6) then ok 6 else do n ← at bs (offset + 5); ok (n + 6)
req_size mask_write_register bs offset = ok 7
req_size read_fifo_queue bs offset = ok 3
req_size _ bs offset = ok 5

unfoldable pub get_next_req_size : List ℕ → ℕ → Result ℕ
get_next_req_size bs offset =
    if ltb (length bs) (offset + 1)
    then ok 1
    else do code ← at bs offset; fc ← to_function_code code; req_size fc bs offset

-- The branches of `_get_next_res_size` behind the function code
unfoldable pub res_size : FunctionCode → List ℕ → ℕ → Result ℕ
res_size write_single_coil bs offset = ok 5
res_size write_single_register bs offset = ok 5
res_size write_multiple_coils bs offset = ok 5
res_size write_multiple_register bs offset = ok 5
res_size mask_write_register bs offset = ok 7
res_size _ bs offset =
    if ltb (length bs) (offset + 2) then ok 2 else do n ← at bs (offset + 1); ok (n + 2)

unfoldable pub get_next_res_size : List ℕ → ℕ → Result ℕ
get_next_res_size bs offset = if ltb (length bs) (offset + 1) then ok 1 else do
  code ← at bs offset
  if nonzero (bit_and code 0x80) then ok 2 else do fc ← to_function_code code; res_size fc bs offset

unfoldable pub get_next_pdu_size : Direction → List ℕ → ℕ → Result ℕ
get_next_pdu_size request bs offset = get_next_req_size bs offset
get_next_pdu_size response bs offset = get_next_res_size bs offset

unfoldable pub get_next_rtu_adu_size : Direction → List ℕ → Result ℕ
get_next_rtu_adu_size direction bs =
    if ltb (length bs) 1
    then ok 1
    else do pdu_size ← get_next_pdu_size direction bs 1; ok (pdu_size + 3)

-- `while size < len(data) and data[size:size+2] != b'\r\n': size += 2; return size + 2`, on the
-- bytes from `size` on
unfoldable pub end_of_text : ℕ → List ℕ → ℕ
end_of_text size [] = size + 2
end_of_text size (x ∷ []) = size + 2 + 2
end_of_text size (x ∷ y ∷ rest) =
    let more = end_of_text (size + 2) rest in if x == 13 && y == 10 then size + 2 else more

-- `while size < len(data) and data[size] != ord(':'): size += 1`, and what follows the colon
unfoldable pub start_of_text : ℕ → List ℕ → ℕ
start_of_text size [] = size + 1
start_of_text size (x ∷ rest) =
    let more = start_of_text (size + 1) rest in
    if x == b':' then end_of_text (size + 1) rest else more

unfoldable pub get_next_ascii_adu_size : List ℕ → Result ℕ
get_next_ascii_adu_size bs = ok (start_of_text 0 bs)

unfoldable pub get_next_adu_size : ModbusType → Direction → List ℕ → Result ℕ
get_next_adu_size tcp direction bs = get_next_tcp_adu_size bs
get_next_adu_size rtu direction bs = get_next_rtu_adu_size direction bs
get_next_adu_size ascii direction bs = get_next_ascii_adu_size bs
