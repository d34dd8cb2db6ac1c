-- ===== src/Modbus/Master.antt =====
-- src_py/hat/drivers/modbus/master.py: requests, the choice of the response, and what it means.
use hat_drivers.Base.{ℕ, zero, suc, ◌%◌, List, [], ◌∷◌, take, length, Result, ok, err, ◌>>=◌, ◌>>◌}
use hat_drivers.Base.{guard, plain, value_error, stuck, Bool, true, false, ◌&&◌, ◌==◌}
use hat_drivers.Base.Bytes.{at}
use mathlib.Core.Bool.{decide}
use hat_drivers.Modbus.Common.{ModbusType, tcp, rtu, ascii, DataType, coil, discrete_input}
use hat_drivers.Modbus.Common.{holding_register, input_register, queue}
use hat_drivers.Modbus.Common.{WriteMaskReq, Request, read_req, write_req, write_mask_req}
use hat_drivers.Modbus.Common.{Response, data_values, success, error}
use hat_drivers.Modbus.Transport.Common.{response, Req, Res, req_pdu}
use hat_drivers.Modbus.Transport.Common.{Adu, tcp_adu, rtu_adu, ascii_adu}
use hat_drivers.Modbus.Transport.Common.{get_pdu_function_code, FunctionCode-discrete}
use hat_drivers.Modbus.Transport.Common.{read_coils_req, read_discrete_inputs_req}
use hat_drivers.Modbus.Transport.Common.{read_holding_registers_req, read_input_registers_req}
use hat_drivers.Modbus.Transport.Common.{write_single_coil_req, write_single_register_req}
use hat_drivers.Modbus.Transport.Common.{write_multiple_coils_req, write_multiple_registers_req}
use hat_drivers.Modbus.Transport.Common.{mask_write_register_req, read_fifo_queue_req, error_res}
use hat_drivers.Modbus.Transport.Common.{read_coils_res, read_discrete_inputs_res}
use hat_drivers.Modbus.Transport.Common.{read_holding_registers_res, read_input_registers_res}
use hat_drivers.Modbus.Transport.Common.{write_single_coil_res, write_single_register_res}
use hat_drivers.Modbus.Transport.Common.{write_multiple_coils_res, write_multiple_registers_res}
use hat_drivers.Modbus.Transport.Common.{mask_write_register_res, read_fifo_queue_res}
use hat_drivers.Modbus.Transport.Connection.{receive}
use hat_drivers.Modbus.Slave.{adu_device, req_adu_pdu}

-- A write of one value has a function code of its own.
unfoldable pub coils_req : ℕ → List ℕ → Req
coils_req address (value ∷ []) = write_single_coil_req address value
coils_req address values = write_multiple_coils_req address values

unfoldable pub registers_req : ℕ → List ℕ → Req
registers_req address (value ∷ []) = write_single_register_req address value
registers_req address values = write_multiple_registers_req address values

unfoldable pub read_pdu : DataType → ℕ → ℕ → Req
read_pdu coil address quantity = read_coils_req address quantity
read_pdu discrete_input address quantity = read_discrete_inputs_req address quantity
read_pdu holding_register address quantity = read_holding_registers_req address quantity
read_pdu input_register address quantity = read_input_registers_req address quantity
read_pdu queue address quantity = read_fifo_queue_req address

unfoldable pub write_pdu : DataType → ℕ → List ℕ → Result Req
unfolding coils_req registers_req
write_pdu coil address values = ok (coils_req address values)
write_pdu holding_register address values = ok (registers_req address values)
write_pdu discrete_input address values = err value_error
write_pdu input_register address values = err value_error
write_pdu queue address values = err value_error

-- The first half of `Master.send`: the data unit of a request
unfoldable pub request_pdu : Request → Result Req
unfolding read_pdu write_pdu
request_pdu (read_req r) = ok (read_pdu r.data_type r.start_address r.quantity)
request_pdu (write_req r) = write_pdu r.data_type r.start_address r.values
request_pdu (write_mask_req r) = ok (mask_write_register_req r.address r.and_mask r.or_mask)

-- `_send`: the data unit that is queued; `transaction_id` is the next number of the master's counter.
unfoldable pub request_adu : ModbusType → ℕ → ℕ → Req → Adu
request_adu tcp transaction_id device_id r = tcp_adu transaction_id device_id (req_pdu r)
request_adu rtu transaction_id device_id r = rtu_adu device_id (req_pdu r)
request_adu ascii transaction_id device_id r = ascii_adu device_id (req_pdu r)

-- `_next_transaction_ids`, at a position of its counter
unfoldable pub next_transaction_id : ℕ → ℕ
next_transaction_id count = count % 0x10000

-- The second half of `Master.send`, for a response that is no error
unfoldable pub read_result : ℕ → Res → Result Response
read_result quantity (read_coils_res values) = ok (data_values (take quantity values))
read_result quantity (read_discrete_inputs_res values) = ok (data_values (take quantity values))
read_result quantity (read_holding_registers_res values) = ok (data_values (take quantity values))
read_result quantity (read_input_registers_res values) = ok (data_values (take quantity values))
read_result quantity (read_fifo_queue_res values) = ok (data_values values)
read_result quantity _ = err value_error

unfoldable pub check_single : ℕ → List ℕ → ℕ → ℕ → Result Response
check_single start_address values address value = do
  guard (address == start_address) plain
  first ← at values 0
  guard (value == first) plain
  ok success

unfoldable pub check_multiple : ℕ → List ℕ → ℕ → ℕ → Result Response
check_multiple start_address values address quantity = do
  guard (address == start_address) plain
  guard (quantity == length values) plain
  ok success

unfoldable pub write_result : ℕ → List ℕ → Res → Result Response
unfolding check_single check_multiple
write_result start_address values (write_single_coil_res address value) =
    check_single start_address values address value
write_result start_address values (write_single_register_res address value) =
    check_single start_address values address value
write_result start_address values (write_multiple_coils_res address quantity) =
    check_multiple start_address values address quantity
write_result start_address values (write_multiple_registers_res address quantity) =
    check_multiple start_address values address quantity
write_result start_address values _ = err value_error

unfoldable pub mask_result : WriteMaskReq → Res → Result Response
mask_result r (mask_write_register_res address and_mask or_mask) = do
  guard (address == r.address) plain
  guard (and_mask == r.and_mask) plain
  guard (or_mask == r.or_mask) plain
  ok success
mask_result r _ = err value_error

unfoldable pub data_result : Request → Res → Result Response
unfolding read_result write_result mask_result
data_result (read_req r) res = read_result r.quantity res
data_result (write_req r) res = write_result r.start_address r.values res
data_result (write_mask_req r) res = mask_result r res

unfoldable pub response_result : Request → Res → Result Response
unfolding data_result
response_result req (error_res fc e) = ok (error e)
response_result req res = data_result req res

abbrev same_transaction : Adu → Adu → Bool
same_transaction (tcp_adu t _ _) (tcp_adu u _ _) = t == u
same_transaction _ _ = true

-- The tests of `_receive`: transaction identifier, device and function code
unfoldable pub is_response : Adu → Adu → Bool
unfolding get_pdu_function_code
is_response req_adu res_adu =
    same_transaction req_adu res_adu
    && (adu_device res_adu == adu_device req_adu
        && decide (
            FunctionCode-discrete (get_pdu_function_code (req_adu_pdu req_adu))
              (get_pdu_function_code (req_adu_pdu res_adu))))

-- The loop of `_receive`, which discards what does not answer the request. `fuel` bounds its rounds.
unfoldable pub receive_response : ℕ → ModbusType → Adu → List ℕ → Result (Adu × List ℕ)
receive_response zero modbus_type req_adu stream = err stuck
receive_response (suc fuel) modbus_type req_adu stream = do
  (res_adu, rest) ← receive modbus_type response stream
  elim (is_response req_adu res_adu) [
    | true ↦ ok (res_adu, rest)
    | false ↦ receive_response fuel modbus_type req_adu rest
  ]
