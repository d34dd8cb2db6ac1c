-- ===== src/Modbus/Slave.antt =====
-- src_py/hat/drivers/modbus/slave.py: what a slave does with a received data unit.
use hat_drivers.Base.{ℕ, List, [], ◌∷◌, length, Result, ok, err, ◌>>=◌, Option, none, some}
use hat_drivers.Base.{type_error, attribute_error}
use hat_drivers.Modbus.Common.{ModbusType, tcp, rtu, ascii, coil, discrete_input}
use hat_drivers.Modbus.Common.{holding_register, input_register, queue}
use hat_drivers.Modbus.Common.{Request, read_req, write_req, write_mask_req}
use hat_drivers.Modbus.Common.{Response, data_values, success, error}
use hat_drivers.Modbus.Transport.Common.{Req, Res, Pdu, req_pdu}
use hat_drivers.Modbus.Transport.Common.{res_pdu, Adu, tcp_adu, rtu_adu, ascii_adu}
use hat_drivers.Modbus.Transport.Common.{req_function_code}
use hat_drivers.Modbus.Transport.Common.{read_coils_req, read_discrete_inputs_req}
use hat_drivers.Modbus.Transport.Common.{read_holding_registers_req, read_input_registers_req}
use hat_drivers.Modbus.Transport.Common.{write_single_coil_req, write_single_register_req}
use hat_drivers.Modbus.Transport.Common.{write_multiple_coils_req, write_multiple_registers_req}
use hat_drivers.Modbus.Transport.Common.{mask_write_register_req, read_fifo_queue_req, error_res}
use hat_drivers.Modbus.Transport.Common.{read_coils_res, read_discrete_inputs_res}
use hat_drivers.Modbus.Transport.Common.{read_holding_registers_res, read_input_registers_res}
use hat_drivers.Modbus.Transport.Common.{write_single_coil_res, write_single_register_res}
use hat_drivers.Modbus.Transport.Common.{write_multiple_coils_res, write_multiple_registers_res}
use hat_drivers.Modbus.Transport.Common.{mask_write_register_res, read_fifo_queue_res}
use hat_drivers.Modbus.Transport.Connection.{send}

-- The user's callback: it may raise, and it may return `None`. The slave may have none.
abbrev pub RequestCb : Type 0
RequestCb = Option (Request → Result (Option Response))

-- The request that the callback is given
unfoldable pub to_request : ℕ → Req → Request
to_request device_id (read_coils_req address quantity) = read_req (record {
  device_id = device_id;
  data_type = coil;
  start_address = address;
  quantity = quantity;
})
to_request device_id (read_discrete_inputs_req address quantity) = read_req (record {
  device_id = device_id;
  data_type = discrete_input;
  start_address = address;
  quantity = quantity;
})
to_request device_id (read_holding_registers_req address quantity) = read_req (record {
  device_id = device_id;
  data_type = holding_register;
  start_address = address;
  quantity = quantity;
})
to_request device_id (read_input_registers_req address quantity) = read_req (record {
  device_id = device_id;
  data_type = input_register;
  start_address = address;
  quantity = quantity;
})
to_request device_id (write_single_coil_req address value) = write_req (record {
  device_id = device_id;
  data_type = coil;
  start_address = address;
  values = value ∷ [];
})
to_request device_id (write_single_register_req address value) = write_req (record {
  device_id = device_id;
  data_type = holding_register;
  start_address = address;
  values = value ∷ [];
})
to_request device_id (write_multiple_coils_req address values) =
    write_req
      (record { device_id = device_id; data_type = coil; start_address = address; values = values })
to_request device_id (write_multiple_registers_req address values) = write_req (record {
  device_id = device_id;
  data_type = holding_register;
  start_address = address;
  values = values;
})
to_request device_id (mask_write_register_req address and_mask or_mask) =
    write_mask_req
      (record { device_id = device_id; address = address; and_mask = and_mask; or_mask = or_mask })
to_request device_id (read_fifo_queue_req address) =
    read_req
      (record { device_id = device_id; data_type = queue; start_address = address; quantity = 0 })

-- The values of a result that is no error; `Success()` is a named tuple with no fields, and so an
-- empty sequence.
unfoldable pub result_values : Response → List ℕ
result_values (data_values values) = values
result_values success = []
result_values (error e) = []

-- The response to a result that is no error
unfoldable pub to_response : Req → Response → Res
unfolding result_values
to_response (read_coils_req _ _) res = read_coils_res (result_values res)
to_response (read_discrete_inputs_req _ _) res = read_discrete_inputs_res (result_values res)
to_response (read_holding_registers_req _ _) res = read_holding_registers_res (result_values res)
to_response (read_input_registers_req _ _) res = read_input_registers_res (result_values res)
to_response (write_single_coil_req address value) res = write_single_coil_res address value
to_response (write_single_register_req address value) res = write_single_register_res address value
to_response (write_multiple_coils_req address values) res =
    write_multiple_coils_res address (length values)
to_response (write_multiple_registers_req address values) res =
    write_multiple_registers_res address (length values)
to_response (mask_write_register_req address and_mask or_mask) res =
    mask_write_register_res address and_mask or_mask
to_response (read_fifo_queue_req _) res = read_fifo_queue_res (result_values res)

-- `if isinstance(res, common.Error)`, else the response to the request
unfoldable pub answer : Req → Response → Res
unfolding req_function_code
answer r (error e) = error_res (req_function_code r) e
answer r (data_values values) = to_response r (data_values values)
answer r success = to_response r success

unfoldable pub process_request : RequestCb → ℕ → Pdu → Result (Option Res)
process_request none device_id pdu = ok none
process_request (some cb) device_id (res_pdu _) = err type_error
process_request (some cb) device_id (req_pdu r) = do
  res ← cb (to_request device_id r)
  elim res [ none ↦ ok none | some res' ↦ ok (some (answer r res')) ]

abbrev pub adu_device : Adu → ℕ
adu_device (tcp_adu _ device_id _) = device_id
adu_device (rtu_adu device_id _) = device_id
adu_device (ascii_adu device_id _) = device_id

abbrev pub req_adu_pdu : Adu → Pdu
req_adu_pdu (tcp_adu _ _ pdu) = pdu
req_adu_pdu (rtu_adu _ pdu) = pdu
req_adu_pdu (ascii_adu _ pdu) = pdu

-- The data unit that answers a request; only a TCP request has a transaction identifier.
unfoldable pub response_adu : ModbusType → Adu → Res → Result Adu
response_adu tcp (tcp_adu transaction_id device_id _) res =
    ok (tcp_adu transaction_id device_id (res_pdu res))
response_adu tcp (rtu_adu _ _) res = err attribute_error
response_adu tcp (ascii_adu _ _) res = err attribute_error
response_adu rtu adu res = ok (rtu_adu (adu_device adu) (res_pdu res))
response_adu ascii adu res = ok (ascii_adu (adu_device adu) (res_pdu res))

-- One round of `_receive_loop` behind the reception: the bytes that are sent, if there are any
unfoldable pub respond : RequestCb → ModbusType → Adu → Result (Option (List ℕ))
unfolding process_request response_adu
respond cb modbus_type req_adu = do
  res ← process_request cb (adu_device req_adu) (req_adu_pdu req_adu)
  elim res [
    | none ↦ ok none
    | some res' ↦ do
      res_adu ← response_adu modbus_type req_adu res'
      bs ← send res_adu
      ok (some bs)
  ]
