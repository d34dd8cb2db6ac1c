-- ===== src/Modbus/Transport/Common.antt =====
-- src_py/hat/drivers/modbus/transport/common.py: protocol and application data units.
use hat_drivers.Base.{ℕ, List, Result, ok, err, value_error, ◌==◌, if◌then◌else◌}
use hat_drivers.Modbus.Common.{Error}

pub data Direction : Type 0 where
  request response : Direction

pub data FunctionCode : Type 0 where
  read_coils read_discrete_inputs read_holding_registers read_input_registers : FunctionCode
  write_single_coil write_single_register write_multiple_coils : FunctionCode
  write_multiple_register mask_write_register read_fifo_queue : FunctionCode

pub FunctionCode-discrete : Discrete FunctionCode
FunctionCode-discrete = hlevel

unfoldable pub fc_value : FunctionCode → ℕ
fc_value read_coils = 1
fc_value read_discrete_inputs = 2
fc_value read_holding_registers = 3
fc_value read_input_registers = 4
fc_value write_single_coil = 5
fc_value write_single_register = 6
fc_value write_multiple_coils = 15
fc_value write_multiple_register = 16
fc_value mask_write_register = 22
fc_value read_fifo_queue = 24

-- `common.FunctionCode(value)`
unfoldable pub to_function_code : ℕ → Result FunctionCode
to_function_code v =
    if v == 1
    then ok read_coils
    else if v == 2
    then ok read_discrete_inputs
    else if v == 3
    then ok read_holding_registers
    else if v == 4
    then ok read_input_registers
    else if v == 5
    then ok write_single_coil
    else if v == 6
    then ok write_single_register
    else if v == 15
    then ok write_multiple_coils
    else if v == 16
    then ok write_multiple_register
    else if v == 22
    then ok mask_write_register
    else if v == 24
    then ok read_fifo_queue
    else err value_error

-- `common.Request`: a constructor for each named tuple
pub data Req : Type 0 where
  read_coils_req : (address quantity : ℕ) → Req
  read_discrete_inputs_req : (address quantity : ℕ) → Req
  read_holding_registers_req : (address quantity : ℕ) → Req
  read_input_registers_req : (address quantity : ℕ) → Req
  write_single_coil_req : (address value : ℕ) → Req
  write_single_register_req : (address value : ℕ) → Req
  write_multiple_coils_req : (address : ℕ) (values : List ℕ) → Req
  write_multiple_registers_req : (address : ℕ) (values : List ℕ) → Req
  mask_write_register_req : (address and_mask or_mask : ℕ) → Req
  read_fifo_queue_req : (address : ℕ) → Req

-- `common.Response`
pub data Res : Type 0 where
  error_res : (fc : FunctionCode) (error : Error) → Res
  read_coils_res : (values : List ℕ) → Res
  read_discrete_inputs_res : (values : List ℕ) → Res
  read_holding_registers_res : (values : List ℕ) → Res
  read_input_registers_res : (values : List ℕ) → Res
  write_single_coil_res : (address value : ℕ) → Res
  write_single_register_res : (address value : ℕ) → Res
  write_multiple_coils_res : (address quantity : ℕ) → Res
  write_multiple_registers_res : (address quantity : ℕ) → Res
  mask_write_register_res : (address and_mask or_mask : ℕ) → Res
  read_fifo_queue_res : (values : List ℕ) → Res

pub data Pdu : Type 0 where
  req_pdu : Req → Pdu
  res_pdu : Res → Pdu

pub data Adu : Type 0 where
  tcp_adu : (transaction_id device_id : ℕ) (pdu : Pdu) → Adu
  rtu_adu : (device_id : ℕ) (pdu : Pdu) → Adu
  ascii_adu : (device_id : ℕ) (pdu : Pdu) → Adu

unfoldable pub req_function_code : Req → FunctionCode
req_function_code (read_coils_req _ _) = read_coils
req_function_code (read_discrete_inputs_req _ _) = read_discrete_inputs
req_function_code (read_holding_registers_req _ _) = read_holding_registers
req_function_code (read_input_registers_req _ _) = read_input_registers
req_function_code (write_single_coil_req _ _) = write_single_coil
req_function_code (write_single_register_req _ _) = write_single_register
req_function_code (write_multiple_coils_req _ _) = write_multiple_coils
req_function_code (write_multiple_registers_req _ _) = write_multiple_register
req_function_code (mask_write_register_req _ _ _) = mask_write_register
req_function_code (read_fifo_queue_req _) = read_fifo_queue

unfoldable pub res_function_code : Res → FunctionCode
res_function_code (error_res fc _) = fc
res_function_code (read_coils_res _) = read_coils
res_function_code (read_discrete_inputs_res _) = read_discrete_inputs
res_function_code (read_holding_registers_res _) = read_holding_registers
res_function_code (read_input_registers_res _) = read_input_registers
res_function_code (write_single_coil_res _ _) = write_single_coil
res_function_code (write_single_register_res _ _) = write_single_register
res_function_code (write_multiple_coils_res _ _) = write_multiple_coils
res_function_code (write_multiple_registers_res _ _) = write_multiple_register
res_function_code (mask_write_register_res _ _ _) = mask_write_register
res_function_code (read_fifo_queue_res _) = read_fifo_queue

unfoldable pub get_pdu_function_code : Pdu → FunctionCode
unfolding req_function_code res_function_code
get_pdu_function_code (req_pdu r) = req_function_code r
get_pdu_function_code (res_pdu r) = res_function_code r
