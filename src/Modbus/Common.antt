-- ===== src/Modbus/Common.antt =====
-- src_py/hat/drivers/modbus/common.py: requests and responses of the user's interface.
use hat_drivers.Base.{
  ℕ, List, bit_and, bit_or, bit_xor, Result, ok, err, value_error, ◌==◌, if◌then◌else◌,
}

pub data ModbusType : Type 0 where
  tcp rtu ascii : ModbusType

pub data DataType : Type 0 where
  coil discrete_input holding_register input_register queue : DataType

pub data Error : Type 0 where
  invalid_function_code invalid_data_address invalid_data_value function_error : Error
  gateway_path_unavailable gateway_target_device_failed_to_respond : Error

unfoldable pub error_value : Error → ℕ
error_value invalid_function_code = 0x01
error_value invalid_data_address = 0x02
error_value invalid_data_value = 0x03
error_value function_error = 0x04
error_value gateway_path_unavailable = 0x0a
error_value gateway_target_device_failed_to_respond = 0x0b

-- `common.Error(value)`
unfoldable pub to_error : ℕ → Result Error
to_error v =
    if v == 0x01
    then ok invalid_function_code
    else if v == 0x02
    then ok invalid_data_address
    else if v == 0x03
    then ok invalid_data_value
    else if v == 0x04
    then ok function_error
    else if v == 0x0a
    then ok gateway_path_unavailable
    else if v == 0x0b
    then ok gateway_target_device_failed_to_respond
    else err value_error

pub record ReadReq : Type 0 where
  pub device_id : ℕ
  pub data_type : DataType
  pub start_address : ℕ
  pub quantity : ℕ

pub record WriteReq : Type 0 where
  pub device_id : ℕ
  pub data_type : DataType
  pub start_address : ℕ
  pub values : List ℕ

pub record WriteMaskReq : Type 0 where
  pub device_id : ℕ
  pub address : ℕ
  pub and_mask : ℕ
  pub or_mask : ℕ

pub data Request : Type 0 where
  read_req : ReadReq → Request
  write_req : WriteReq → Request
  write_mask_req : WriteMaskReq → Request

-- `ReadRes`, `WriteRes` and `WriteMaskRes`: values of a read, success of a write, or an error
pub data Response : Type 0 where
  data_values : List ℕ → Response
  success : Response
  error : Error → Response

-- `(value & and_mask) | (or_mask & ~and_mask)`; on naturals `x & ~y` is `x ^ (x & y)`
unfoldable pub apply_mask : ℕ → ℕ → ℕ → ℕ
apply_mask value and_mask or_mask =
    bit_or (bit_and value and_mask) (bit_xor or_mask (bit_and or_mask and_mask))
