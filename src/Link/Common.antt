-- ===== src/Link/Common.antt =====
-- src_py/hat/drivers/iec60870/link/common.py: frames of the link layer.
use hat_drivers.Base.{ℕ, List, Bool, Option, Result, ok, err, value_error, ◌==◌, if◌then◌else◌}

pub data AddressSize : Type 0 where
  size_zero size_one size_two : AddressSize

unfoldable pub size_value : AddressSize → ℕ
size_value size_zero = 0
size_value size_one = 1
size_value size_two = 2

pub data Direction : Type 0 where
  b_to_a a_to_b : Direction

unfoldable pub direction_value : Direction → ℕ
direction_value b_to_a = 0
direction_value a_to_b = 1

unfoldable pub to_direction : ℕ → Result Direction
to_direction v = if v == 0 then ok b_to_a else if v == 1 then ok a_to_b else err value_error

pub data ReqFunction : Type 0 where
  reset_link reset_process test data_req data_no_res req_access_demand req_status : ReqFunction
  req_data_1 req_data_2 : ReqFunction

unfoldable pub req_value : ReqFunction → ℕ
req_value reset_link = 0
req_value reset_process = 1
req_value test = 2
req_value data_req = 3
req_value data_no_res = 4
req_value req_access_demand = 8
req_value req_status = 9
req_value req_data_1 = 10
req_value req_data_2 = 11

-- `common.ReqFunction(value)`, which raises `ValueError` on any other value
unfoldable pub to_req_function : ℕ → Result ReqFunction
to_req_function v =
    if v == 0
    then ok reset_link
    else if v == 1
    then ok reset_process
    else if v == 2
    then ok test
    else if v == 3
    then ok data_req
    else if v == 4
    then ok data_no_res
    else if v == 8
    then ok req_access_demand
    else if v == 9
    then ok req_status
    else if v == 10
    then ok req_data_1
    else if v == 11
    then ok req_data_2
    else err value_error

pub data ResFunction : Type 0 where
  ack nack res_data res_nack res_status not_functioning not_implemented : ResFunction

unfoldable pub res_value : ResFunction → ℕ
res_value ack = 0
res_value nack = 1
res_value res_data = 8
res_value res_nack = 9
res_value res_status = 11
res_value not_functioning = 14
res_value not_implemented = 15

unfoldable pub to_res_function : ℕ → Result ResFunction
to_res_function v =
    if v == 0
    then ok ack
    else if v == 1
    then ok nack
    else if v == 8
    then ok res_data
    else if v == 9
    then ok res_nack
    else if v == 11
    then ok res_status
    else if v == 14
    then ok not_functioning
    else if v == 15
    then ok not_implemented
    else err value_error

-- `ReqFrame` has the frame count bit and whether it is valid, `ResFrame` the access demand and the data
-- flow control; then each has its function, its address and its data.
pub data Frame : Type 0 where
  short_frame : Frame
  req_frame :
      Option Direction
      → (frame_count_bit frame_count_valid : Bool) → ReqFunction
      → (address : ℕ) → List ℕ
      → Frame
  res_frame :
      Option Direction
      → (access_demand data_flow_control : Bool) → ResFunction
      → (address : ℕ) → List ℕ
      → Frame

unfoldable pub get_broadcast_address : AddressSize → Result ℕ
get_broadcast_address size_zero = err value_error
get_broadcast_address size_one = ok 0xFF
get_broadcast_address size_two = ok 0xFFFF
