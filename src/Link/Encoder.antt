-- ===== src/Link/Encoder.antt =====
-- src_py/hat/drivers/iec60870/link/encoder.py: the bytes of a frame. The two fields of the `Encoder` are
-- arguments.
pub mod Control
pub mod RoundTrip
use hat_drivers.Base.{
  ℕ, ◌+◌, ◌-◌, ◌/◌, ◌*◌, ◌%◌, List, [], ◌∷◌, ◌++◌, length, take, bit_and, bit_or,
}
use hat_drivers.Base.{Bool, true, false, not, ltb, ◌==◌, if◌then◌else◌, Option, none, some}
use hat_drivers.Base.{Result, ok, err, ◌>>=◌, ◌>>◌, guard, plain, index_error, attribute_error}
use hat_drivers.Base.Bytes.{at, slice, sum, to_bytes, int_to_little, from_little}
use hat_drivers.Link.Common.{AddressSize, size_zero, size_one, size_two, size_value, Direction}
use hat_drivers.Link.Common.{direction_value, to_direction, ReqFunction, req_value, to_req_function}
use hat_drivers.Link.Common.{ResFunction, res_value, to_res_function, Frame, short_frame, req_frame}
use hat_drivers.Link.Common.{res_frame}

-- The branch of a frame of variable length in `get_next_frame_size`
unfoldable pub variable_size : List ℕ → Result ℕ
variable_size bs = if ltb (length bs) 4 then ok 4 else do
  first ← at bs 1
  second ← at bs 2
  guard (first == second) plain
  start ← at bs 3
  guard (start == 0x68) plain
  ok (first + 6)

unfoldable pub get_next_frame_size : AddressSize → List ℕ → Result ℕ
unfolding variable_size size_value
get_next_frame_size size [] = ok 1
get_next_frame_size size (start ∷ rest) =
    if start == 0xE5
    then ok 1
    else if start == 0x10
    then ok (4 + size_value size)
    else if start == 0x68
    then variable_size (start ∷ rest)
    else err plain

-- `data[-k]`
unfoldable pub from_end : List ℕ → ℕ → Result ℕ
from_end bs k = if ltb (length bs) k then err index_error else at bs (length bs - k)

-- The frame between its start and its check sum
unfoldable pub cut_frame : AddressSize → List ℕ → Result (List ℕ)
unfolding size_value
cut_frame size bs = do
  start ← at bs 0
  if start == 0x10
      then ok (slice 1 (4 + size_value size) bs)
      else if start == 0x68
      then (do
        first ← at bs 1
        second ← at bs 2
        guard (first == second) plain
        repeated ← at bs 3
        guard (repeated == 0x68) plain
        ok (slice 4 (first + 6) bs))
      else err plain

unfoldable pub flag : ℕ → ℕ → Bool
flag x mask = not (bit_and x mask == 0)

unfoldable pub decode_direction : Bool → ℕ → Result (Option Direction)
unfolding to_direction
decode_direction direction_valid control_field =
    if direction_valid then (do d ← to_direction (control_field / 128); ok (some d)) else ok none

-- The frame of a control field
unfoldable pub decode_frame : Bool → ℕ → ℕ → List ℕ → Result Frame
unfolding decode_direction flag to_req_function to_res_function
decode_frame direction_valid control_field address payload = do
  direction ← decode_direction direction_valid control_field
  if flag control_field 0x40
      then (do
        function ← to_req_function (bit_and control_field 0x0F)
        ok (
            req_frame direction (flag control_field 0x20) (flag control_field 0x10) function address
              payload))
      else (do
        function ← to_res_function (bit_and control_field 0x0F)
        ok (
            res_frame direction (flag control_field 0x20) (flag control_field 0x10) function address
              payload))

unfoldable pub decode_address : AddressSize → List ℕ → ℕ
decode_address size_zero address_bytes = 0
decode_address size_one address_bytes = from_little address_bytes
decode_address size_two address_bytes = from_little address_bytes

unfoldable pub decode_body : AddressSize → Bool → List ℕ → Result Frame
unfolding from_end decode_address size_value
decode_body size direction_valid bs = do
  end ← from_end bs 1
  guard (end == 0x16) plain
  crc ← from_end bs 2
  guard (crc == sum (take (length bs - 2) bs) % 0x100) plain
  control_field ← at bs 0
  let address = decode_address size (slice 1 (1 + size_value size) bs)
  decode_frame direction_valid control_field address
      (slice (1 + size_value size) (length bs - 2) bs)

unfoldable pub decode : AddressSize → Bool → List ℕ → Result Frame
unfolding cut_frame
decode size direction_valid bs = do
  start ← at bs 0
  if start == 0xE5
      then ok short_frame
      else (do body ← cut_frame size bs; decode_body size direction_valid body)

-- `frame.direction.value << 7 if self._direction_valid else 0`
unfoldable pub direction_bit : Bool → Option Direction → Result ℕ
unfolding direction_value
direction_bit false direction = ok 0
direction_bit true none = err attribute_error
direction_bit true (some d) = ok (direction_value d * 128)

unfoldable pub flag_bit : Bool → ℕ → ℕ
flag_bit b bit = if b then bit else 0

unfoldable pub control_req : Bool → Option Direction → Bool → Bool → ReqFunction → Result ℕ
unfolding direction_bit flag_bit req_value
control_req direction_valid direction frame_count_bit frame_count_valid function = do
  d ← direction_bit direction_valid direction
  let control_field = bit_or d (req_value function)
  ok (
      bit_or (bit_or (bit_or control_field 0x40) (flag_bit frame_count_bit 0x20))
        (flag_bit frame_count_valid 0x10))

unfoldable pub control_res : Bool → Option Direction → Bool → Bool → ResFunction → Result ℕ
unfolding direction_bit flag_bit res_value
control_res direction_valid direction access_demand data_flow_control function = do
  d ← direction_bit direction_valid direction
  let control_field = bit_or d (res_value function)
  ok (bit_or (bit_or control_field (flag_bit access_demand 0x20)) (flag_bit data_flow_control 0x10))

unfoldable pub encode_address : AddressSize → ℕ → Result (List ℕ)
encode_address size_zero address = ok []
encode_address size_one address = int_to_little address 1
encode_address size_two address = int_to_little address 2

unfoldable pub header : List ℕ → ℕ → List ℕ
header [] n = 0x10 ∷ []
header (x ∷ xs) n = 0x68 ∷ n ∷ n ∷ 0x68 ∷ []

-- The bytes behind the control field
unfoldable pub assemble : AddressSize → ℕ → ℕ → List ℕ → Result (List ℕ)
unfolding encode_address header
assemble size control_field address payload = do
  address_bytes ← encode_address size address
  let items = control_field ∷ (address_bytes ++ payload)
  let crc = sum items % 0x100
  to_bytes (header payload (length items) ++ (items ++ (crc ∷ 0x16 ∷ [])))

unfoldable pub encode : AddressSize → Bool → Frame → Result (List ℕ)
unfolding control_req control_res assemble
encode size direction_valid short_frame = ok (0xE5 ∷ [])
encode size direction_valid (req_frame direction fcb fcv function address payload) = do
  control_field ← control_req direction_valid direction fcb fcv function
  assemble size control_field address payload
encode size direction_valid (res_frame direction demand flow function address payload) = do
  control_field ← control_res direction_valid direction demand flow function
  assemble size control_field address payload
