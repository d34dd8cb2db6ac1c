-- ===== src/Modbus/Transport/Pdus.antt =====
-- Protocol data units of either direction: their bytes, and what comes of them on the other side.
use hat_drivers.Base.{ℕ, ◌≤◌, ◌≡◌, arith}
use hat_drivers.Base.{List, [], ◌∷◌, ◌++◌, length}
use hat_drivers.Base.{All, ok}
use hat_drivers.Base.Bytes.{IsByte}
use hat_drivers.Base.Bytes.{to_bytes_lem}
use mathlib.Core.List.{append-nil}
use hat_drivers.Modbus.Transport.Common.{Direction, request, response, Req, Res, Pdu, req_pdu}
use hat_drivers.Modbus.Transport.Common.{res_pdu}
use hat_drivers.Modbus.Transport.Common.{read_coils_req, read_discrete_inputs_req}
use hat_drivers.Modbus.Transport.Common.{read_holding_registers_req, read_input_registers_req}
use hat_drivers.Modbus.Transport.Common.{write_single_coil_req, write_single_register_req}
use hat_drivers.Modbus.Transport.Common.{write_multiple_coils_req, write_multiple_registers_req}
use hat_drivers.Modbus.Transport.Common.{mask_write_register_req, read_fifo_queue_req, error_res}
use hat_drivers.Modbus.Transport.Common.{read_coils_res, read_discrete_inputs_res}
use hat_drivers.Modbus.Transport.Common.{read_holding_registers_res, read_input_registers_res}
use hat_drivers.Modbus.Transport.Common.{write_single_coil_res, write_single_register_res}
use hat_drivers.Modbus.Transport.Common.{write_multiple_coils_res, write_multiple_registers_res}
use hat_drivers.Modbus.Transport.Common.{mask_write_register_res, read_fifo_queue_res}
use hat_drivers.Modbus.Transport.Values.{coil_count}
use hat_drivers.Modbus.Transport.Requests.{coil_count-le}
use hat_drivers.Modbus.Transport.Encode.{encode_pdu, device_bytes}
use hat_drivers.Modbus.Transport.Decode.{decode_pdu}
use hat_drivers.Modbus.Transport.Requests.{IsReq, req_image, encode_req-image, req_image-IsByte}
use hat_drivers.Modbus.Transport.Requests.{decode_req-image}
use hat_drivers.Modbus.Transport.Responses.{IsRes, received, res_image, encode_res-image}
use hat_drivers.Modbus.Transport.Responses.{res_image-IsByte, decode_res-image}
use hat_drivers.Modbus.Transport.Values.Laws.{length-coil_bytes, length-register_bytes}

abbrev pub IsPdu : Pdu → Type 0
IsPdu (req_pdu r) = IsReq r
IsPdu (res_pdu r) = IsRes r

abbrev pub direction_of : Pdu → Direction
direction_of (req_pdu r) = request
direction_of (res_pdu r) = response

abbrev pub pdu_received : Pdu → Pdu
pdu_received (req_pdu r) = req_pdu r
pdu_received (res_pdu r) = res_pdu (received r)

abbrev pub pdu_image : Pdu → List ℕ
pdu_image (req_pdu r) = req_image r
pdu_image (res_pdu r) = res_image r

pub pdu_image-IsByte : (p : Pdu) → IsPdu p → All IsByte (pdu_image p)
pdu_image-IsByte (req_pdu r) h = req_image-IsByte r h
pdu_image-IsByte (res_pdu r) h = res_image-IsByte r h

pub encode_pdu-image : (p : Pdu) → IsPdu p → encode_pdu p ≡ ok (pdu_image p)
unfolding encode_pdu
encode_pdu-image (req_pdu r) h = encode_req-image r h
encode_pdu-image (res_pdu r) h = encode_res-image r h

pub decode_pdu-image :
    (p : Pdu) (rest : List ℕ)
    → IsPdu p
    → decode_pdu (direction_of p) (pdu_image p ++ rest) ≡ ok (pdu_received p, rest)
unfolding decode_pdu
decode_pdu-image (req_pdu r) rest h = rw (decode_req-image r rest h)
decode_pdu-image (res_pdu r) rest h = rw (decode_res-image r rest h)

pub decode_pdu-image_alone :
    (p : Pdu) → IsPdu p → decode_pdu (direction_of p) (pdu_image p) ≡ ok (pdu_received p, [])
decode_pdu-image_alone p h = rw append-nil at (decode_pdu-image p [] h)

-- The device and the unit of an RTU or ASCII frame
pub device_bytes-image :
    (d : ℕ) (p : Pdu) → IsByte d → IsPdu p → device_bytes d p ≡ ok (d ∷ pdu_image p)
unfolding device_bytes
device_bytes-image d p h k =
    ground (arith, encode_pdu-image p k, to_bytes_lem (pdu_image p) (pdu_image-IsByte p k))

req_image-length : (r : Req) → IsReq r → (2 ≤ length (req_image r)) × (length (req_image r) ≤ 261)
req_image-length (read_coils_req a q) h = omega arith
req_image-length (read_discrete_inputs_req a q) h = omega arith
req_image-length (read_holding_registers_req a q) h = omega arith
req_image-length (read_input_registers_req a q) h = omega arith
req_image-length (write_single_coil_req a v) h = omega arith
req_image-length (write_single_register_req a v) h = omega arith
req_image-length (write_multiple_coils_req a vs) h =
    omega
      (arith, h.1, length-coil_bytes vs (coil_count (length vs)) 0, coil_count-le (length vs) h.1)
req_image-length (write_multiple_registers_req a vs) h =
    omega (arith, h.1, length-register_bytes vs)
req_image-length (mask_write_register_req a m o) h = omega arith
req_image-length (read_fifo_queue_req a) h = omega arith

res_image-length : (r : Res) → IsRes r → (2 ≤ length (res_image r)) × (length (res_image r) ≤ 261)
res_image-length (error_res fc e) h = omega arith
res_image-length (read_coils_res vs) h =
    omega
      (arith, h.0, length-coil_bytes vs (coil_count (length vs)) 0, coil_count-le (length vs) h.0)
res_image-length (read_discrete_inputs_res vs) h =
    omega
      (arith, h.0, length-coil_bytes vs (coil_count (length vs)) 0, coil_count-le (length vs) h.0)
res_image-length (read_holding_registers_res vs) h = omega (arith, h.0, length-register_bytes vs)
res_image-length (read_input_registers_res vs) h = omega (arith, h.0, length-register_bytes vs)
res_image-length (write_single_coil_res a v) h = omega arith
res_image-length (write_single_register_res a v) h = omega arith
res_image-length (write_multiple_coils_res a q) h = omega arith
res_image-length (write_multiple_registers_res a q) h = omega arith
res_image-length (mask_write_register_res a m o) h = omega arith
res_image-length (read_fifo_queue_res vs) h = omega (arith, h.0, length-register_bytes vs)

pub pdu_image-length :
    (p : Pdu) → IsPdu p → (2 ≤ length (pdu_image p)) × (length (pdu_image p) ≤ 261)
pdu_image-length (req_pdu r) h = req_image-length r h
pdu_image-length (res_pdu r) h = res_image-length r h
