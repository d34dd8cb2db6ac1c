-- ===== src/Modbus/Examples.antt =====
-- Concrete requests, responses and frames.
use hat_drivers.Base.{ℕ, ◌+◌, ◌≡◌, ◌%◌, refl, arith, List, [], ◌∷◌, ◌++◌, All, Result, ok, ◌>>=◌}
use hat_drivers.Base.{Option, none, some}
use hat_drivers.Base.Bytes.{IsByte, IsU16, sum, from_little}
use hat_drivers.Modbus.Common.{tcp, rtu, ascii, coil, Request, read_req}
use hat_drivers.Modbus.Common.{Response, data_values}
use hat_drivers.Modbus.Transport.Common.{request, response, Req, write_multiple_registers_req, Res}
use hat_drivers.Modbus.Transport.Common.{read_coils_res, rtu_adu, ascii_adu, res_pdu, req_pdu}
use hat_drivers.Modbus.Transport.Checksum.{calculate_crc, calculate_lrc}
use hat_drivers.Modbus.Transport.Checksum.Division.{multiple, calculate_crc-division}
use hat_drivers.Base.{Bool, length, ◌*◌, ◌^◌, bit_xor}
use hat_drivers.Modbus.Transport.Checksum.{calculate_lrc-sum}
use hat_drivers.Modbus.Transport.Values.{coil_bytes, coil_count, request_coils, response_coils}
use hat_drivers.Modbus.Transport.Values.{registers}
use hat_drivers.Modbus.Transport.Values.Laws.{IsBit, request_coils-coil_bytes, padded}
use hat_drivers.Modbus.Transport.Values.Laws.{response_coils-coil_bytes, register_bytes}
use hat_drivers.Modbus.Transport.Values.Laws.{registers-register_bytes}
use hat_drivers.Modbus.Transport.Encode.{encode_req, encode_res, encode_adu}
use hat_drivers.Modbus.Transport.Decode.{decode_req, decode_res, decode_adu}
use hat_drivers.Modbus.Transport.Requests.{decode_req-encode_req}
use hat_drivers.Modbus.Transport.Responses.{received, decode_res-encode_res}
use hat_drivers.Modbus.Transport.Connection.{send, receive, decode_adu-encode_adu, receive-send}
use hat_drivers.Modbus.Exchange.{exchange, exchange-callback, exchange-silent}

abbrev coils : List ℕ
coils = 1 ∷ 0 ∷ 1 ∷ []

coils-IsBit : All IsBit coils
coils-IsBit = (omega arith, (omega arith, (omega arith, tt)))

request_coils-coil_bytes_example : request_coils (coil_bytes coils (coil_count 3) 0) 3 0 ≡ ok coils
request_coils-coil_bytes_example = request_coils-coil_bytes coils coils-IsBit

response_coils-coil_bytes_example :
    response_coils (coil_bytes coils (coil_count 3) 0) ≡ padded coils
response_coils-coil_bytes_example = response_coils-coil_bytes coils coils-IsBit

registers-register_bytes_example :
    registers (register_bytes (0x1234 ∷ 7 ∷ [])) 2 0 ≡ 0x1234 ∷ 7 ∷ []
registers-register_bytes_example = registers-register_bytes (0x1234 ∷ 7 ∷ [])

abbrev three_bytes : List ℕ
three_bytes = 1 ∷ 4 ∷ 255 ∷ []

calculate_crc-division_example :
    (quotient : List Bool) × (length quotient ≡ 8 * length three_bytes)
    × IsU16 (calculate_crc three_bytes)
    × (bit_xor (from_little three_bytes) 0xFFFF
        ≡ bit_xor (2 ^ (8 * length three_bytes) * calculate_crc three_bytes) (multiple quotient))
calculate_crc-division_example =
    calculate_crc-division three_bytes (omega arith, (omega arith, (omega arith, tt)))

calculate_lrc-sum_example :
    (IsByte (calculate_lrc (250 ∷ 9 ∷ [])))
    × ((sum (250 ∷ 9 ∷ []) + calculate_lrc (250 ∷ 9 ∷ [])) % 256 ≡ 0)
calculate_lrc-sum_example = calculate_lrc-sum (250 ∷ 9 ∷ [])

abbrev write_two : Req
write_two = write_multiple_registers_req 0x100 (0x1234 ∷ 7 ∷ [])

abbrev three_coils : Res
three_coils = read_coils_res coils

decode_req-encode_req_example :
    (encode_req write_two >>= λ bs. decode_req (bs ++ 9 ∷ [])) ≡ ok (write_two, 9 ∷ [])
decode_req-encode_req_example =
    decode_req-encode_req write_two (9 ∷ [])
      (omega arith, omega arith, (omega arith, (omega arith, tt)))

decode_res-encode_res_example :
    (encode_res three_coils >>= λ bs. decode_res (bs ++ 9 ∷ [])) ≡ ok (received three_coils, 9 ∷ [])
decode_res-encode_res_example =
    decode_res-encode_res three_coils (9 ∷ []) (omega arith, coils-IsBit)

decode_adu-encode_adu_example :
    (encode_adu (rtu_adu 3 (res_pdu three_coils)) >>= λ bs. decode_adu rtu response (bs ++ 9 ∷ []))
    ≡ ok (rtu_adu 3 (res_pdu (received three_coils)), 9 ∷ [])
decode_adu-encode_adu_example =
    decode_adu-encode_adu (rtu_adu 3 (res_pdu three_coils)) (9 ∷ [])
      (omega arith, (omega arith, coils-IsBit))

receive-send_example :
    (send (ascii_adu 3 (req_pdu write_two)) >>= λ bs. receive ascii request (bs ++ 9 ∷ []))
    ≡ ok (ascii_adu 3 (req_pdu write_two), 9 ∷ [])
receive-send_example =
    receive-send (ascii_adu 3 (req_pdu write_two)) (9 ∷ [])
      (omega arith, (omega arith, omega arith, (omega arith, (omega arith, tt))))

abbrev read_three : Request
read_three = read_req (record { device_id = 3; data_type = coil; start_address = 16; quantity = 3 })

abbrev answer_coils : Request → Result (Option Response)
answer_coils req = ok (some (data_values coils))

exchange-callback_example :
    exchange (some answer_coils) rtu 0 read_three (9 ∷ []) [] ≡ ok (some (data_values coils))
exchange-callback_example =
    exchange-callback answer_coils rtu 0 read_three (data_values coils) (9 ∷ []) []
      (omega arith, omega arith, omega arith) (omega arith, coils-IsBit, refl) refl

exchange-silent_example : exchange (some (λ req. ok none)) tcp 77 read_three [] [] ≡ ok none
exchange-silent_example =
    exchange-silent (some (λ req. ok none)) tcp 77 read_three [] []
      (omega arith, omega arith, omega arith) refl
