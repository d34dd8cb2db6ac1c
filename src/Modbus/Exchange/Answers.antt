-- ===== src/Modbus/Exchange/Answers.antt =====
-- Which requests and answers fit the protocol, and what becomes of them on the other side.
use hat_drivers.Base.{==-refl}
use hat_drivers.Base.{ℕ, ◌-◌, ◌*◌, ◌≤◌, ◌≡◌, refl, ap, arith, List, [], ◌∷◌, length}
use hat_drivers.Base.{ok, All, take, take-append, take_all, replicate}
use hat_drivers.Base.Bytes.{IsByte, IsU16}
use hat_drivers.Modbus.Common.{DataType, coil, discrete_input}
use hat_drivers.Modbus.Common.{holding_register, input_register, queue, Error}
use hat_drivers.Modbus.Common.{WriteMaskReq, Request, read_req, write_req, write_mask_req}
use hat_drivers.Modbus.Common.{Response, data_values, success, error}
use hat_drivers.Modbus.Transport.Common.{Req}
use hat_drivers.Modbus.Transport.Common.{req_function_code, res_function_code}
use hat_drivers.Modbus.Transport.Common.{mask_write_register_req}
use hat_drivers.Modbus.Transport.Values.{coil_count}
use hat_drivers.Modbus.Transport.Values.Laws.{IsBit, padded}
use hat_drivers.Modbus.Transport.Responses.{IsRes, received}
use hat_drivers.Modbus.Transport.Requests.{IsReq}
use hat_drivers.Modbus.Slave.{to_request, to_response, answer}
use hat_drivers.Modbus.Master.{coils_req, registers_req, read_pdu, request_pdu}
use hat_drivers.Modbus.Master.{check_single, check_multiple, mask_result}
use hat_drivers.Modbus.Master.{response_result}

abbrev pub device : Request → ℕ
device (read_req r) = r.device_id
device (write_req r) = r.device_id
device (write_mask_req r) = r.device_id

-- Coils and registers that can be written at once
abbrev pub IsWritten : DataType → List ℕ → Type 0
IsWritten coil values = (length values ≤ 2040) × All IsBit values
IsWritten holding_register values = (length values ≤ 127) × All IsU16 values
IsWritten discrete_input values = ⊥
IsWritten input_register values = ⊥
IsWritten queue values = ⊥

abbrev pub IsRequest : Request → Type 0
IsRequest (read_req r) = IsByte r.device_id × IsU16 r.start_address × IsU16 r.quantity
IsRequest (write_req r) =
    IsByte r.device_id × IsU16 r.start_address × IsWritten r.data_type r.values
IsRequest (write_mask_req r) =
    IsByte r.device_id × IsU16 r.address × IsU16 r.and_mask × IsU16 r.or_mask

-- Values of a read: as many as were asked for, except from a queue
abbrev pub IsRead : DataType → ℕ → List ℕ → Type 0
IsRead coil quantity values = (length values ≤ 2040) × All IsBit values × (length values ≡ quantity)
IsRead discrete_input quantity values =
    (length values ≤ 2040) × All IsBit values × (length values ≡ quantity)
IsRead holding_register quantity values =
    (length values ≤ 127) × All IsU16 values × (length values ≡ quantity)
IsRead input_register quantity values =
    (length values ≤ 127) × All IsU16 values × (length values ≡ quantity)
IsRead queue quantity values = (length values ≤ 127) × All IsU16 values

abbrev pub IsAnswer : Request → Response → Type 0
IsAnswer (read_req r) (data_values values) = IsRead r.data_type r.quantity values
IsAnswer (read_req r) success = ⊥
IsAnswer (read_req r) (error e) = Unit
IsAnswer (write_req r) (data_values values) = ⊥
IsAnswer (write_req r) success = Unit
IsAnswer (write_req r) (error e) = Unit
IsAnswer (write_mask_req r) (data_values values) = ⊥
IsAnswer (write_mask_req r) success = Unit
IsAnswer (write_mask_req r) (error e) = Unit

-- The quantity of a read from a queue is not sent.
abbrev pub seen_quantity : DataType → ℕ → ℕ
seen_quantity queue quantity = 0
seen_quantity _ quantity = quantity

-- The request that the slave's callback is given
abbrev pub seen : Request → Request
seen (read_req r) = read_req (record r { quantity = seen_quantity r.data_type r.quantity })
seen (write_req r) = write_req r
seen (write_mask_req r) = write_mask_req r

-- The data unit of a request, on both sides
pub record Sends (req : Request) (r : Req) : Type 0 where
  pub sent : request_pdu req ≡ ok r
  pub fits : IsReq r
  pub shown : to_request (device req) r ≡ seen req

-- What the master makes of the slave's answer
pub record Answers (req : Request) (r : Req) (res : Response) : Type 0 where
  pub fits : IsRes (answer r res)
  pub same : req_function_code r ≡ res_function_code (received (answer r res))
  pub result : response_result req (received (answer r res)) ≡ ok res

abbrev read_of : ℕ → DataType → ℕ → ℕ → Request
read_of d t a q =
    read_req (record { device_id = d; data_type = t; start_address = a; quantity = q })

abbrev write_of : ℕ → DataType → ℕ → List ℕ → Request
write_of d t a vs =
    write_req (record { device_id = d; data_type = t; start_address = a; values = vs })

read_Sends :
    (d : ℕ) (t : DataType) (a q : ℕ) → IsU16 a → IsU16 q → Sends (read_of d t a q) (read_pdu t a q)
unfolding request_pdu to_request
read_Sends d coil a q h k = record { sent = refl; fits = (h, k); shown = refl }
read_Sends d discrete_input a q h k = record { sent = refl; fits = (h, k); shown = refl }
read_Sends d holding_register a q h k = record { sent = refl; fits = (h, k); shown = refl }
read_Sends d input_register a q h k = record { sent = refl; fits = (h, k); shown = refl }
read_Sends d queue a q h k = record { sent = refl; fits = h; shown = refl }

-- The unit of a write; `write_pdu` refuses the other types.
abbrev pub written : DataType → ℕ → List ℕ → Req
written coil a vs = coils_req a vs
written _ a vs = registers_req a vs

write_Sends :
    (d : ℕ) (t : DataType) (a : ℕ) (vs : List ℕ)
    → IsU16 a
    → IsWritten t vs
    → Sends (write_of d t a vs) (written t a vs)
unfolding request_pdu to_request
write_Sends d coil a [] h k = record { sent = refl; fits = (h, k.0, k.1); shown = refl }
write_Sends d coil a (v ∷ []) h k = record { sent = refl; fits = (h, k.1.0); shown = refl }
write_Sends d coil a (v ∷ w ∷ vs) h k = record { sent = refl; fits = (h, k.0, k.1); shown = refl }
write_Sends d holding_register a [] h k = record { sent = refl; fits = (h, k.0, k.1); shown = refl }
write_Sends d holding_register a (v ∷ []) h k = record {
  sent = refl;
  fits = (h, k.1.0);
  shown = refl;
}
write_Sends d holding_register a (v ∷ w ∷ vs) h k = record {
  sent = refl;
  fits = (h, k.0, k.1);
  shown = refl;
}
write_Sends d discrete_input a vs h k = absurd k
write_Sends d input_register a vs h k = absurd k
write_Sends d queue a vs h k = absurd k

abbrev pub requested : Request → Req
requested (read_req r) = read_pdu r.data_type r.start_address r.quantity
requested (write_req r) = written r.data_type r.start_address r.values
requested (write_mask_req r) = mask_write_register_req r.address r.and_mask r.or_mask

-- The callback is shown the request that the master was given.
pub request_pdu_lem : (req : Request) → IsRequest req → Sends req (requested req)
unfolding request_pdu to_request
request_pdu_lem (read_req r) h =
    read_Sends r.device_id r.data_type r.start_address r.quantity h.1 h.2
request_pdu_lem (write_req r) h =
    write_Sends r.device_id r.data_type r.start_address r.values h.1 h.2
request_pdu_lem (write_mask_req r) h = record { sent = refl; fits = (h.1, h.2, h.3); shown = refl }

error_Answers : (req : Request) (r : Req) (e : Error) → Answers req r (error e)
unfolding answer response_result res_function_code
error_Answers req r e = record { fits = tt; same = refl; result = refl }

take-padded : (q : ℕ) (vs : List ℕ) → length vs ≡ q → take q (padded vs) ≡ vs
take-padded q vs h =
    take-append q vs (replicate (coil_count (length vs) * 8 - length vs) 0) (omega arith)

read_Answers :
    (d : ℕ) (t : DataType) (a q : ℕ) (vs : List ℕ)
    → IsRead t q vs
    → Answers (read_of d t a q) (read_pdu t a q) (data_values vs)
unfolding answer to_response read_pdu response_result res_function_code
read_Answers d coil a q vs h = record {
  fits = (h.0, h.1);
  same = refl;
  result = ap (λ t. ok (data_values t)) (take-padded q vs h.2);
}
read_Answers d discrete_input a q vs h = record {
  fits = (h.0, h.1);
  same = refl;
  result = ap (λ t. ok (data_values t)) (take-padded q vs h.2);
}
read_Answers d holding_register a q vs h = record {
  fits = (h.0, h.1);
  same = refl;
  result = ap (λ t. ok (data_values t)) (take_all q vs (omega (arith, h.2)));
}
read_Answers d input_register a q vs h = record {
  fits = (h.0, h.1);
  same = refl;
  result = ap (λ t. ok (data_values t)) (take_all q vs (omega (arith, h.2)));
}
read_Answers d queue a q vs h = record { fits = (h.0, h.1); same = refl; result = refl }

check_single_lem : (a v : ℕ) → check_single a (v ∷ []) a v ≡ ok success
unfolding check_single
check_single_lem a v = rw (==-refl a, ==-refl v)

check_multiple_lem : (a : ℕ) (vs : List ℕ) → check_multiple a vs a (length vs) ≡ ok success
unfolding check_multiple
check_multiple_lem a vs = rw (==-refl a, ==-refl (length vs))

write_Answers :
    (d : ℕ) (t : DataType) (a : ℕ) (vs : List ℕ)
    → IsU16 a
    → IsWritten t vs
    → Answers (write_of d t a vs) (written t a vs) success
unfolding answer to_response coils_req registers_req response_result res_function_code
write_Answers d coil a [] h k = record {
  fits = (h, omega arith);
  same = refl;
  result = check_multiple_lem a [];
}
write_Answers d coil a (v ∷ []) h k = record {
  fits = (h, k.1.0);
  same = refl;
  result = check_single_lem a v;
}
write_Answers d coil a (v ∷ w ∷ vs) h k = record {
  fits = (h, omega (arith, k.0));
  same = refl;
  result = check_multiple_lem a (v ∷ w ∷ vs);
}
write_Answers d holding_register a [] h k = record {
  fits = (h, omega arith);
  same = refl;
  result = check_multiple_lem a [];
}
write_Answers d holding_register a (v ∷ []) h k = record {
  fits = (h, k.1.0);
  same = refl;
  result = check_single_lem a v;
}
write_Answers d holding_register a (v ∷ w ∷ vs) h k = record {
  fits = (h, omega (arith, k.0));
  same = refl;
  result = check_multiple_lem a (v ∷ w ∷ vs);
}
write_Answers d discrete_input a vs h k = absurd k
write_Answers d input_register a vs h k = absurd k
write_Answers d queue a vs h k = absurd k

mask_Answers :
    (r : WriteMaskReq)
    → IsU16 r.address
    → IsU16 r.and_mask
    → IsU16 r.or_mask
    → Answers (write_mask_req r) (requested (write_mask_req r)) success
unfolding answer to_response response_result mask_result res_function_code
mask_Answers r h k l = record {
  fits = (h, k, l);
  same = refl;
  result = rw (==-refl r.address, ==-refl r.and_mask, ==-refl r.or_mask);
}

-- The master takes the answer for what the callback returned.
pub answer_lem :
    (req : Request) (res : Response)
    → IsRequest req
    → IsAnswer req res
    → Answers req (requested req) res
answer_lem req (error e) h k = error_Answers req (requested req) e
answer_lem (read_req r) (data_values vs) h k =
    read_Answers r.device_id r.data_type r.start_address r.quantity vs k
answer_lem (read_req r) success h k = absurd k
answer_lem (write_req r) (data_values vs) h k = absurd k
answer_lem (write_req r) success h k =
    write_Answers r.device_id r.data_type r.start_address r.values h.1 h.2
answer_lem (write_mask_req r) (data_values vs) h k = absurd k
answer_lem (write_mask_req r) success h k = mask_Answers r h.1 h.2 h.3

pub device-IsByte : (req : Request) → IsRequest req → IsByte (device req)
device-IsByte (read_req r) h = h.0
device-IsByte (write_req r) h = h.0
device-IsByte (write_mask_req r) h = h.0
