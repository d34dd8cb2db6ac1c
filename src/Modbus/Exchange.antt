-- ===== src/Modbus/Exchange.antt =====
-- A master and a slave together: the user of the master gets what the slave's callback returned.
pub mod Answers
use hat_drivers.Base.{==-refl}
use hat_drivers.Base.{ℕ, zero, suc, ◌+◌, ◌≡◌, refl, arith, List, ◌++◌}
use hat_drivers.Base.{
  Result, ok, err, ◌>>=◌, ◌>>◌, Option, none, some, value_error, Bool, true, false, ◌==◌,
}
use hat_drivers.Base.Bytes.{IsByte, IsU16}
use mathlib.Core.Bool.{decide, decide_iff}
use hat_drivers.Modbus.Common.{ModbusType, tcp, rtu, ascii}
use hat_drivers.Modbus.Common.{Request}
use hat_drivers.Modbus.Common.{Response, error}
use hat_drivers.Modbus.Transport.Common.{request, response, Req, Res, Pdu, req_pdu}
use hat_drivers.Modbus.Transport.Common.{res_pdu, Adu, tcp_adu, rtu_adu, ascii_adu}
use hat_drivers.Modbus.Transport.Common.{req_function_code, res_function_code}
use hat_drivers.Modbus.Transport.Common.{FunctionCode}
use hat_drivers.Modbus.Transport.Common.{FunctionCode-discrete}
use hat_drivers.Modbus.Transport.Connection.{send, receive, send-image, receive-image}
use hat_drivers.Modbus.Transport.Responses.{IsRes, received}
use hat_drivers.Modbus.Transport.Requests.{IsReq}
use hat_drivers.Modbus.Slave.{to_request, answer, process_request, response_adu, respond}
use hat_drivers.Modbus.Slave.{req_adu_pdu}
use hat_drivers.Modbus.Master.{
  next_transaction_id, request_pdu, request_adu, response_result, is_response, receive_response,
}
use Answers.{
  IsRequest, device, seen, IsAnswer, request_pdu_lem, answer_lem, requested, device-IsByte,
}

-- A request goes to the slave, and the slave's answer to the master; `count` is the position of the
-- master's counter, and `rest` and `rest'` are the bytes that follow on the two streams. `none`: the
-- slave does not answer.
unfoldable pub exchange :
    Option (Request → Result (Option Response))
    → ModbusType
    → ℕ
    → Request
    → List ℕ
    → List ℕ
    → Result (Option Response)
exchange cb modbus_type count req rest rest' = do
  r ← request_pdu req
  let adu = request_adu modbus_type (next_transaction_id count) (device req) r
  bs ← send adu
  (req_adu, _) ← receive modbus_type request (bs ++ rest)
  reply ← respond cb modbus_type req_adu
  elim reply [
    | none ↦ ok none
    | some bs' ↦ do
      (res_adu, _) ← receive_response 1 modbus_type adu (bs' ++ rest')
      elim (req_adu_pdu res_adu) [
        | req_pdu _ ↦ err value_error
        | res_pdu res ↦ do result ← response_result req res; ok (some result)
      ]
  ]

same_code : (a b : FunctionCode) → a ≡ b → decide (FunctionCode-discrete a b) ≡ true
same_code a b e = (decide_iff (FunctionCode-discrete a b)).1 e

-- The data unit of a response, as the slave sends it
abbrev reply_adu : ModbusType → ℕ → ℕ → Res → Adu
reply_adu tcp t d res = tcp_adu t d (res_pdu res)
reply_adu rtu t d res = rtu_adu d (res_pdu res)
reply_adu ascii t d res = ascii_adu d (res_pdu res)

-- The answer to a request passes the master's tests.
is_response_lem :
    (mt : ModbusType) (t d : ℕ) (r : Req) (res : Res)
    → req_function_code r ≡ res_function_code res
    → is_response (request_adu mt t d r) (reply_adu mt t d res) ≡ true
unfolding is_response request_adu
is_response_lem tcp t d r res e = rw (==-refl t, ==-refl d, same_code _ _ e)
is_response_lem rtu t d r res e = rw (==-refl d, same_code _ _ e)
is_response_lem ascii t d r res e = rw (==-refl d, same_code _ _ e)

-- A request on its way to the slave
record Reaches (mt : ModbusType) (t d : ℕ) (r : Req) (rest : List ℕ) : Type 0 where
  bytes : List ℕ
  sends : send (request_adu mt t d r) ≡ ok bytes
  comes : receive mt request (bytes ++ rest) ≡ ok (request_adu mt t d r, rest)

reaches :
    (mt : ModbusType) (t d : ℕ) (r : Req) (rest : List ℕ)
    → IsU16 t
    → IsByte d
    → IsReq r
    → Reaches mt t d r rest
unfolding request_adu
reaches tcp t d r rest ht hd hr = record {
  bytes = _;
  sends = send-image (tcp_adu t d (req_pdu r)) (ht, hd, hr);
  comes = receive-image (tcp_adu t d (req_pdu r)) rest (ht, hd, hr);
}
reaches rtu t d r rest ht hd hr = record {
  bytes = _;
  sends = send-image (rtu_adu d (req_pdu r)) (hd, hr);
  comes = receive-image (rtu_adu d (req_pdu r)) rest (hd, hr);
}
reaches ascii t d r rest ht hd hr = record {
  bytes = _;
  sends = send-image (ascii_adu d (req_pdu r)) (hd, hr);
  comes = receive-image (ascii_adu d (req_pdu r)) rest (hd, hr);
}

-- A response on its way to the master
record Returns (mt : ModbusType) (t d : ℕ) (res : Res) (rest : List ℕ) : Type 0 where
  bytes : List ℕ
  sends : send (reply_adu mt t d res) ≡ ok bytes
  comes : receive mt response (bytes ++ rest) ≡ ok (reply_adu mt t d (received res), rest)

returns :
    (mt : ModbusType) (t d : ℕ) (res : Res) (rest : List ℕ)
    → IsU16 t
    → IsByte d
    → IsRes res
    → Returns mt t d res rest
returns tcp t d res rest ht hd hr = record {
  bytes = _;
  sends = send-image (tcp_adu t d (res_pdu res)) (ht, hd, hr);
  comes = receive-image (tcp_adu t d (res_pdu res)) rest (ht, hd, hr);
}
returns rtu t d res rest ht hd hr = record {
  bytes = _;
  sends = send-image (rtu_adu d (res_pdu res)) (hd, hr);
  comes = receive-image (rtu_adu d (res_pdu res)) rest (hd, hr);
}
returns ascii t d res rest ht hd hr = record {
  bytes = _;
  sends = send-image (ascii_adu d (res_pdu res)) (hd, hr);
  comes = receive-image (ascii_adu d (res_pdu res)) rest (hd, hr);
}

-- One round of the slave
respond_lem :
    (cb : Request → Result (Option Response)) (mt : ModbusType) (t d : ℕ) (r : Req) (res : Response)
    (rest : List ℕ)
    → cb (to_request d r) ≡ ok (some res)
    → (h : Returns mt t d (answer r res) rest)
    → respond (some cb) mt (request_adu mt t d r) ≡ ok (some h.bytes)
unfolding respond process_request response_adu request_adu
respond_lem cb tcp t d r res rest e h = rw (e, h.sends)
respond_lem cb rtu t d r res rest e h = rw (e, h.sends)
respond_lem cb ascii t d r res rest e h = rw (e, h.sends)

-- The slave has no callback, or its callback returns `None`.
abbrev pub Declines : Option (Request → Result (Option Response)) → Request → Type 0
Declines none req = Unit
Declines (some cb) req = cb req ≡ ok none

respond_silent :
    (cb : Option (Request → Result (Option Response))) (mt : ModbusType) (t d : ℕ) (r : Req)
    → Declines cb (to_request d r)
    → respond cb mt (request_adu mt t d r) ≡ ok none
unfolding respond process_request request_adu
respond_silent none tcp t d r h = refl
respond_silent none rtu t d r h = refl
respond_silent none ascii t d r h = refl
respond_silent (some cb) tcp t d r h = rw h
respond_silent (some cb) rtu t d r h = rw h
respond_silent (some cb) ascii t d r h = rw h

elim_true :
    {b : Bool} {A : Type 0} {x : A} (y : A) → b ≡ true → (elim b [ true ↦ x | false ↦ y ]) ≡ x
elim_true y e = rw e

-- The round of the master that takes the answer
receive_response_lem :
    (mt : ModbusType) (t d : ℕ) (r : Req) (res : Res) (rest : List ℕ)
    → req_function_code r ≡ res_function_code (received res)
    → (h : Returns mt t d res rest)
    → receive_response 1 mt (request_adu mt t d r) (h.bytes ++ rest)
      ≡ ok (reply_adu mt t d (received res), rest)
unfolding receive_response
receive_response_lem mt t d r res rest e h =
    rw (h.comes) (elim_true _ (is_response_lem mt t d r (received res) e))

reply_pdu :
    (mt : ModbusType) (t d : ℕ) (res : Res) → req_adu_pdu (reply_adu mt t d res) ≡ res_pdu res
reply_pdu tcp t d res = refl
reply_pdu rtu t d res = refl
reply_pdu ascii t d res = refl

shown_result :
    (req : Request) {pdu : Pdu} {res : Res} {result : Response}
    → pdu ≡ res_pdu res
    → response_result req res ≡ ok result
    → (elim pdu [
      | req_pdu _ ↦ err value_error
      | res_pdu res' ↦ do result ← response_result req res'; ok (some result)
    ])
      ≡ ok (some result)
shown_result req e h = rw (e, h)

next_transaction_id-IsU16 : (count : ℕ) → IsU16 (next_transaction_id count)
unfolding next_transaction_id
next_transaction_id-IsU16 count = omega arith

-- The user of the master gets the response that the slave's callback returns for the request,
-- in each of the three framings, whatever bytes follow on the two streams, if the request and the
-- response fit the protocol. (The callback sees a quantity of 0 for a read from a queue.)
pub exchange-callback :
    (cb : Request → Result (Option Response)) (mt : ModbusType) (count : ℕ) (req : Request)
    (res : Response) (rest rest' : List ℕ)
    → IsRequest req
    → IsAnswer req res
    → cb (seen req) ≡ ok (some res)
    → exchange (some cb) mt count req rest rest' ≡ ok (some res)
unfolding exchange
exchange-callback cb mt count req res rest rest' hr ha e =
    let d = device req in
    let t = next_transaction_id count in
    let ht = next_transaction_id-IsU16 count in
    let r = requested req in
    let s = request_pdu_lem req hr in
    let a = answer_lem req res hr ha in
    let there = reaches mt t d r rest ht (device-IsByte req hr) s.fits in
    let back = returns mt t d (answer r res) rest' ht (device-IsByte req hr) a.fits in
    rw
      (
        s.sent,
        there.sends,
        there.comes,
        respond_lem cb mt t d r res rest' (rw (s.shown) e) back,
        receive_response_lem mt t d r (answer r res) rest' a.same back,
      )
      (shown_result req (reply_pdu mt t d (received (answer r res))) a.result)

-- A slave without a callback, and a callback that returns `None`, leave a request that fits the protocol
-- unanswered, in each of the three framings.
pub exchange-silent :
    (cb : Option (Request → Result (Option Response))) (mt : ModbusType) (count : ℕ) (req : Request)
    (rest rest' : List ℕ)
    → IsRequest req
    → Declines cb (seen req)
    → exchange cb mt count req rest rest' ≡ ok none
unfolding exchange
exchange-silent cb mt count req rest rest' hr h =
    let d = device req in
    let t = next_transaction_id count in
    let ht = next_transaction_id-IsU16 count in
    let r = requested req in
    let s = request_pdu_lem req hr in
    let there = reaches mt t d r rest ht (device-IsByte req hr) s.fits in
    rw (s.sent, there.sends, there.comes, respond_silent cb mt t d r (rw (s.shown) h))
