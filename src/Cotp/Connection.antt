-- ===== src/Cotp/Connection.antt =====
-- src_py/hat/drivers/cotp/connection.py: the send loop, the receive loop, and the start of a connection.
pub mod Delivery
pub mod Small
pub mod Handshake
use hat_drivers.Base.{
  ℕ, zero, suc, ◌-◌, List, [], ◌∷◌, ◌++◌, length, take, drop, Bool, true, false, not, ltb, ◌==◌,
  ◌||◌,
}
use hat_drivers.Base.{
  if◌then◌else◌, Option, none, some, Result, ok, err, ◌>>=◌, ◌>>◌, guard, plain, stuck,
}
use hat_drivers.Cotp.Tpkt
use hat_drivers.Cotp.Encoder.{
  Parameters, Tpdu, dt_tpdu, cr_tpdu, cc_tpdu, dr_tpdu, er_tpdu, encode, decode,
}

unfoldable pub is_empty : List ℕ → Bool
is_empty [] = true
is_empty (b ∷ bs) = false

-- Where `data[:max_size]` and `data[max_size:]` meet; `max_size` is negative for a size below 3.
unfoldable pub unit_size : ℕ → List ℕ → ℕ
unit_size max_tpdu bs = if ltb max_tpdu 3 then length bs - (3 - max_tpdu) else max_tpdu - 3

-- `while data` in `_send_loop`: the bytes on the stream
unfoldable pub send_data : ℕ → ℕ → List ℕ → Result (List ℕ)
unfolding is_empty unit_size
send_data max_tpdu fuel [] = ok []
send_data max_tpdu zero (b ∷ bs) = err stuck
send_data max_tpdu (suc fuel) (b ∷ bs) = do
  let max_size = unit_size max_tpdu (b ∷ bs)
  let rest = drop max_size (b ∷ bs)
  tpdu_bytes ← encode (dt_tpdu (is_empty rest) (take max_size (b ∷ bs)))
  packet ← Tpkt.send tpdu_bytes
  more ← send_data max_tpdu fuel rest
  ok (packet ++ more)

-- `_receive_loop` up to the data that it hands on, behind the data in its queue; `none` where it ends
unfoldable pub receive_data : ℕ → List ℕ → List ℕ → Result (Option (List ℕ) × List ℕ)
receive_data zero queue stream = err stuck
receive_data (suc fuel) queue stream = do
  (tpdu_bytes, stream') ← Tpkt.read_packet stream
  tpdu ← decode tpdu_bytes
  elim tpdu [
    | dt_tpdu eot payload ↦ elim eot [
      | true ↦ ok (some (queue ++ payload), stream')
      | false ↦ receive_data fuel (queue ++ payload) stream'
    ]
    | cr_tpdu src cls parameters ↦ receive_data fuel queue stream'
    | cc_tpdu dst src cls parameters ↦ receive_data fuel queue stream'
    | dr_tpdu dst src reason ↦ ok (none, stream')
    | er_tpdu dst cause ↦ ok (none, stream')
  ]

-- `if not (a is not None and b is not None and a != b)`
unfoldable pub agree : Option ℕ → Option ℕ → Bool
agree (some a) (some b) = a == b
agree _ _ = true

unfoldable pub truthy : Option ℕ → Bool
truthy none = false
truthy (some n) = not (n == 0)

unfoldable pub calculate_max_tpdu : Parameters → Parameters → Option ℕ
unfolding truthy
calculate_max_tpdu p q =
    if truthy p.max_tpdu || truthy q.max_tpdu
    then if truthy q.max_tpdu then q.max_tpdu else p.max_tpdu
    else some 128

unfoldable pub calculate_cc_max_tpdu : Parameters → Option ℕ
unfolding truthy
calculate_cc_max_tpdu p =
    if truthy p.max_tpdu
    then p.max_tpdu
    else if truthy p.pref_max_tpdu
    then p.pref_max_tpdu
    else some 128

unfoldable pub or_else : Option ℕ → Option ℕ → Option ℕ
or_else none o = o
or_else (some n) o = some n

-- What a connection is made with: the size, and its own and the other side's selector
pub record Opened : Type 0 where
  pub max_tpdu : Option ℕ
  pub local_tsel : Option ℕ
  pub remote_tsel : Option ℕ

abbrev pub request_parameters : Option ℕ → Option ℕ → Parameters
request_parameters local_tsel remote_tsel = record {
  calling_tsel = local_tsel;
  called_tsel = remote_tsel;
  max_tpdu = some 2048;
  pref_max_tpdu = none;
}

-- `connect` up to the wait for the response
unfoldable pub connect_request : ℕ → Option ℕ → Option ℕ → Result (List ℕ)
connect_request src local_tsel remote_tsel =
    encode (cr_tpdu src 0 (request_parameters local_tsel remote_tsel))

-- `_validate_connect_response`, and the rest of `connect`
unfoldable pub connected : ℕ → Parameters → Tpdu → Result Opened
unfolding agree calculate_max_tpdu or_else
connected src p (cc_tpdu dst src' cls q) = do
  guard (agree p.calling_tsel q.calling_tsel) plain
  guard (agree p.called_tsel q.called_tsel) plain
  guard (dst == src) plain
  guard (cls == 0) plain
  ok (record {
    max_tpdu = calculate_max_tpdu p q;
    local_tsel = or_else p.calling_tsel q.calling_tsel;
    remote_tsel = or_else p.called_tsel q.called_tsel;
  })
connected src p _ = err plain

unfoldable pub accept_response : ℕ → Option ℕ → Option ℕ → List ℕ → Result Opened
unfolding connected
accept_response src local_tsel remote_tsel tpdu_bytes = do
  tpdu ← decode tpdu_bytes
  connected src (request_parameters local_tsel remote_tsel) tpdu

-- `_validate_connect_request`, and the rest of `Server._on_connection`: the response, and the connection
unfoldable pub accept_request : ℕ → Tpdu → Result (List ℕ × Opened)
unfolding calculate_cc_max_tpdu calculate_max_tpdu or_else
accept_request next_src (cr_tpdu src cls p) = do
  guard (cls == 0) plain
  let q : Parameters = record {
    calling_tsel = p.calling_tsel;
    called_tsel = p.called_tsel;
    max_tpdu = calculate_cc_max_tpdu p;
    pref_max_tpdu = none;
  }
  cc_tpdu_bytes ← encode (cc_tpdu src next_src 0 q)
  ok (
    cc_tpdu_bytes,
    record {
      max_tpdu = calculate_max_tpdu p q;
      local_tsel = or_else p.called_tsel q.called_tsel;
      remote_tsel = or_else p.calling_tsel q.calling_tsel;
    },
  )
accept_request next_src _ = err plain

unfoldable pub on_connection : ℕ → List ℕ → Result (List ℕ × Opened)
unfolding accept_request
on_connection next_src tpdu_bytes = do tpdu ← decode tpdu_bytes; accept_request next_src tpdu
