-- ===== src/Apci/Connection.antt =====
-- src_py/hat/drivers/iec60870/apci/connection.py: the state of a connection and what it does with the
-- APDUs it receives and the data it sends. Each handler is one step: `write` on a TCP connection returns
-- at once while its output buffer takes data. An exception closes the connection, and then its state
-- matters no more. Timers are flags: whether they run.
pub mod Window
pub mod Invariant
pub mod Steps
pub mod Sending
pub mod Delivery
use hat_drivers.Base.{ℕ, zero, suc, ◌+◌, ◌-◌, ◌%◌, List, [], ◌∷◌, ◌++◌, length}
use hat_drivers.Base.{Bool, true, false, not, ltb, leb, ◌==◌, if◌then◌else◌}
use hat_drivers.Base.{Result, ok, err, ◌>>=◌, ◌>>◌, guard, plain}
use hat_drivers.Apci.Encoder.{Apdu, apdui, apdus, apduu, ApduFunction, testfr_con, testfr_act}
use hat_drivers.Apci.Encoder.{stopdt_con, stopdt_act, startdt_con, startdt_act}
use hat_drivers.Apci.Transport.{write}

-- `waiting` are the keys of `_waiting_ack_handles`, `supervisory` says whether there is a
-- `_supervisory_handle`, and `tested` is the `_test_event`.
pub record Connection : Type 0 where
  pub always_enabled : Bool
  pub is_enabled : Bool
  pub send_window_size : ℕ
  pub receive_window_size : ℕ
  pub ssn : ℕ
  pub rsn : ℕ
  pub ack : ℕ
  pub w : ℕ
  pub supervisory : Bool
  pub tested : Bool
  pub waiting : List ℕ

-- What a step does outside the connection's state: an APDU and its bytes go to the transport, data to
-- the receive queue, and a change to the callbacks.
pub data Output : Type 0 where
  written : Apdu → List ℕ → Output
  delivered : List ℕ → Output
  notified : Bool → Output

unfoldable pub new : Bool → ℕ → ℕ → Connection
new always_enabled send_window_size receive_window_size = record {
  always_enabled = always_enabled;
  is_enabled = always_enabled;
  send_window_size = send_window_size;
  receive_window_size = receive_window_size;
  ssn = 0;
  rsn = 0;
  ack = 0;
  w = 0;
  supervisory = false;
  tested = false;
  waiting = [];
}

unfoldable pub transmit : Apdu → Result Output
transmit apdu = do bs ← write apdu; ok (written apdu bs)

-- `n` numbers from `first` on, and `range(first, last)`
unfoldable pub numbers : ℕ → ℕ → List ℕ
numbers first zero = []
numbers first (suc n) = first ∷ numbers (first + 1) n

unfoldable pub range : ℕ → ℕ → List ℕ
unfolding numbers
range first last = numbers first (last - first)

unfoldable pub contains : List ℕ → ℕ → Bool
contains [] ssn = false
contains (x ∷ xs) ssn = let more = contains xs ssn in if x == ssn then true else more

unfoldable pub remove : List ℕ → ℕ → List ℕ
remove [] ssn = []
remove (x ∷ xs) ssn = let more = remove xs ssn in if x == ssn then xs else x ∷ more

-- The loop of `_set_ack`: each number that is acknowledged has been waiting.
unfoldable pub pop_handles : List ℕ → List ℕ → Result (List ℕ)
pop_handles [] waiting = ok waiting
pop_handles (ssn ∷ ssns) waiting =
    let rest = pop_handles ssns (remove waiting ssn) in
    if contains waiting ssn then rest else err plain

unfoldable pub acknowledged : ℕ → ℕ → List ℕ
unfolding range
acknowledged last ack = if leb last ack then range last ack else range last 0x8000 ++ range 0 ack

unfoldable pub set_ack : Connection → ℕ → Result Connection
unfolding acknowledged pop_handles
set_ack s ack = do
  waiting ← pop_handles (acknowledged s.ack ack) s.waiting
  ok (record s { ack = ack; waiting = waiting })

unfoldable pub start_supervisory_timeout : Connection → Connection
start_supervisory_timeout s = record s { supervisory = true }

unfoldable pub stop_supervisory_timeout : Connection → Connection
stop_supervisory_timeout s = record s { supervisory = false }

unfoldable pub write_apdus : Connection → Result (Connection × List Output)
unfolding transmit stop_supervisory_timeout
write_apdus s = do
  out ← transmit (apdus s.rsn)
  ok (stop_supervisory_timeout (record s { w = 0 }), out ∷ [])

-- `if apdu.data: await self._receive_queue.put(apdu.data)`
unfoldable pub deliver : List ℕ → List Output
deliver [] = []
deliver (x ∷ xs) = delivered (x ∷ xs) ∷ []

-- The end of `_process_apdui`: a full receive window is acknowledged.
unfoldable pub count_received : Connection → Result (Connection × List Output)
unfolding write_apdus
count_received s =
    let s' = record s { w = s.w + 1 } in
    if leb s'.receive_window_size s'.w then write_apdus s' else ok (s', [])

unfoldable pub process_apdui : Connection → ℕ → ℕ → List ℕ → Result (Connection × List Output)
unfolding set_ack start_supervisory_timeout deliver count_received
process_apdui s ssn rsn payload = do
  s1 ← set_ack s rsn
  guard (ssn == s1.rsn) plain
  let s2 = start_supervisory_timeout (record s1 { rsn = (s1.rsn + 1) % 0x8000 })
  (s3, outs) ← count_received s2
  ok (s3, deliver payload ++ outs)

unfoldable pub process_apduu : Connection → ApduFunction → Result (Connection × List Output)
unfolding transmit write_apdus
process_apduu s startdt_act = do
  out ← transmit (apduu startdt_con)
  ok (record s { is_enabled = true }, out ∷ notified true ∷ [])
process_apduu s stopdt_act = if s.always_enabled then ok (s, []) else do
  (s', outs) ← write_apdus s
  out ← transmit (apduu stopdt_con)
  ok (record s' { is_enabled = false }, outs ++ (out ∷ notified false ∷ []))
process_apduu s testfr_act = do out ← transmit (apduu testfr_con); ok (s, out ∷ [])
process_apduu s testfr_con = ok (record s { tested = true }, [])
process_apduu s startdt_con = ok (s, [])
process_apduu s stopdt_con = ok (s, [])

-- One round of `_read_loop`
unfoldable pub process : Connection → Apdu → Result (Connection × List Output)
unfolding process_apdui process_apduu set_ack
process s (apduu function) = process_apduu s function
process s (apdus rsn) = do s' ← set_ack s rsn; ok (s', [])
process s (apdui ssn rsn payload) = process_apdui s ssn rsn payload

-- `_write_apdui` waits while the send window is full, and discards data if sending is not enabled.
pub data Turn : Type 0 where
  waits discards : Turn
  writes : Connection → Output → Turn

unfoldable pub write_apdui : Connection → List ℕ → Result Turn
unfolding transmit stop_supervisory_timeout contains
write_apdui s payload = do
  guard (not (contains s.waiting s.ssn)) plain
  if not (ltb (length s.waiting) s.send_window_size)
      then ok waits
      else if not s.is_enabled
      then ok discards
      else do
        out ← transmit (apdui s.ssn s.rsn payload)
        let s1 = stop_supervisory_timeout (record s { w = 0 })
        ok (
            writes
              (record s1 { waiting = s1.waiting ++ (s1.ssn ∷ []); ssn = (s1.ssn + 1) % 0x8000 })
              out)
