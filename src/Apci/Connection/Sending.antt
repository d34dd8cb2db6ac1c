-- ===== src/Apci/Connection/Sending.antt =====
-- Data that a connection sends, and the states that it reaches.
use hat_drivers.Base.{ℕ, ◌+◌, ◌≤◌, ◌<◌, ◌≡◌, ◌⊎◌, inl, inr, sym, ap, ◌∙◌}
use hat_drivers.Base.{
  arith, List, [], ◌∷◌, ◌++◌, length, length-append, All, Bool, true, false, ltb,
}
use hat_drivers.Base.{Bool-cases, ltb→lt}
use hat_drivers.Base.{ok}
use hat_drivers.Base.Bytes.{IsByte}
use hat_drivers.Apci.Encoder.{Apdu, apdui}
use hat_drivers.Apci.Encoder.{IsApdu}
use hat_drivers.Apci.Encoder.RoundTrip.{image}
use hat_drivers.Apci.Encoder.Errors.{IsDecoded}
use hat_drivers.Apci.Connection.{Connection, Output, written, new, transmit}
use hat_drivers.Apci.Connection.{contains, write_apdus}
use hat_drivers.Apci.Connection.{process, waits}
use hat_drivers.Apci.Connection.{discards, writes, write_apdui}
use hat_drivers.Apci.Connection.{stop_supervisory_timeout}
use hat_drivers.Apci.Connection.Window.{advance, ring, ring-append}
use hat_drivers.Apci.Connection.Window.{contains-ring}
use hat_drivers.Apci.Connection.Invariant.{Inv}
use hat_drivers.Base.{Result-cases}
use hat_drivers.Apci.Connection.Invariant.{new-Inv}
use hat_drivers.Apci.Connection.Steps.{transmit-image, write_apdus-Inv, process-Inv}

-- The connection behind `_write_apdui`
abbrev pub sent : Connection → Connection
sent s = record s {
  w = 0;
  supervisory = false;
  waiting = s.waiting ++ (s.ssn ∷ []);
  ssn = advance s.ssn 1;
}

sent-Inv : (s : Connection) → Inv s → length s.waiting < s.send_window_size → Inv (sent s)
sent-Inv s h l =
    let n = length s.waiting in
    let e : length (s.waiting ++ (s.ssn ∷ [])) ≡ n + 1 =
      omega (arith, length-append {0} s.waiting (s.ssn ∷ [])) in
    record {
      ssn_lt = omega arith;
      rsn_lt = h.rsn_lt;
      ack_lt = h.ack_lt;
      window_lt = h.window_lt;
      window = omega (arith, e, l);
      next = omega (arith, e, h.next);
      consecutive =
          ap (λ t. t ++ (s.ssn ∷ [])) h.consecutive
          ∙ (ap (λ t. ring s.ack n ++ (t ∷ [])) h.next
              ∙ (sym (ring-append s.ack n 1 h.ack_lt) ∙ ap (ring s.ack) (sym e)));
    }

-- Data that one APDU can carry
abbrev pub IsPayload : List ℕ → Type 0
IsPayload payload = (length payload ≤ 249) × All IsByte payload

fresh : (s : Connection) → Inv s → contains s.waiting s.ssn ≡ false
fresh s h =
    let n = length s.waiting in
    let z : n ≡ n + 0 = omega arith in
    ap (contains s.waiting) h.next
    ∙ (ap (λ t. contains t (advance s.ack n)) h.consecutive
        ∙ (ap (λ t. contains (ring s.ack n) (advance s.ack t)) z
            ∙ contains-ring s.ack n 0 h.ack_lt (omega (arith, h.window, h.window_lt))))

-- In a connection that keeps the invariant, data that fits an APDU never raises an exception: it waits exactly while the send window is
-- full, it is discarded exactly if sending is not enabled, and else it goes out with the next number.
pub write_apdui_cases :
    (s : Connection) (payload : List ℕ)
    → Inv s
    → IsPayload payload
    → ((s.send_window_size ≤ length s.waiting) × (write_apdui s payload ≡ ok waits))
      ⊎ ((length s.waiting < s.send_window_size)
          × (s.is_enabled ≡ false)
          × (write_apdui s payload ≡ ok discards))
      ⊎ ((length s.waiting < s.send_window_size)
          × (s.is_enabled ≡ true)
          × Inv (sent s)
          × (write_apdui s payload
              ≡ ok (
                  writes
                    (sent s)
                    (written (apdui s.ssn s.rsn payload) (image (apdui s.ssn s.rsn payload))))))
unfolding write_apdui stop_supervisory_timeout
write_apdui_cases s payload h k = elim (Bool-cases (ltb (length s.waiting) s.send_window_size)) [
  | inr t ↦ inl (ground arith, rw (fresh s h, t))
  | inl t ↦
      let l = ltb→lt (length s.waiting) s.send_window_size t in
      elim (Bool-cases s.is_enabled) [
        | inr d ↦ inr (inl (l, d, rw (fresh s h, t, d)))
        | inl d ↦
            let a : IsApdu (apdui s.ssn s.rsn payload) =
              (omega (arith, h.ssn_lt), omega (arith, h.rsn_lt), k.0, k.1) in
            inr (
              inr (
                l,
                d,
                sent-Inv s h l,
                rw (fresh s h, t, d, transmit-image (apdui s.ssn s.rsn payload) a),
              ))
      ]
]

pub write_apdui-Inv :
    (s : Connection) (payload : List ℕ) {s' : Connection} {out : Output}
    → Inv s
    → write_apdui s payload ≡ ok (writes s' out)
    → Inv s'
unfolding write_apdui stop_supervisory_timeout
write_apdui-Inv s payload h e = elim (Bool-cases (ltb (length s.waiting) s.send_window_size)) [
  | inr t ↦ ground (arith, fresh s h, t)
  | inl t ↦
      let i = sent-Inv s h (ltb→lt (length s.waiting) s.send_window_size t) in
      elim (Bool-cases s.is_enabled) [
        | inr d ↦ ground (arith, fresh s h, t, d)
        | inl d ↦ elim (Result-cases (transmit (apdui s.ssn s.rsn payload))) [
          | inl (o, r) ↦ ground (arith, fresh s h, t, d, r, i)
          | inr (x, r) ↦ ground (arith, fresh s h, t, d, r)
        ]
      ]
]

-- One step of a connection: an APDU arrives, the supervisory time-out expires, or data is sent.
pub data Step : Connection → Connection → Type 0 where
  receives :
      {s s' : Connection} {outs : List Output} (apdu : Apdu)
      → IsDecoded apdu
      → process s apdu ≡ ok (s', outs)
      → Step s s'
  expires : {s s' : Connection} {outs : List Output} → write_apdus s ≡ ok (s', outs) → Step s s'
  sends :
      {s s' : Connection} {out : Output} (payload : List ℕ)
      → write_apdui s payload ≡ ok (writes s' out)
      → Step s s'

pub data Reaches : Connection → Connection → Type 0 where
  start : {s : Connection} → Reaches s s
  step : {s t u : Connection} → Reaches s t → Step t u → Reaches s u

moved-Inv : {s s' : Connection} → Step s s' → Inv s → Inv s'
moved-Inv {s} {s'} (receives apdu k e) h = process-Inv s apdu h k e
moved-Inv {s} {s'} (expires e) h = write_apdus-Inv s h e
moved-Inv {s} {s'} (sends payload e) h = write_apdui-Inv s payload h e

reach-keeps : {s t : Connection} → Reaches s t → Inv s → Inv t
reach-keeps start h = h
reach-keeps (step r x) h = moved-Inv x (reach-keeps r h)

-- Whatever APDUs with fields in range arrive, time-outs expire and data is sent, in whatever order, a connection that is
-- made with a window of less than 0x8000 keeps the window's invariant: the numbers that wait for an
-- acknowledgement are consecutive from the last acknowledged one up to the next one to send, and they
-- are at most as many as the send window allows.
pub reach-Inv :
    (enabled : Bool) (k w : ℕ) {s : Connection} → k < 0x8000 → Reaches (new enabled k w) s → Inv s
reach-Inv enabled k w h r = reach-keeps r (new-Inv enabled k w h)
