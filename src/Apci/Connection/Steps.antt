-- ===== src/Apci/Connection/Steps.antt =====
-- Steps of a connection, and what they keep.
use hat_drivers.Base.{ℕ, ◌+◌, ◌<◌, ◌≡◌, inl, inr, refl}
use hat_drivers.Base.{arith, List, [], ◌∷◌, ◌++◌, Bool, true, false, leb}
use hat_drivers.Base.{==-refl, Bool-cases, ◌==◌}
use hat_drivers.Base.{ok}
use hat_drivers.Apci.Encoder.{Apdu, apdui, apdus, apduu, ApduFunction, testfr_con, testfr_act}
use hat_drivers.Apci.Encoder.{stopdt_con, stopdt_act, startdt_con, startdt_act, IsApdu}
use hat_drivers.Apci.Encoder.RoundTrip.{image, encode-image}
use hat_drivers.Apci.Encoder.Errors.{IsDecoded}
use hat_drivers.Apci.Transport.{write}
use hat_drivers.Apci.Connection.{Connection, Output, written, delivered, notified, transmit}
use hat_drivers.Apci.Connection.{set_ack, write_apdus, deliver}
use hat_drivers.Apci.Connection.{count_received, process_apdui, process_apduu, process}
use hat_drivers.Apci.Connection.{start_supervisory_timeout}
use hat_drivers.Apci.Connection.{stop_supervisory_timeout}
use hat_drivers.Apci.Connection.Window.{advance}
use hat_drivers.Apci.Connection.Invariant.{Inv, acked, set_ack_cases}

pub transmit-image : (apdu : Apdu) → IsApdu apdu → transmit apdu ≡ ok (written apdu (image apdu))
unfolding transmit write
transmit-image apdu h = rw (encode-image apdu h)

-- The connection behind `_write_apdus`
abbrev pub acknowledging : Connection → Connection
acknowledging s = record s { w = 0; supervisory = false }

pub write_apdus-image :
    (s : Connection)
    → s.rsn < 0x8000
    → write_apdus s ≡ ok (acknowledging s, written (apdus s.rsn) (image (apdus s.rsn)) ∷ [])
unfolding write_apdus stop_supervisory_timeout
write_apdus-image s h = rw (transmit-image (apdus s.rsn) (omega arith))

-- What the outputs put into the receive queue
unfoldable pub delivered_data : List Output → List (List ℕ)
delivered_data [] = []
delivered_data (delivered x ∷ outs) = x ∷ delivered_data outs
delivered_data (written apdu bs ∷ outs) = delivered_data outs
delivered_data (notified b ∷ outs) = delivered_data outs

-- What the receive window leaves as it is
pub record Counted (s : Connection) : Type 0 where
  pub after : Connection
  pub acks : List Output
  pub runs : count_received s ≡ ok (after, acks)
  pub valid : Inv after
  pub same_ssn : after.ssn ≡ s.ssn
  pub same_rsn : after.rsn ≡ s.rsn
  pub silent : delivered_data acks ≡ []

-- The invariant does not speak of the counters and timers.
touched-Inv :
    (s : Connection) (w : ℕ) (b : Bool) → Inv s → Inv (record s { w = w; supervisory = b })
touched-Inv s w b h = record {
  ssn_lt = h.ssn_lt;
  rsn_lt = h.rsn_lt;
  ack_lt = h.ack_lt;
  window_lt = h.window_lt;
  window = h.window;
  next = h.next;
  consecutive = h.consecutive;
}

counted : (s : Connection) → Inv s → Counted s
unfolding count_received delivered_data
counted s h = elim (Bool-cases (leb s.receive_window_size (s.w + 1))) [
  | inl t ↦ record {
    after = acknowledging s;
    acks = written (apdus s.rsn) (image (apdus s.rsn)) ∷ [];
    runs = rw (t) (write_apdus-image (record s { w = s.w + 1 }) h.rsn_lt);
    valid = touched-Inv s 0 false h;
    same_ssn = refl;
    same_rsn = refl;
    silent = refl;
  }
  | inr t ↦ record {
    after = record s { w = s.w + 1 };
    acks = [];
    runs = rw t;
    valid = touched-Inv s (s.w + 1) s.supervisory h;
    same_ssn = refl;
    same_rsn = refl;
    silent = refl;
  }
]

-- The connection behind the acknowledgement in an APDU with data
abbrev pub stepped : Connection → Connection
stepped s = record s { rsn = advance s.rsn 1; supervisory = true }

stepped-Inv : (s : Connection) → Inv s → Inv (stepped s)
stepped-Inv s h = record {
  ssn_lt = h.ssn_lt;
  rsn_lt = omega arith;
  ack_lt = h.ack_lt;
  window_lt = h.window_lt;
  window = h.window;
  next = h.next;
  consecutive = h.consecutive;
}

-- Data that arrives with the number that is expected, and a valid acknowledgement
pub record Accepted (s : Connection) (rsn : ℕ) (payload : List ℕ) : Type 0 where
  pub after : Connection
  pub acks : List Output
  pub runs : process_apdui s s.rsn rsn payload ≡ ok (after, deliver payload ++ acks)
  pub valid : Inv after
  pub same_ssn : after.ssn ≡ s.ssn
  pub next_rsn : after.rsn ≡ advance s.rsn 1
  pub silent : delivered_data acks ≡ []

pub accepted :
    (s : Connection) (rsn : ℕ) (payload : List ℕ)
    → Inv (acked s rsn)
    → set_ack s rsn ≡ ok (acked s rsn)
    → Accepted s rsn payload
unfolding process_apdui start_supervisory_timeout
accepted s rsn payload h e =
    let c = counted (stepped (acked s rsn)) (stepped-Inv (acked s rsn) h) in
    record {
      after = c.after;
      acks = c.acks;
      runs = rw (e, ==-refl s.rsn, c.runs);
      valid = c.valid;
      same_ssn = c.same_ssn;
      next_rsn = c.same_rsn;
      silent = c.silent;
    }

process_apdui-Inv :
    (s : Connection) (ssn rsn : ℕ) (payload : List ℕ) {s' : Connection} {outs : List Output}
    → Inv s
    → rsn < 0x8000
    → process_apdui s ssn rsn payload ≡ ok (s', outs)
    → Inv s'
unfolding process_apdui start_supervisory_timeout
process_apdui-Inv s ssn rsn payload h k e = elim (set_ack_cases s rsn h k) [
  | inl (l, r, i) ↦
      let c = counted (stepped (acked s rsn)) (stepped-Inv (acked s rsn) i) in
      elim (Bool-cases (ssn == s.rsn)) [
        | inl t ↦ ground (arith, r, c.runs, c.valid)
        | inr t ↦ ground (arith, r)
      ]
  | inr (l, r) ↦ ground (arith, r)
]

enabled-Inv : (s : Connection) (b : Bool) → Inv s → Inv (record s { is_enabled = b })
enabled-Inv s b h = record {
  ssn_lt = h.ssn_lt;
  rsn_lt = h.rsn_lt;
  ack_lt = h.ack_lt;
  window_lt = h.window_lt;
  window = h.window;
  next = h.next;
  consecutive = h.consecutive;
}

process_apduu-Inv :
    (s : Connection) (f : ApduFunction) {s' : Connection} {outs : List Output}
    → Inv s
    → process_apduu s f ≡ ok (s', outs)
    → Inv s'
unfolding process_apduu
process_apduu-Inv s startdt_act h e =
    ground (arith, transmit-image (apduu startdt_con) tt, enabled-Inv s true h)
process_apduu-Inv s stopdt_act h e = elim (Bool-cases s.always_enabled) [
  | inl t ↦ ground (arith, t, h)
  | inr t ↦ ground (
    arith,
    t,
    write_apdus-image s h.rsn_lt,
    transmit-image (apduu stopdt_con) tt,
    enabled-Inv (acknowledging s) false (touched-Inv s 0 false h),
  )
]
process_apduu-Inv s testfr_act h e = ground (arith, transmit-image (apduu testfr_con) tt, h)
process_apduu-Inv s testfr_con h e = ground (arith, h)
process_apduu-Inv s startdt_con h e = ground (arith, h)
process_apduu-Inv s stopdt_con h e = ground (arith, h)

-- The other handlers keep the invariant too.
pub process-Inv :
    (s : Connection) (apdu : Apdu) {s' : Connection} {outs : List Output}
    → Inv s
    → IsDecoded apdu
    → process s apdu ≡ ok (s', outs)
    → Inv s'
unfolding process
process-Inv s (apduu f) h k e = process_apduu-Inv s f h e
process-Inv s (apdui ssn rsn payload) h k e =
    process_apdui-Inv s ssn rsn payload h (omega (arith, k.1)) e
process-Inv s (apdus rsn) h k e = elim (set_ack_cases s rsn h (omega (arith, k))) [
  | inl (l, r, i) ↦ ground (arith, r, i)
  | inr (l, r) ↦ ground (arith, r)
]

pub write_apdus-Inv :
    (s : Connection) {s' : Connection} {outs : List Output}
    → Inv s
    → write_apdus s ≡ ok (s', outs)
    → Inv s'
write_apdus-Inv s h e = ground (arith, write_apdus-image s h.rsn_lt, touched-Inv s 0 false h)
