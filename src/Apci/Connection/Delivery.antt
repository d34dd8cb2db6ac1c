-- ===== src/Apci/Connection/Delivery.antt =====
-- Data arrives as it was sent: each item once and in order.
use hat_drivers.Base.{ℕ, ◌≤◌, ◌≡◌, inl, inr, refl, sym, ap, ap₂, ◌∙◌}
use hat_drivers.Base.{arith, List, [], ◌∷◌, ◌++◌, length}
use hat_drivers.Base.{Result, ok, ◌>>=◌}
use hat_drivers.Apci.Encoder.{Apdu, apdui}
use hat_drivers.Apci.Connection.{Connection, Output, written, delivered, notified}
use hat_drivers.Apci.Connection.{deliver}
use hat_drivers.Apci.Connection.{process}
use hat_drivers.Apci.Connection.{writes, write_apdui}
use hat_drivers.Apci.Connection.Window.{advance, distance}
use hat_drivers.Apci.Connection.Invariant.{Inv, acked-Inv, set_ack-acked}
use hat_drivers.Apci.Connection.Steps.{accepted, delivered_data}
use hat_drivers.Apci.Connection.Sending.{IsPayload, sent, write_apdui_cases, write_apdui-Inv}
use mathlib.Core.List.{append-nil}

-- One connection hands several items to its transport, one after the other.
pub data Sends : Connection → List (List ℕ) → Connection → List Apdu → Type 0 where
  nothing : {s : Connection} → Sends s [] s []
  next_item :
      {s s' s'' : Connection} {payload bs : List ℕ} {items : List (List ℕ)} {apdu : Apdu}
      {apdus' : List Apdu}
      → IsPayload payload
      → write_apdui s payload ≡ ok (writes s' (written apdu bs))
      → Sends s' items s'' apdus'
      → Sends s (payload ∷ items) s'' (apdu ∷ apdus')

-- The other processes what it receives.
unfoldable pub process_all : Connection → List Apdu → Result (Connection × List Output)
process_all s [] = ok (s, [])
process_all s (apdu ∷ apdus') = do
  (s', outs) ← process s apdu
  (s'', outs') ← process_all s' apdus'
  ok (s'', outs ++ outs')

-- Items without data are not put into the receive queue.
unfoldable pub nonempty : List (List ℕ) → List (List ℕ)
nonempty [] = []
nonempty ([] ∷ items) = nonempty items
nonempty ((x ∷ xs) ∷ items) = (x ∷ xs) ∷ nonempty items

delivered_data-append :
    (xs ys : List Output) → delivered_data (xs ++ ys) ≡ delivered_data xs ++ delivered_data ys
unfolding delivered_data
delivered_data-append [] ys = refl
delivered_data-append (delivered x ∷ xs) ys = ap (◌∷◌ x) (delivered_data-append xs ys)
delivered_data-append (written apdu bs ∷ xs) ys = delivered_data-append xs ys
delivered_data-append (notified b ∷ xs) ys = delivered_data-append xs ys

delivered_data-deliver :
    (payload : List ℕ) (items : List (List ℕ))
    → delivered_data (deliver payload) ++ nonempty items ≡ nonempty (payload ∷ items)
unfolding delivered_data deliver nonempty
delivered_data-deliver [] items = refl
delivered_data-deliver (x ∷ xs) items = refl

-- What goes out when an item is written
record Went (a : Connection) (payload : List ℕ) (a' : Connection) (apdu : Apdu) : Type 0 where
  frame : apdu ≡ apdui a.ssn a.rsn payload
  next_ssn : a'.ssn ≡ advance a.ssn 1
  same_rsn : a'.rsn ≡ a.rsn

went :
    (a : Connection) (payload : List ℕ) {a' : Connection} {apdu : Apdu} {bs : List ℕ}
    → Inv a
    → IsPayload payload
    → write_apdui a payload ≡ ok (writes a' (written apdu bs))
    → Went a payload a' apdu
went a payload {a'} {apdu} {bs} h k e = elim (write_apdui_cases a payload h k) [
  | inl (l, r) ↦ ground (arith, r)
  | inr (inl (l, d, r)) ↦ ground (arith, r)
  | inr (inr (l, d, i, r)) ↦
      let q : a' ≡ sent a = cc in
      record { frame = cc; next_ssn = ap (λ c. c.ssn) q; same_rsn = ap (λ c. c.rsn) q }
]

-- The items are in the other connection's receive queue.
record Arrives (b : Connection) (items : List (List ℕ)) (apdus' : List Apdu) (a' : Connection)
    : Type 0 where
  after : Connection
  outs : List Output
  runs : process_all b apdus' ≡ ok (after, outs)
  all_data : delivered_data outs ≡ nonempty items
  valid : Inv after
  same_rsn : after.rsn ≡ a'.ssn
  same_ssn : after.ssn ≡ a'.rsn

full-distance : (b : Connection) → Inv b → distance b.ack b.ssn ≡ length b.waiting
full-distance b h = omega (arith, h.next, h.ack_lt, h.window, h.window_lt)

arrives :
    {a a' b : Connection} {items : List (List ℕ)} {apdus' : List Apdu}
    → Sends a items a' apdus'
    → Inv a
    → Inv b
    → b.rsn ≡ a.ssn
    → b.ssn ≡ a.rsn
    → Arrives b items apdus' a'
unfolding process_all delivered_data nonempty process
arrives {b = b} nothing h k p q = record {
  after = b;
  outs = [];
  runs = refl;
  all_data = refl;
  valid = k;
  same_rsn = p;
  same_ssn = q;
}
arrives {a} {a'} {b}
      (next_item {s' = a1} {payload = payload} {items = items} {apdu = apdu} {apdus' = rest} f e r)
      h k p q =
    let w = went a payload h f e in
    let l : distance b.ack b.ssn ≤ length b.waiting = omega (arith, full-distance b k) in
    let c =
      accepted b b.ssn payload (acked-Inv b b.ssn k k.ssn_lt l)
        (set_ack-acked b b.ssn k k.ssn_lt l) in
    let frame : apdu ≡ apdui b.rsn b.ssn payload =
      w.frame ∙ sym (ap₂ (λ x y. apdui x y payload) p q) in
    let next =
      arrives r (write_apdui-Inv a payload h e) c.valid
        (c.next_rsn ∙ (ap (λ t. advance t 1) p ∙ sym w.next_ssn))
        (c.same_ssn ∙ (q ∙ sym w.same_rsn)) in
    record {
      after = next.after;
      outs = (deliver payload ++ c.acks) ++ next.outs;
      runs = rw (frame, c.runs, next.runs);
      all_data =
          rw
            (
              delivered_data-append (deliver payload ++ c.acks) next.outs,
              delivered_data-append (deliver payload) c.acks,
              c.silent,
              append-nil,
              next.all_data,
            )
            (delivered_data-deliver payload items);
      valid = next.valid;
      same_rsn = next.same_rsn;
      same_ssn = next.same_ssn;
    }

-- Two connections that keep the invariant, with nothing in flight: whatever items that fit an APDU one of them writes, as many as its send window
-- and state let it write, the other takes off all of their APDUs without an exception, its receive queue
-- gets exactly the items that are not empty, in order and once each, and the two agree on the next number.
pub delivery :
    {a a' b : Connection} {items : List (List ℕ)} {apdus' : List Apdu}
    → Sends a items a' apdus'
    → Inv a
    → Inv b
    → b.rsn ≡ a.ssn
    → b.ssn ≡ a.rsn
    → (b' : Connection) × (outs : List Output) × (process_all b apdus' ≡ ok (b', outs))
      × (delivered_data outs ≡ nonempty items)
      × (b'.rsn ≡ a'.ssn)
delivery s h k p q = let r = arrives s h k p q in (r.after, r.outs, r.runs, r.all_data, r.same_rsn)
