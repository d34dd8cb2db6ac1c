-- ===== src/Apci/Connection/Invariant.antt =====
-- What holds of a connection between two steps.
use hat_drivers.Base.{ℕ, suc, ◌+◌, ◌-◌, ◌≤◌, ◌<◌, ◌≡◌, ◌⊎◌, inl, inr, refl, sym, ap, ◌∙◌}
use hat_drivers.Base.{arith, length, Bool, ltb}
use hat_drivers.Base.{Bool-cases, ltb→lt}
use hat_drivers.Base.{ok, err, plain}
use hat_drivers.Apci.Connection.{Connection, new}
use hat_drivers.Apci.Connection.{pop_handles, set_ack}
use hat_drivers.Apci.Connection.Window.{advance, ring, distance, length-ring}
use hat_drivers.Apci.Connection.Window.{acknowledged-ring, pop_handles-ring, pop_handles-beyond}

-- The numbers in the window are those from the last acknowledged one on, they are consecutive, and the
-- next number to send follows them. The window is smaller than the range of the numbers.
pub record Inv (s : Connection) : Type 0 where
  pub ssn_lt : s.ssn < 0x8000
  pub rsn_lt : s.rsn < 0x8000
  pub ack_lt : s.ack < 0x8000
  pub window_lt : s.send_window_size < 0x8000
  pub window : length s.waiting ≤ s.send_window_size
  pub next : s.ssn ≡ advance s.ack (length s.waiting)
  pub consecutive : s.waiting ≡ ring s.ack (length s.waiting)

pub new-Inv : (enabled : Bool) (k w : ℕ) → k < 0x8000 → Inv (new enabled k w)
unfolding new
new-Inv enabled k w h = record {
  ssn_lt = omega arith;
  rsn_lt = omega arith;
  ack_lt = omega arith;
  window_lt = h;
  window = omega arith;
  next = refl;
  consecutive = refl;
}

-- The connection after an acknowledgement of numbers that wait
abbrev pub acked : Connection → ℕ → Connection
acked s b = record s { ack = b; waiting = ring b (length s.waiting - distance s.ack b) }

pub set_ack-acked :
    (s : Connection) (b : ℕ)
    → Inv s
    → b < 0x8000
    → distance s.ack b ≤ length s.waiting
    → set_ack s b ≡ ok (acked s b)
unfolding set_ack
set_ack-acked s b h k l =
    let d = distance s.ack b in
    let e : advance s.ack d ≡ b = omega (arith, h.ack_lt) in
    let m : length s.waiting ≡ d + (length s.waiting - d) = omega arith in
    let r : s.waiting ≡ ring s.ack (d + (length s.waiting - d)) =
      h.consecutive ∙ ap (ring s.ack) m in
    let p : pop_handles (ring s.ack d) s.waiting ≡ ok (ring b (length s.waiting - d)) =
      ap (pop_handles (ring s.ack d)) r
      ∙ (pop_handles-ring s.ack d (length s.waiting - d) h.ack_lt
          ∙ ap (λ t. ok (ring t (length s.waiting - d))) e) in
    rw (acknowledged-ring s.ack b h.ack_lt k, p)

set_ack-beyond :
    (s : Connection) (b : ℕ)
    → Inv s
    → b < 0x8000
    → length s.waiting < distance s.ack b
    → set_ack s b ≡ err plain
unfolding set_ack
set_ack-beyond s b h k l =
    let n = length s.waiting in
    let m : distance s.ack b ≡ suc (n + (distance s.ack b - suc n)) = omega arith in
    let p : pop_handles (ring s.ack (distance s.ack b)) s.waiting ≡ err plain =
      ap (λ t. pop_handles (ring s.ack (distance s.ack b)) t) h.consecutive
      ∙ (ap (λ t. pop_handles (ring s.ack t) (ring s.ack n)) m
          ∙ pop_handles-beyond s.ack n (distance s.ack b - suc n) h.ack_lt) in
    rw (acknowledged-ring s.ack b h.ack_lt k, p)

pub acked-Inv :
    (s : Connection) (b : ℕ)
    → Inv s
    → b < 0x8000
    → distance s.ack b ≤ length s.waiting
    → Inv (acked s b)
acked-Inv s b h k l =
    let n = length s.waiting in
    let e = length-ring b (n - distance s.ack b) in
    record {
      ssn_lt = h.ssn_lt;
      rsn_lt = h.rsn_lt;
      ack_lt = k;
      window_lt = h.window_lt;
      window = omega (arith, e, h.window);
      next = omega (arith, e, h.next, h.ack_lt, h.window, h.window_lt);
      consecutive = ap (ring b) (sym e);
    }

-- In a connection that keeps the invariant, an acknowledgement below 0x8000 is accepted exactly if it acknowledges at most the numbers that wait; these then
-- wait no more, and the others still do, in order. Any other acknowledgement raises an exception.
pub set_ack_cases :
    (s : Connection) (b : ℕ)
    → Inv s
    → b < 0x8000
    → ((distance s.ack b ≤ length s.waiting) × (set_ack s b ≡ ok (acked s b)) × Inv (acked s b))
      ⊎ ((length s.waiting < distance s.ack b) × (set_ack s b ≡ err plain))
set_ack_cases s b h k = elim (Bool-cases (ltb (length s.waiting) (distance s.ack b))) [
  | inl t ↦
      let l = ltb→lt (length s.waiting) (distance s.ack b) t in inr (l, set_ack-beyond s b h k l)
  | inr t ↦
      let l : distance s.ack b ≤ length s.waiting = ground arith in
      inl (l, set_ack-acked s b h k l, acked-Inv s b h k l)
]
