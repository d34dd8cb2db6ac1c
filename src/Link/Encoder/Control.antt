-- ===== src/Link/Encoder/Control.antt =====
-- The control field of a frame: it fits its byte and is read back.
use hat_drivers.Base.{ℕ, ◌<◌, ◌≡◌, refl, arith, List}
use hat_drivers.Base.{Bool, true, false}
use hat_drivers.Base.{Option, none, some, Result, ok}
use hat_drivers.Link.Common.{Direction, b_to_a}
use hat_drivers.Link.Common.{a_to_b, ReqFunction}
use hat_drivers.Link.Common.{ResFunction, Frame}
use hat_drivers.Link.Common.{req_frame, res_frame, reset_link, ack}
use hat_drivers.Link.Encoder.{decode_frame}
use hat_drivers.Link.Encoder.{control_req}
use hat_drivers.Link.Encoder.{control_res}

-- The direction is sent exactly if the link uses it.
abbrev pub HasDirection : Bool → Option Direction → Type 0
HasDirection true none = ⊥
HasDirection true (some d) = Unit
HasDirection false none = Unit
HasDirection false (some d) = ⊥

-- A control field that fits its byte and is read back
pub record Control (valid : Bool) (make : Result ℕ) (frame : ℕ → List ℕ → Frame) : Type 0 where
  pub value : ℕ
  pub made : make ≡ ok value
  pub fits : value < 256
  pub shown :
      (address : ℕ) (payload : List ℕ)
      → decode_frame valid value address payload ≡ ok (frame address payload)

read_back :
    {valid : Bool} {make : Result ℕ} {frame : ℕ → List ℕ → Frame} {value : ℕ}
    → make ≡ ok value
    → value < 256
    → ((address : ℕ) (payload : List ℕ)
        → decode_frame valid value address payload ≡ ok (frame address payload))
    → Control valid make frame
read_back {value = v} m f s = record { value = v; made = m; fits = f; shown = s }

pub control_req_lem :
    (valid : Bool) (d : Option Direction) (b v : Bool) (f : ReqFunction)
    → HasDirection valid d
    → Control valid (control_req valid d b v f) (req_frame d b v f)
unfolding decode_frame control_req
control_req_lem true none b v f h = absurd h
control_req_lem false (some d) b v f h = absurd h
control_req_lem false none true true reset_link h = read_back refl (omega arith) (λ a p. refl)
control_req_lem false none true true _ h = read_back refl (omega arith) (λ a p. refl)
control_req_lem false none true false reset_link h = read_back refl (omega arith) (λ a p. refl)
control_req_lem false none true false _ h = read_back refl (omega arith) (λ a p. refl)
control_req_lem false none false true reset_link h = read_back refl (omega arith) (λ a p. refl)
control_req_lem false none false true _ h = read_back refl (omega arith) (λ a p. refl)
control_req_lem false none false false reset_link h = read_back refl (omega arith) (λ a p. refl)
control_req_lem false none false false _ h = read_back refl (omega arith) (λ a p. refl)
control_req_lem true (some b_to_a) true true reset_link h =
    read_back refl (omega arith) (λ a p. refl)
control_req_lem true (some b_to_a) true true _ h = read_back refl (omega arith) (λ a p. refl)
control_req_lem true (some b_to_a) true false reset_link h =
    read_back refl (omega arith) (λ a p. refl)
control_req_lem true (some b_to_a) true false _ h = read_back refl (omega arith) (λ a p. refl)
control_req_lem true (some b_to_a) false true reset_link h =
    read_back refl (omega arith) (λ a p. refl)
control_req_lem true (some b_to_a) false true _ h = read_back refl (omega arith) (λ a p. refl)
control_req_lem true (some b_to_a) false false reset_link h =
    read_back refl (omega arith) (λ a p. refl)
control_req_lem true (some b_to_a) false false _ h = read_back refl (omega arith) (λ a p. refl)
control_req_lem true (some a_to_b) true true reset_link h =
    read_back refl (omega arith) (λ a p. refl)
control_req_lem true (some a_to_b) true true _ h = read_back refl (omega arith) (λ a p. refl)
control_req_lem true (some a_to_b) true false reset_link h =
    read_back refl (omega arith) (λ a p. refl)
control_req_lem true (some a_to_b) true false _ h = read_back refl (omega arith) (λ a p. refl)
control_req_lem true (some a_to_b) false true reset_link h =
    read_back refl (omega arith) (λ a p. refl)
control_req_lem true (some a_to_b) false true _ h = read_back refl (omega arith) (λ a p. refl)
control_req_lem true (some a_to_b) false false reset_link h =
    read_back refl (omega arith) (λ a p. refl)
control_req_lem true (some a_to_b) false false _ h = read_back refl (omega arith) (λ a p. refl)

pub control_res_lem :
    (valid : Bool) (d : Option Direction) (b v : Bool) (f : ResFunction)
    → HasDirection valid d
    → Control valid (control_res valid d b v f) (res_frame d b v f)
unfolding decode_frame control_res
control_res_lem true none b v f h = absurd h
control_res_lem false (some d) b v f h = absurd h
control_res_lem false none true true ack h = read_back refl (omega arith) (λ a p. refl)
control_res_lem false none true true _ h = read_back refl (omega arith) (λ a p. refl)
control_res_lem false none true false ack h = read_back refl (omega arith) (λ a p. refl)
control_res_lem false none true false _ h = read_back refl (omega arith) (λ a p. refl)
control_res_lem false none false true ack h = read_back refl (omega arith) (λ a p. refl)
control_res_lem false none false true _ h = read_back refl (omega arith) (λ a p. refl)
control_res_lem false none false false ack h = read_back refl (omega arith) (λ a p. refl)
control_res_lem false none false false _ h = read_back refl (omega arith) (λ a p. refl)
control_res_lem true (some b_to_a) true true ack h = read_back refl (omega arith) (λ a p. refl)
control_res_lem true (some b_to_a) true true _ h = read_back refl (omega arith) (λ a p. refl)
control_res_lem true (some b_to_a) true false ack h = read_back refl (omega arith) (λ a p. refl)
control_res_lem true (some b_to_a) true false _ h = read_back refl (omega arith) (λ a p. refl)
control_res_lem true (some b_to_a) false true ack h = read_back refl (omega arith) (λ a p. refl)
control_res_lem true (some b_to_a) false true _ h = read_back refl (omega arith) (λ a p. refl)
control_res_lem true (some b_to_a) false false ack h = read_back refl (omega arith) (λ a p. refl)
control_res_lem true (some b_to_a) false false _ h = read_back refl (omega arith) (λ a p. refl)
control_res_lem true (some a_to_b) true true ack h = read_back refl (omega arith) (λ a p. refl)
control_res_lem true (some a_to_b) true true _ h = read_back refl (omega arith) (λ a p. refl)
control_res_lem true (some a_to_b) true false ack h = read_back refl (omega arith) (λ a p. refl)
control_res_lem true (some a_to_b) true false _ h = read_back refl (omega arith) (λ a p. refl)
control_res_lem true (some a_to_b) false true ack h = read_back refl (omega arith) (λ a p. refl)
control_res_lem true (some a_to_b) false true _ h = read_back refl (omega arith) (λ a p. refl)
control_res_lem true (some a_to_b) false false ack h = read_back refl (omega arith) (λ a p. refl)
control_res_lem true (some a_to_b) false false _ h = read_back refl (omega arith) (λ a p. refl)
