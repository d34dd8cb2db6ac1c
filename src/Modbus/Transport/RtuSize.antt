-- ===== src/Modbus/Transport/RtuSize.antt =====
-- The size of RTU frames: each front of a frame asks for what is missing, and for nothing beyond it.
pub mod Frame
use hat_drivers.Base.{
  ℕ, zero, suc, ◌+◌, ◌*◌, ◌≤◌, ◌<◌, ◌≡◌, refl, sym, ap, ◌∙◌, arith, ◌⊎◌, inl, inr, Bool-cases,
}
use hat_drivers.Base.{List, ◌∷◌, ◌++◌, length, length-append, ok, ◌>>=◌, bit_or, bit_and, ltb}
use hat_drivers.Base.{Result, if◌then◌else◌}
use hat_drivers.Base.Bytes.{at}
use hat_drivers.Base.Stream.{at-append_of_lt}
use mathlib.Core.Path.{subst}
use hat_drivers.Modbus.Transport.Common.{Req, Res, Pdu, req_pdu}
use hat_drivers.Modbus.Transport.Common.{res_pdu, FunctionCode, fc_value, to_function_code}
use hat_drivers.Modbus.Transport.Common.{read_coils, read_discrete_inputs, read_holding_registers}
use hat_drivers.Modbus.Transport.Common.{read_input_registers, write_single_coil}
use hat_drivers.Modbus.Transport.Common.{write_single_register, write_multiple_coils}
use hat_drivers.Modbus.Transport.Common.{write_multiple_register, mask_write_register}
use hat_drivers.Modbus.Transport.Common.{read_fifo_queue, read_coils_req, read_discrete_inputs_req}
use hat_drivers.Modbus.Transport.Common.{read_holding_registers_req, read_input_registers_req}
use hat_drivers.Modbus.Transport.Common.{write_single_coil_req, write_single_register_req}
use hat_drivers.Modbus.Transport.Common.{write_multiple_coils_req, write_multiple_registers_req}
use hat_drivers.Modbus.Transport.Common.{mask_write_register_req, read_fifo_queue_req, error_res}
use hat_drivers.Modbus.Transport.Common.{read_coils_res, read_discrete_inputs_res}
use hat_drivers.Modbus.Transport.Common.{read_holding_registers_res, read_input_registers_res}
use hat_drivers.Modbus.Transport.Common.{write_single_coil_res, write_single_register_res}
use hat_drivers.Modbus.Transport.Common.{write_multiple_coils_res, write_multiple_registers_res}
use hat_drivers.Modbus.Transport.Common.{mask_write_register_res, read_fifo_queue_res}
use hat_drivers.Modbus.Transport.Values.{coil_count, coil_bytes}
use hat_drivers.Modbus.Transport.Values.Laws.{
  length-coil_bytes, length-register_bytes, register_bytes,
}
use hat_drivers.Modbus.Transport.Size.{req_size, res_size, get_next_req_size, get_next_res_size}
use hat_drivers.Modbus.Transport.Size.{get_next_pdu_size}
use hat_drivers.Modbus.Transport.Requests.{req_image}
use hat_drivers.Modbus.Transport.Responses.{res_image}
use hat_drivers.Modbus.Transport.Pdus.{direction_of, pdu_image}

-- `size` at offset 1 on a front `bs` of a frame of `total` bytes, once the function code is read
pub record Sized (size : List ℕ → ℕ → Result ℕ) (bs : List ℕ) (total : ℕ) : Type 0 where
  pub wanted : ℕ
  pub answer : size bs 1 ≡ ok wanted
  pub more : length bs < total → length bs < wanted + 3
  pub within : wanted + 3 ≤ total
  pub exact : length bs ≡ total → wanted + 3 ≡ total

-- Requests of a fixed size, by their function code
req_fixed :
    (bs : List ℕ) (code n : ℕ) (fc : FunctionCode)
    → 2 ≤ length bs
    → at bs 1 ≡ ok code
    → to_function_code code ≡ ok fc
    → req_size fc bs 1 ≡ ok n
    → Sized get_next_req_size bs (n + 3)
unfolding get_next_req_size
req_fixed bs code n fc h c f r = record {
  wanted = n;
  answer = ground arith;
  more = λ k. k;
  within = omega arith;
  exact = λ k. refl;
}

-- Requests that count their data in byte 6
req_counted :
    (bs : List ℕ) (code count : ℕ)
    → (code ≡ 15) ⊎ (code ≡ 16)
    → 2 ≤ length bs
    → at bs 1 ≡ ok code
    → (6 < length bs → at bs 6 ≡ ok count)
    → Sized get_next_req_size bs (count + 9)
unfolding get_next_req_size req_size to_function_code
req_counted bs code count k h c d = elim (Bool-cases (ltb (length bs) 7)) [
  | inl t ↦ record {
    wanted = 6;
    answer = ground arith;
    more = λ l. ground arith;
    within = omega arith;
    exact = λ l. ground arith;
  }
  | inr t ↦ record {
    wanted = count + 6;
    answer = let e = d (ground arith) in ground arith;
    more = λ l. omega arith;
    within = omega arith;
    exact = λ l. omega arith;
  }
]

-- Responses of a fixed size, and errors
res_fixed :
    (bs : List ℕ) (code n : ℕ) (fc : FunctionCode)
    → 2 ≤ length bs
    → at bs 1 ≡ ok code
    → bit_and code 0x80 ≡ 0
    → to_function_code code ≡ ok fc
    → res_size fc bs 1 ≡ ok n
    → Sized get_next_res_size bs (n + 3)
unfolding get_next_res_size
res_fixed bs code n fc h c z f r = record {
  wanted = n;
  answer = ground arith;
  more = λ k. k;
  within = omega arith;
  exact = λ k. refl;
}

res_error :
    (bs : List ℕ) (code : ℕ)
    → 2 ≤ length bs
    → at bs 1 ≡ ok code
    → bit_and code 0x80 ≡ 0x80
    → Sized get_next_res_size bs 5
unfolding get_next_res_size
res_error bs code h c z = record {
  wanted = 2;
  answer = ground arith;
  more = λ k. k;
  within = omega arith;
  exact = λ k. refl;
}

-- Responses that count their data in byte 2
abbrev CountsData : FunctionCode → Type 0
CountsData fc =
    (bs : List ℕ) (offset : ℕ)
    → res_size fc bs offset
      ≡ (if ltb (length bs) (offset + 2) then ok 2 else do n ← at bs (offset + 1); ok (n + 2))

res_counted :
    (bs : List ℕ) (code count : ℕ) (fc : FunctionCode)
    → 2 ≤ length bs
    → at bs 1 ≡ ok code
    → bit_and code 0x80 ≡ 0
    → to_function_code code ≡ ok fc
    → CountsData fc
    → (2 < length bs → at bs 2 ≡ ok count)
    → Sized get_next_res_size bs (count + 5)
unfolding get_next_res_size
res_counted bs code count fc h c z f r d = elim (Bool-cases (ltb (length bs) 3)) [
  | inl t ↦ record {
    wanted = 2;
    answer = let e = r bs 1 in ground arith;
    more = λ l. ground arith;
    within = omega arith;
    exact = λ l. ground arith;
  }
  | inr t ↦ record {
    wanted = count + 2;
    answer = let e = d (ground arith) in let k = r bs 1 in ground arith;
    more = λ l. omega arith;
    within = omega arith;
    exact = λ l. omega arith;
  }
]

-- A front of a frame has the frame's bytes.
at-front : (a b frame : List ℕ) (i : ℕ) → a ++ b ≡ frame → i < length a → at a i ≡ at frame i
at-front a b frame i e h = sym (at-append_of_lt a b i h) ∙ ap (λ t. at t i) e

error-bit : (fc : FunctionCode) → bit_and (bit_or (fc_value fc) 0x80) 0x80 ≡ 0x80
unfolding fc_value
error-bit read_coils = refl
error-bit _ = refl

module _ (d : ℕ) (tail a b : List ℕ) (two : 2 ≤ length a) where
  req_image-Sized :
      (r : Req)
      → a ++ b ≡ d ∷ (req_image r ++ tail)
      → length tail ≡ 2
      → Sized get_next_req_size a (length (d ∷ (req_image r ++ tail)))
  unfolding to_function_code req_size
  req_image-Sized (read_coils_req x q) e t =
      let n : 5 + 3 ≡ length (d ∷ (req_image (read_coils_req x q) ++ tail)) = omega (arith, t) in
      subst (Sized get_next_req_size a) n (
        req_fixed a 1 5 read_coils two
          (at-front a b (d ∷ (req_image (read_coils_req x q) ++ tail)) 1 e two) refl refl)
  req_image-Sized (read_discrete_inputs_req x q) e t =
      let n : 5 + 3 ≡ length (d ∷ (req_image (read_discrete_inputs_req x q) ++ tail)) =
        omega (arith, t) in
      subst (Sized get_next_req_size a) n (
        req_fixed a 2 5 read_discrete_inputs two
          (at-front a b (d ∷ (req_image (read_discrete_inputs_req x q) ++ tail)) 1 e two) refl refl)
  req_image-Sized (read_holding_registers_req x q) e t =
      let n : 5 + 3 ≡ length (d ∷ (req_image (read_holding_registers_req x q) ++ tail)) =
        omega (arith, t) in
      subst (Sized get_next_req_size a) n (
        req_fixed a 3 5 read_holding_registers two
          (at-front a b (d ∷ (req_image (read_holding_registers_req x q) ++ tail)) 1 e two) refl
          refl)
  req_image-Sized (read_input_registers_req x q) e t =
      let n : 5 + 3 ≡ length (d ∷ (req_image (read_input_registers_req x q) ++ tail)) =
        omega (arith, t) in
      subst (Sized get_next_req_size a) n (
        req_fixed a 4 5 read_input_registers two
          (at-front a b (d ∷ (req_image (read_input_registers_req x q) ++ tail)) 1 e two) refl refl)
  req_image-Sized (write_single_coil_req x v) e t =
      let n : 5 + 3 ≡ length (d ∷ (req_image (write_single_coil_req x v) ++ tail)) =
        omega (arith, t) in
      subst (Sized get_next_req_size a) n (
        req_fixed a 5 5 write_single_coil two
          (at-front a b (d ∷ (req_image (write_single_coil_req x v) ++ tail)) 1 e two) refl refl)
  req_image-Sized (write_single_register_req x v) e t =
      let n : 5 + 3 ≡ length (d ∷ (req_image (write_single_register_req x v) ++ tail)) =
        omega (arith, t) in
      subst (Sized get_next_req_size a) n (
        req_fixed a 6 5 write_single_register two
          (at-front a b (d ∷ (req_image (write_single_register_req x v) ++ tail)) 1 e two) refl
          refl)
  req_image-Sized (write_multiple_coils_req x vs) e t =
      let n : coil_count (length vs) + 9
          ≡ length (d ∷ (req_image (write_multiple_coils_req x vs) ++ tail)) =
        omega (
          arith,
          t,
          length-coil_bytes vs (coil_count (length vs)) 0,
          length-append {0} (coil_bytes vs (coil_count (length vs)) 0) tail,
        ) in
      subst (Sized get_next_req_size a) n (
        req_counted a 15 (coil_count (length vs)) (inl refl) two
          (at-front a b (d ∷ (req_image (write_multiple_coils_req x vs) ++ tail)) 1 e two)
          (at-front a b (d ∷ (req_image (write_multiple_coils_req x vs) ++ tail)) 6 e))
  req_image-Sized (write_multiple_registers_req x vs) e t =
      let n : 2 * length vs + 9
          ≡ length (d ∷ (req_image (write_multiple_registers_req x vs) ++ tail)) =
        omega (arith, t, length-register_bytes vs, length-append {0} (register_bytes vs) tail) in
      subst (Sized get_next_req_size a) n (
        req_counted a 16 (2 * length vs) (inr refl) two
          (at-front a b (d ∷ (req_image (write_multiple_registers_req x vs) ++ tail)) 1 e two)
          (at-front a b (d ∷ (req_image (write_multiple_registers_req x vs) ++ tail)) 6 e))
  req_image-Sized (mask_write_register_req x m o) e t =
      let n : 7 + 3 ≡ length (d ∷ (req_image (mask_write_register_req x m o) ++ tail)) =
        omega (arith, t) in
      subst (Sized get_next_req_size a) n (
        req_fixed a 22 7 mask_write_register two
          (at-front a b (d ∷ (req_image (mask_write_register_req x m o) ++ tail)) 1 e two) refl
          refl)
  req_image-Sized (read_fifo_queue_req x) e t =
      let n : 3 + 3 ≡ length (d ∷ (req_image (read_fifo_queue_req x) ++ tail)) = omega (arith, t) in
      subst (Sized get_next_req_size a) n (
        req_fixed a 24 3 read_fifo_queue two
          (at-front a b (d ∷ (req_image (read_fifo_queue_req x) ++ tail)) 1 e two) refl refl)

  res_image-Sized :
      (r : Res)
      → a ++ b ≡ d ∷ (res_image r ++ tail)
      → length tail ≡ 2
      → Sized get_next_res_size a (length (d ∷ (res_image r ++ tail)))
  unfolding to_function_code res_size
  res_image-Sized (error_res fc er) e t =
      let n : 5 ≡ length (d ∷ (res_image (error_res fc er) ++ tail)) = omega (arith, t) in
      subst (Sized get_next_res_size a) n (
        res_error a (bit_or (fc_value fc) 0x80) two
          (at-front a b (d ∷ (res_image (error_res fc er) ++ tail)) 1 e two) (error-bit fc))
  res_image-Sized (read_coils_res vs) e t =
      let n : coil_count (length vs) + 5 ≡ length (d ∷ (res_image (read_coils_res vs) ++ tail)) =
        omega (
          arith,
          t,
          length-coil_bytes vs (coil_count (length vs)) 0,
          length-append {0} (coil_bytes vs (coil_count (length vs)) 0) tail,
        ) in
      subst (Sized get_next_res_size a) n (
        res_counted a 1 (coil_count (length vs)) read_coils two
          (at-front a b (d ∷ (res_image (read_coils_res vs) ++ tail)) 1 e two) refl refl
          (λ bs offset. refl) (at-front a b (d ∷ (res_image (read_coils_res vs) ++ tail)) 2 e))
  res_image-Sized (read_discrete_inputs_res vs) e t =
      let n : coil_count (length vs) + 5
          ≡ length (d ∷ (res_image (read_discrete_inputs_res vs) ++ tail)) =
        omega (
          arith,
          t,
          length-coil_bytes vs (coil_count (length vs)) 0,
          length-append {0} (coil_bytes vs (coil_count (length vs)) 0) tail,
        ) in
      subst (Sized get_next_res_size a) n (
        res_counted a 2 (coil_count (length vs)) read_discrete_inputs two
          (at-front a b (d ∷ (res_image (read_discrete_inputs_res vs) ++ tail)) 1 e two) refl refl
          (λ bs offset. refl)
          (at-front a b (d ∷ (res_image (read_discrete_inputs_res vs) ++ tail)) 2 e))
  res_image-Sized (read_holding_registers_res vs) e t =
      let n : length vs * 2 + 5 ≡ length (d ∷ (res_image (read_holding_registers_res vs) ++ tail)) =
        omega (arith, t, length-register_bytes vs, length-append {0} (register_bytes vs) tail) in
      subst (Sized get_next_res_size a) n (
        res_counted a 3 (length vs * 2) read_holding_registers two
          (at-front a b (d ∷ (res_image (read_holding_registers_res vs) ++ tail)) 1 e two) refl refl
          (λ bs offset. refl)
          (at-front a b (d ∷ (res_image (read_holding_registers_res vs) ++ tail)) 2 e))
  res_image-Sized (read_input_registers_res vs) e t =
      let n : length vs * 2 + 5 ≡ length (d ∷ (res_image (read_input_registers_res vs) ++ tail)) =
        omega (arith, t, length-register_bytes vs, length-append {0} (register_bytes vs) tail) in
      subst (Sized get_next_res_size a) n (
        res_counted a 4 (length vs * 2) read_input_registers two
          (at-front a b (d ∷ (res_image (read_input_registers_res vs) ++ tail)) 1 e two) refl refl
          (λ bs offset. refl)
          (at-front a b (d ∷ (res_image (read_input_registers_res vs) ++ tail)) 2 e))
  res_image-Sized (write_single_coil_res x v) e t =
      let n : 5 + 3 ≡ length (d ∷ (res_image (write_single_coil_res x v) ++ tail)) =
        omega (arith, t) in
      subst (Sized get_next_res_size a) n (
        res_fixed a 5 5 write_single_coil two
          (at-front a b (d ∷ (res_image (write_single_coil_res x v) ++ tail)) 1 e two) refl refl
          refl)
  res_image-Sized (write_single_register_res x v) e t =
      let n : 5 + 3 ≡ length (d ∷ (res_image (write_single_register_res x v) ++ tail)) =
        omega (arith, t) in
      subst (Sized get_next_res_size a) n (
        res_fixed a 6 5 write_single_register two
          (at-front a b (d ∷ (res_image (write_single_register_res x v) ++ tail)) 1 e two) refl refl
          refl)
  res_image-Sized (write_multiple_coils_res x q) e t =
      let n : 5 + 3 ≡ length (d ∷ (res_image (write_multiple_coils_res x q) ++ tail)) =
        omega (arith, t) in
      subst (Sized get_next_res_size a) n (
        res_fixed a 15 5 write_multiple_coils two
          (at-front a b (d ∷ (res_image (write_multiple_coils_res x q) ++ tail)) 1 e two) refl refl
          refl)
  res_image-Sized (write_multiple_registers_res x q) e t =
      let n : 5 + 3 ≡ length (d ∷ (res_image (write_multiple_registers_res x q) ++ tail)) =
        omega (arith, t) in
      subst (Sized get_next_res_size a) n (
        res_fixed a 16 5 write_multiple_register two
          (at-front a b (d ∷ (res_image (write_multiple_registers_res x q) ++ tail)) 1 e two) refl
          refl refl)
  res_image-Sized (mask_write_register_res x m o) e t =
      let n : 7 + 3 ≡ length (d ∷ (res_image (mask_write_register_res x m o) ++ tail)) =
        omega (arith, t) in
      subst (Sized get_next_res_size a) n (
        res_fixed a 22 7 mask_write_register two
          (at-front a b (d ∷ (res_image (mask_write_register_res x m o) ++ tail)) 1 e two) refl refl
          refl)
  res_image-Sized (read_fifo_queue_res vs) e t =
      let n : length vs * 2 + 5 ≡ length (d ∷ (res_image (read_fifo_queue_res vs) ++ tail)) =
        omega (arith, t, length-register_bytes vs, length-append {0} (register_bytes vs) tail) in
      subst (Sized get_next_res_size a) n (
        res_counted a 24 (length vs * 2) read_fifo_queue two
          (at-front a b (d ∷ (res_image (read_fifo_queue_res vs) ++ tail)) 1 e two) refl refl
          (λ bs offset. refl) (at-front a b (d ∷ (res_image (read_fifo_queue_res vs) ++ tail)) 2 e))

  pub pdu_image-Sized :
      (p : Pdu)
      → a ++ b ≡ d ∷ (pdu_image p ++ tail)
      → length tail ≡ 2
      → Sized (get_next_pdu_size (direction_of p)) a (length (d ∷ (pdu_image p ++ tail)))
  unfolding get_next_pdu_size
  pdu_image-Sized (req_pdu r) e t = req_image-Sized r e t
  pdu_image-Sized (res_pdu r) e t = res_image-Sized r e t
