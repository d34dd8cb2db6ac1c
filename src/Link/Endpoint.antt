-- ===== src/Link/Endpoint.antt =====
-- src_py/hat/drivers/iec60870/link/endpoint.py: frames on a serial line.
pub mod Delivery
use hat_drivers.Base.{
  ℕ, zero, suc, ◌+◌, ◌-◌, ◌*◌, ◌≤◌, ◌<◌, ◌≡◌, ◌≢◌, sym, ap, ◌∙◌, arith, List, [], ◌∷◌, ◌++◌,
}
use hat_drivers.Base.{
  length, length-append, length-take, length-drop, take, drop, ltb, ltb→lt, Bool-cases,
}
use hat_drivers.Base.{true, false, Bool, inl, inr, Result-cases}
use hat_drivers.Base.{Exn, Result, ok, err, ◌>>=◌, stuck, connection_error}
use hat_drivers.Base.Stream.{readexactly}
use hat_drivers.Link.Common.{AddressSize, Frame}
use hat_drivers.Link.Encoder.{get_next_frame_size, variable_size, decode, encode}

-- `receive`: the frame, what stays in `_data`, and what stays in the stream. `bs` is `_data`. A start that
-- is none is skipped byte by byte, and a frame that is not decoded is skipped whole.
unfoldable pub receive : AddressSize → Bool → ℕ → List ℕ → List ℕ → Result (Frame × List ℕ × List ℕ)
unfolding readexactly
receive size valid zero bs stream = err stuck
receive size valid (suc fuel) bs stream = elim (get_next_frame_size size bs) [
  | err _ ↦ receive size valid fuel (drop 1 bs) stream
  | ok n ↦ elim (ltb (length bs) n) [
    | true ↦ do
      (more, stream') ← readexactly (n - length bs) stream
      receive size valid fuel (bs ++ more) stream'
    | false ↦ elim (decode size valid (take n bs)) [
      | ok msg ↦ ok (msg, drop n bs, stream)
      | err _ ↦ receive size valid fuel (drop n bs) stream
    ]
  ]
]

-- The bytes that `send` writes to the serial line
unfoldable pub send : AddressSize → Bool → Frame → Result (List ℕ)
send size valid msg = encode size valid msg

-- Rounds that are enough: each of them takes a byte off the stream or off the data.
abbrev pub enough : List ℕ → List ℕ → ℕ
enough bs stream = suc (length bs + 2 * length stream)

-- A size is never 0, and an empty buffer has a size.
size-positive :
    (size : AddressSize) (bs : List ℕ) {n : ℕ} → get_next_frame_size size bs ≡ ok n → 1 ≤ n
unfolding get_next_frame_size variable_size
size-positive size [] e = ground arith
size-positive size (x ∷ bs) {n} e = ground arith

nonempty :
    (size : AddressSize) (bs : List ℕ) {x : Exn}
    → get_next_frame_size size bs ≡ err x
    → 1 ≤ length bs
unfolding get_next_frame_size
nonempty size [] e = cc
nonempty size (y ∷ bs) e = omega arith

module _ (size : AddressSize) (valid : Bool) (fuel : ℕ) (bs stream : List ℕ) where
  pub receive_skip :
      {x : Exn}
      → get_next_frame_size size bs ≡ err x
      → receive size valid (suc fuel) bs stream ≡ receive size valid fuel (drop 1 bs) stream
  unfolding receive
  receive_skip e = rw (receive, e)

  pub receive_more :
      {n : ℕ}
      → get_next_frame_size size bs ≡ ok n
      → ltb (length bs) n ≡ true
      → ltb (length stream) (n - length bs) ≡ false
      → receive size valid (suc fuel) bs stream
        ≡ receive size valid fuel (bs ++ take (n - length bs) stream) (drop (n - length bs) stream)
  unfolding receive readexactly
  receive_more e t l = rw (receive, e, t, l)

  pub receive_end :
      {n : ℕ}
      → get_next_frame_size size bs ≡ ok n
      → ltb (length bs) n ≡ true
      → ltb (length stream) (n - length bs) ≡ true
      → receive size valid (suc fuel) bs stream ≡ err connection_error
  unfolding receive readexactly
  receive_end e t l = rw (receive, e, t, l)

  pub receive_refused :
      {n : ℕ} {x : Exn}
      → get_next_frame_size size bs ≡ ok n
      → ltb (length bs) n ≡ false
      → decode size valid (take n bs) ≡ err x
      → receive size valid (suc fuel) bs stream ≡ receive size valid fuel (drop n bs) stream
  unfolding receive
  receive_refused e t d = rw (receive, e, t, d)

  pub receive_done :
      {n : ℕ} {frame : Frame}
      → get_next_frame_size size bs ≡ ok n
      → ltb (length bs) n ≡ false
      → decode size valid (take n bs) ≡ ok frame
      → receive size valid (suc fuel) bs stream ≡ ok (frame, drop n bs, stream)
  unfolding receive
  receive_done e t d = rw (receive, e, t, d)

-- Whatever the data and the stream are, `enough` rounds are enough: `receive` never runs out of them.
pub receive-ne-stuck :
    (size : AddressSize) (valid : Bool) (fuel : ℕ) (bs stream : List ℕ)
    → enough bs stream ≤ fuel
    → receive size valid fuel bs stream ≢ err stuck
receive-ne-stuck size valid zero bs stream h e = omega arith
receive-ne-stuck size valid (suc fuel) bs stream h e =
    elim (Result-cases (get_next_frame_size size bs)) [
      | inr (x, r) ↦
          receive-ne-stuck size valid fuel (drop 1 bs) stream
            (omega (arith, h, nonempty size bs r, length-drop {0} 1 bs))
            (sym (receive_skip size valid fuel bs stream r) ∙ e)
      | inl (n, r) ↦ elim (Bool-cases (ltb (length bs) n)) [
        | inl t ↦
            let m = n - length bs in
            elim (Bool-cases (ltb (length stream) m)) [
              | inl l ↦ ground (arith, receive_end size valid fuel bs stream r t l)
              | inr l ↦
                  let k : m ≤ length stream = ground arith in
                  let p : length bs < n = ltb→lt (length bs) n t in
                  receive-ne-stuck size valid fuel (bs ++ take m stream) (drop m stream)
                    (omega (
                      arith,
                      h,
                      p,
                      k,
                      length-append {0} bs (take m stream),
                      length-take {0} m stream,
                      length-drop {0} m stream,
                    ))
                    (sym (receive_more size valid fuel bs stream r t l) ∙ e)
            ]
        | inr t ↦ elim (Result-cases (decode size valid (take n bs))) [
          | inl (frame, d) ↦ ground (arith, receive_done size valid fuel bs stream r t d)
          | inr (x, d) ↦
              let k : n ≤ length bs = ground arith in
              receive-ne-stuck size valid fuel (drop n bs) stream
                (omega (arith, h, k, size-positive size bs r, length-drop {0} n bs))
                (sym (receive_refused size valid fuel bs stream r t d) ∙ e)
        ]
      ]
    ]
