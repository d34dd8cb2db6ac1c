-- ===== src/Link/Endpoint/Delivery.antt =====
-- A frame that one endpoint sends is what the other receives.
use hat_drivers.Base.{ℕ, zero, suc, ◌+◌, ◌-◌, ◌<◌, ◌≡◌, ◌≢◌, refl, sym, ap, ◌∙◌, arith, List, []}
use hat_drivers.Base.{
  ◌∷◌, ◌++◌, length, length-append, length-drop, take, drop, take_all, drop_all, ltb,
}
use hat_drivers.Base.{take-append_of_le, drop-append_of_le, take-append-drop, le→not-ltb, lt→ltb}
use hat_drivers.Base.{false, Bool, ok, ◌>>=◌, ==-refl}
use hat_drivers.Base.Stream.{Asks}
use mathlib.Core.List.{append_assoc, append-nil}
use hat_drivers.Link.Common.{AddressSize, size_value, Frame, size_zero, size_one, size_two}
use hat_drivers.Link.Encoder.{get_next_frame_size, variable_size, decode, encode}
use hat_drivers.Link.Common.{short_frame, req_frame, res_frame}
use hat_drivers.Link.Encoder.{header}
use hat_drivers.Link.Encoder.RoundTrip.{IsFrame, items, body, tail, frame_image}
use hat_drivers.Link.Encoder.RoundTrip.{assemble-image, decode-image, short-image}
use hat_drivers.Link.Encoder.Control.{control_req_lem, control_res_lem}
use hat_drivers.Link.Endpoint.{send, enough, receive, receive_more, receive_done}

module _ (size : AddressSize) (valid : Bool) (frame : Frame) (img rest : List ℕ) where
  -- From any front of the frame on
  receive-front :
      (fuel : ℕ) (a b : List ℕ)
      → length b < fuel
      → a ++ b ≡ img
      → ((x y : List ℕ)
          → x ++ y ≡ img
          → y ≢ []
          → Asks (get_next_frame_size size) (λ n. Unit {0}) x y)
      → get_next_frame_size size img ≡ ok (length img)
      → decode size valid img ≡ ok frame
      → receive size valid fuel a (b ++ rest) ≡ ok (frame, [], rest)
  receive-front zero a b h e s w d = absurd (omega arith)
  receive-front (suc fuel) a [] h e s w d =
      let q : a ≡ img = sym (append-nil a) ∙ e in
      let t : ltb (length img) (length img) ≡ false = le→not-ltb _ _ (omega arith) in
      rw q (
        receive_done size valid fuel img rest w t (rw (take_all (length img) img (omega arith)) d)
        ∙ ap (λ x. ok (frame, x, rest)) (drop_all (length img) img (omega arith)))
  receive-front (suc fuel) a (z ∷ b) h e s w d =
      let ask = s a (z ∷ b) e (λ k. cc) in
      let m : ℕ = ask.wanted - length a in
      let front = take m (z ∷ b) in
      let back = drop m (z ∷ b) in
      let joined : (a ++ front) ++ back ≡ img =
        append_assoc a front back ∙ (ap (λ t. a ++ t) (take-append-drop m (z ∷ b)) ∙ e) in
      let l : ltb (length ((z ∷ b) ++ rest)) m ≡ false =
        le→not-ltb _ _ (omega (arith, ask.within, length-append {0} (z ∷ b) rest)) in
      receive_more size valid fuel a ((z ∷ b) ++ rest) ask.answer (lt→ltb _ _ ask.more) l
      ∙ (ap (λ t. receive size valid fuel (a ++ t) (drop m ((z ∷ b) ++ rest)))
            (take-append_of_le m (z ∷ b) rest (omega (arith, ask.within)))
          ∙ (ap (λ t. receive size valid fuel (a ++ front) t)
                (drop-append_of_le m (z ∷ b) rest (omega (arith, ask.within)))
              ∙ receive-front fuel (a ++ front) back
                  (omega (arith, length-drop {0} m (z ∷ b), ask.more)) joined s w d))

short-Asks :
    (size : AddressSize) (bs a b : List ℕ)
    → length bs ≡ 3 + size_value size
    → a ++ b ≡ 0x10 ∷ bs
    → b ≢ []
    → Asks (get_next_frame_size size) (λ n. Unit {0}) a b
unfolding get_next_frame_size
short-Asks size bs a [] l e ne = absurd (ne refl)
short-Asks size bs [] (z ∷ b) l e ne = record {
  wanted = 1;
  answer = refl;
  more = omega arith;
  within = omega arith;
  stops = tt;
}
short-Asks size bs (x ∷ a) (z ∷ b) l e ne = record {
  wanted = 4 + size_value size;
  answer = ground arith;
  more = omega (arith, l, ap length e, length-append {0} a (z ∷ b));
  within = omega (arith, l, ap length e, length-append {0} a (z ∷ b));
  stops = tt;
}

long-Asks :
    (size : AddressSize) (n : ℕ) (bs a b : List ℕ)
    → length bs ≡ n + 2
    → a ++ b ≡ 0x68 ∷ n ∷ n ∷ 0x68 ∷ bs
    → b ≢ []
    → Asks (get_next_frame_size size) (λ n. Unit {0}) a b
unfolding get_next_frame_size variable_size
long-Asks size n bs a [] l e ne = absurd (ne refl)
long-Asks size n bs [] (z ∷ b) l e ne = record {
  wanted = 1;
  answer = refl;
  more = omega arith;
  within = omega arith;
  stops = tt;
}
long-Asks size n bs (x ∷ []) (z ∷ b) l e ne = record {
  wanted = 4;
  answer = ground arith;
  more = omega arith;
  within = omega (arith, ap length e);
  stops = tt;
}
long-Asks size n bs (x ∷ x1 ∷ []) (z ∷ b) l e ne = record {
  wanted = 4;
  answer = ground arith;
  more = omega arith;
  within = omega (arith, ap length e);
  stops = tt;
}
long-Asks size n bs (x ∷ x1 ∷ x2 ∷ []) (z ∷ b) l e ne = record {
  wanted = 4;
  answer = ground arith;
  more = omega arith;
  within = omega (arith, ap length e);
  stops = tt;
}
long-Asks size n bs (x ∷ x1 ∷ x2 ∷ x3 ∷ a) (z ∷ b) l e ne = record {
  wanted = n + 6;
  answer = ground (arith, ==-refl n);
  more = omega (arith, l, ap length e, length-append {0} a (z ∷ b));
  within = omega (arith, l, ap length e, length-append {0} a (z ∷ b));
  stops = tt;
}

short-size :
    (size : AddressSize) (bs : List ℕ)
    → get_next_frame_size size (0x10 ∷ bs) ≡ ok (4 + size_value size)
unfolding get_next_frame_size
short-size size bs = refl

long-size :
    (size : AddressSize) (n : ℕ) (bs : List ℕ)
    → get_next_frame_size size (0x68 ∷ n ∷ n ∷ 0x68 ∷ bs) ≡ ok (n + 6)
unfolding get_next_frame_size variable_size
long-size size n bs = ground (arith, ==-refl n)

-- Bytes that are read as one frame
record Reads (size : AddressSize) (img : List ℕ) : Type 0 where
  asks :
      (a b : List ℕ) → a ++ b ≡ img → b ≢ [] → Asks (get_next_frame_size size) (λ n. Unit {0}) a b
  whole : get_next_frame_size size img ≡ ok (length img)

short-length : (size : AddressSize) (c a : ℕ) → length (body size c a []) ≡ 3 + size_value size
unfolding size_value
short-length size_zero c a = refl
short-length size_one c a = refl
short-length size_two c a = refl

reads :
    (size : AddressSize) (c a : ℕ) (payload : List ℕ) → Reads size (frame_image size c a payload)
unfolding header
reads size c a [] =
    let bs = body size c a [] in
    let l = short-length size c a in
    record {
      asks = λ x y e ne. short-Asks size bs x y l e ne;
      whole = short-size size bs ∙ ap ok (omega (arith, l));
    }
reads size c a (x ∷ xs) =
    let ys = items size c a (x ∷ xs) in
    let bs = body size c a (x ∷ xs) in
    let l : length bs ≡ length ys + 2 = omega (arith, length-append {0} ys (tail ys)) in
    record {
      asks = λ y z e ne. long-Asks size (length ys) bs y z l e ne;
      whole = long-size size (length ys) bs ∙ ap ok (omega (arith, l));
    }

single-Asks :
    (size : AddressSize) (a b : List ℕ)
    → a ++ b ≡ 0xE5 ∷ []
    → b ≢ []
    → Asks (get_next_frame_size size) (λ n. Unit {0}) a b
unfolding get_next_frame_size
single-Asks size a [] e ne = absurd (ne refl)
single-Asks size [] (z ∷ b) e ne = record {
  wanted = 1;
  answer = refl;
  more = omega arith;
  within = omega arith;
  stops = tt;
}
single-Asks size (x ∷ a) (z ∷ b) e ne =
    absurd (omega (arith, ap length e, length-append {0} a (z ∷ b)))

single-reads : (size : AddressSize) → Reads size (0xE5 ∷ [])
unfolding get_next_frame_size
single-reads size = record { asks = single-Asks size; whole = refl }

receive-reads :
    (size : AddressSize) (valid : Bool) (frame : Frame) (img rest : List ℕ)
    → Reads size img
    → decode size valid img ≡ ok frame
    → receive size valid (enough [] (img ++ rest)) [] (img ++ rest) ≡ ok (frame, [], rest)
receive-reads size valid frame img rest r d =
    receive-front size valid frame img rest (enough [] (img ++ rest)) [] img
      (omega (arith, length-append {0} img rest)) refl r.asks r.whole d

-- A frame that fits the link and that one endpoint sends is what the other receives, from an empty buffer
-- and with enough rounds, and it takes nothing more off the line, for every size of addresses, with and
-- without directions.
pub receive-send_frame :
    (size : AddressSize) (valid : Bool) (frame : Frame) (rest : List ℕ)
    → IsFrame size valid frame
    → (send size valid frame >>= λ bs. receive size valid (enough [] (bs ++ rest)) [] (bs ++ rest))
      ≡ ok (frame, [], rest)
unfolding send encode
receive-send_frame size valid short_frame rest h =
    receive-reads size valid short_frame (0xE5 ∷ []) rest (single-reads size)
      (short-image size valid [])
receive-send_frame size valid (req_frame d b v f a payload) rest h =
    let c = control_req_lem valid d b v f h.0 in
    let img = frame_image size c.value a payload in
    rw (c.made, assemble-image size c.value a payload c.fits h.1 h.2)
      (receive-reads size valid (req_frame d b v f a payload) img rest
        (reads size c.value a payload)
        (ap (decode size valid) (sym (append-nil img))
          ∙ (decode-image size valid c.value a payload [] h.1 ∙ c.shown a payload)))
receive-send_frame size valid (res_frame d b v f a payload) rest h =
    let c = control_res_lem valid d b v f h.0 in
    let img = frame_image size c.value a payload in
    rw (c.made, assemble-image size c.value a payload c.fits h.1 h.2)
      (receive-reads size valid (res_frame d b v f a payload) img rest
        (reads size c.value a payload)
        (ap (decode size valid) (sym (append-nil img))
          ∙ (decode-image size valid c.value a payload [] h.1 ∙ c.shown a payload)))
