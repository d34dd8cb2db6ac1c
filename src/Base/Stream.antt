-- ===== src/Base/Stream.antt =====
-- Reading from a byte stream: `readexactly` and the loop that asks an encoder how long the next
-- frame is until the buffer holds it. The stream is the list of bytes that the peer sends before
-- it closes the connection.
use hat_drivers.Base.Tests.{ltb, leb, if◌then◌else◌}
use hat_drivers.Base.Lists.{length, take, drop, length-append, length-take, length-drop}
use hat_drivers.Base.Lists.{take-append-drop, take-append_of_le, drop-append_of_le}
use hat_drivers.Base.Outcome.{connection_error, stuck, Result, ok, err, ◌>>=◌}
use hat_drivers.Base.Bytes.{at}
use Prim.Native.Nat.{ℕ, zero, suc, ◌+◌, ◌-◌, ◌≤◌, ◌<◌}
use mathlib.Core.Path.{◌≡◌, refl, sym, ap, subst, ◌∙◌}
use mathlib.Core.Logic.{◌≢◌}
use mathlib.Core.Bool.{true, false}
use mathlib.Core.List.{List, [], ◌∷◌, ◌++◌, append_assoc, append-nil}
use native.Mathlib.Omega.{arith}

-- A stream that ends too early raises `ConnectionError`.
unfoldable pub readexactly : ℕ → List ℕ → Result (List ℕ × List ℕ)
readexactly n stream =
    if ltb (length stream) n then err connection_error else ok (take n stream, drop n stream)

-- `while True: n = size(buff); if n <= len(buff): break; buff.extend(await read(n - len(buff)))`
unfoldable pub read_frame : (List ℕ → Result ℕ) → ℕ → List ℕ → List ℕ → Result (List ℕ × List ℕ)
read_frame size zero buff stream = err stuck
read_frame size (suc fuel) buff stream = do
  n ← size buff
  elim (leb n (length buff)) [
    | true ↦ ok (buff, stream)
    | false ↦ do
      (chunk, stream') ← readexactly (n - length buff) stream
      read_frame size fuel (buff ++ chunk) stream'
  ]

-- A round that is not the last one takes a byte at least, so the stream's length bounds the rounds.
abbrev pub rounds : List ℕ → ℕ
rounds stream = suc (length stream)

-- The buffer `p` has begun to read a frame of which `q` is still missing. `Stop` is a property of the
-- lengths at which the loop asks again.
pub record Asks (size : List ℕ → Result ℕ) (Stop : ℕ → Type 0) (p q : List ℕ) : Type 0 where
  pub wanted : ℕ
  pub answer : size p ≡ ok wanted
  pub more : length p < wanted
  pub within : wanted ≤ length p + length q
  pub stops : Stop wanted

module _ (size : List ℕ → Result ℕ) (fuel : ℕ) (p stream : List ℕ) {n : ℕ} (e : size p ≡ ok n) where
  read_frame_done : n ≤ length p → read_frame size (suc fuel) p stream ≡ ok (p, stream)
  unfolding read_frame
  read_frame_done h = ground arith

  read_frame_more :
      length p < n
      → n ≤ length p + length stream
      → read_frame size (suc fuel) p stream
        ≡ read_frame size fuel (p ++ take (n - length p) stream) (drop (n - length p) stream)
  unfolding read_frame readexactly
  read_frame_more h k = ground arith

regroup : (m : ℕ) (p q : List ℕ) → (p ++ take m q) ++ drop m q ≡ p ++ q
regroup m p q = append_assoc p (take m q) (drop m q) ∙ ap (λ t. p ++ t) (take-append-drop m q)

reached : (m : ℕ) (p q : List ℕ) → m ≤ length q → length (p ++ take m q) ≡ length p + m
reached m p q h = omega (arith, length-append {0} p (take m q), length-take {0} m q)

read_frame_more_append :
    (size : List ℕ → Result ℕ) (fuel : ℕ) (p q rest : List ℕ) {n : ℕ}
    → size p ≡ ok n
    → length p < n
    → n ≤ length p + length q
    → let m = n - length p in
      read_frame size (suc fuel) p (q ++ rest)
      ≡ read_frame size fuel (p ++ take m q) (drop m q ++ rest)
read_frame_more_append size fuel p q rest {n} e h k =
    rw (← take-append_of_le (n - length p) q rest (omega arith)) (
      rw (← drop-append_of_le (n - length p) q rest (omega arith))
        (read_frame_more size fuel p (q ++ rest) e h (omega (arith, length-append {0} q rest))))

-- If every front of a frame that the loop stops at asks for more bytes, and for none beyond the frame,
-- then the loop returns the frame and leaves what follows it.
module _ (size : List ℕ → Result ℕ) (Stop : ℕ → Type 0) (rest : List ℕ) where
  pub read_frame-append :
      (fuel : ℕ) (p q : List ℕ) {n : ℕ}
      → length q < fuel
      → ((a b : List ℕ) → a ++ b ≡ p ++ q → b ≢ [] → Stop (length a) → Asks size Stop a b)
      → Stop (length p)
      → size (p ++ q) ≡ ok n
      → n ≤ length (p ++ q)
      → read_frame size fuel p (q ++ rest) ≡ ok (p ++ q, rest)
  read_frame-append zero p q hf hs hp hw hn = absurd (omega arith)
  read_frame-append (suc fuel) p [] hf hs hp hw hn =
      read_frame_done size fuel p rest (rw (append-nil p) at hw) (rw (append-nil p) at hn)
      ∙ rw append-nil
  read_frame-append (suc fuel) p (x ∷ xs) {n} hf hs hp hw hn =
      let ask = hs p (x ∷ xs) refl (λ e. cc) hp in
      let m : ℕ = ask.wanted - length p in
      let front = take m (x ∷ xs) in
      let back = drop m (x ∷ xs) in
      let joined : (p ++ front) ++ back ≡ p ++ x ∷ xs = regroup m p (x ∷ xs) in
      read_frame_more_append size fuel p (x ∷ xs) rest ask.answer ask.more ask.within
      ∙ read_frame-append fuel (p ++ front) back {n = n}
          (omega (arith, length-drop {0} m (x ∷ xs), ask.more)) (λ a b e. hs a b (e ∙ joined))
          (subst Stop
            (sym (reached m p (x ∷ xs) (omega (arith, ask.within)) ∙ omega (arith, ask.more)))
            ask.stops)
          (rw joined hw) (rw joined hn)
      ∙ ap (λ t. ok (t, rest)) joined

-- The loop never runs out of rounds.
pub read_frame-ne-stuck :
    (size : List ℕ → Result ℕ)
    → ((b : List ℕ) → size b ≢ err stuck)
    → (fuel : ℕ) (p stream : List ℕ) → length stream < fuel
    → read_frame size fuel p stream ≢ err stuck
unfolding read_frame readexactly
read_frame-ne-stuck size total zero p stream h r = absurd (omega arith)
read_frame-ne-stuck size total (suc fuel) p stream h r = grind (
  arith,
  total p,
  λ (n : ℕ).
      read_frame-ne-stuck size total fuel (p ++ take (n - length p) stream)
        (drop (n - length p) stream),
  length-drop,
)

pub at-append_of_lt : (xs ys : List ℕ) (i : ℕ) → i < length xs → at (xs ++ ys) i ≡ at xs i
at-append_of_lt [] ys i h = absurd (omega arith)
at-append_of_lt (x ∷ xs) ys zero h = refl
at-append_of_lt (x ∷ xs) ys (suc i) h = at-append_of_lt xs ys i (omega arith)

pub at-append : (xs ys : List ℕ) (y : ℕ) → at (xs ++ (y ∷ ys)) (length xs) ≡ ok y
at-append [] ys y = refl
at-append (x ∷ xs) ys y = at-append xs ys y
