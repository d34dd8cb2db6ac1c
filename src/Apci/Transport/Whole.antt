-- ===== src/Apci/Transport/Whole.antt =====
-- The loop of `Transport.read` in src_py/hat/drivers/iec60870/apci/transport.py, against a description
-- without a loop.
use hat_drivers.Base.{ℕ, suc, ◌≤◌, ◌<◌, ◌≡◌, ◌≢◌, refl, arith, List, [], ◌∷◌, length, take, drop}
use hat_drivers.Base.{Result, ok, err, ◌>>=◌, ◌>>◌, guard, plain, connection_error, ◌==◌, ltb, not}
use hat_drivers.Base.{Bool-cases, inl, inr, ==→eq, eq→==, ltb→lt, lt→ltb, length-take}
use hat_drivers.Base.Stream.{read_frame, readexactly}
use hat_drivers.Apci.Encoder.{Apdu, get_next_apdu_size, decode}
use hat_drivers.Apci.Transport.{read}

-- A start byte, the number of bytes that follow, and these bytes, taken at once
unfoldable pub read_whole : List ℕ → Result (Apdu × List ℕ)
read_whole (start ∷ size ∷ fields) = do
  guard (start == 0x68) plain
  guard (not (ltb size 4)) plain
  guard (not (ltb (length fields) size)) connection_error
  apdu ← decode (start ∷ size ∷ take size fields)
  ok (apdu, drop size fields)
read_whole stream = err connection_error

-- The loop on a stream with two bytes or more, for any number of further rounds
frame_whole :
    (fuel start size : ℕ) (fields : List ℕ)
    → start ≡ 0x68
    → 4 ≤ size
    → size ≤ length fields
    → read_frame get_next_apdu_size (suc (suc (suc fuel))) [] (start ∷ size ∷ fields)
      ≡ ok (start ∷ size ∷ take size fields, drop size fields)
unfolding read_frame readexactly get_next_apdu_size
frame_whole fuel start size fields e h k = ground (arith, length-take {0} size fields)

frame_start :
    (fuel start size : ℕ) (fields : List ℕ)
    → start ≢ 0x68
    → read_frame get_next_apdu_size (suc (suc (suc fuel))) [] (start ∷ size ∷ fields) ≡ err plain
unfolding read_frame readexactly get_next_apdu_size
frame_start fuel start size fields e = ground arith

frame_size :
    (fuel start size : ℕ) (fields : List ℕ)
    → start ≡ 0x68
    → size < 4
    → read_frame get_next_apdu_size (suc (suc (suc fuel))) [] (start ∷ size ∷ fields) ≡ err plain
unfolding read_frame readexactly get_next_apdu_size
frame_size fuel start size fields e h = ground arith

frame_short :
    (fuel start size : ℕ) (fields : List ℕ)
    → start ≡ 0x68
    → 4 ≤ size
    → length fields < size
    → read_frame get_next_apdu_size (suc (suc (suc fuel))) [] (start ∷ size ∷ fields)
      ≡ err connection_error
unfolding read_frame readexactly get_next_apdu_size
frame_short fuel start size fields e h k = ground arith

-- With fewer than two bytes the connection ends before the size is known.
frame_none : read_frame get_next_apdu_size 1 [] [] ≡ err connection_error
unfolding read_frame readexactly get_next_apdu_size
frame_none = refl

frame_one : (start : ℕ) → read_frame get_next_apdu_size 2 [] (start ∷ []) ≡ err connection_error
unfolding read_frame readexactly get_next_apdu_size
frame_one start = refl

-- On every stream `read` gives the same as a read of the whole APDU at once: two bytes give the start and
-- the size, a start other than 0x68 or a size below 4 is an error, a stream that ends before these two
-- bytes or before as many more as the size says is a connection error, and else exactly these bytes are
-- decoded and taken.
pub read-read_whole : (stream : List ℕ) → read stream ≡ read_whole stream
unfolding read read_whole
read-read_whole [] = rw frame_none refl
read-read_whole (start ∷ []) = rw (frame_one start) refl
read-read_whole (start ∷ size ∷ fields) = elim (Bool-cases (start == 0x68)) [
  | inr e ↦
      rw (e, frame_start (length fields) start size fields (ground (arith, e, eq→== start 0x68)))
        refl
  | inl e ↦
      let s = ==→eq start 0x68 e in
      elim (Bool-cases (ltb size 4)) [
        | inl h ↦ rw (e, h, frame_size (length fields) start size fields s (ltb→lt size 4 h)) refl
        | inr h ↦
            let n : 4 ≤ size = ground (arith, h, lt→ltb size 4) in
            elim (Bool-cases (ltb (length fields) size)) [
              | inl k ↦
                  rw
                    (
                      e,
                      h,
                      k,
                      frame_short (length fields) start size fields s n
                          (ltb→lt (length fields) size k),
                    )
                    refl
              | inr k ↦
                  rw
                    (
                      e,
                      h,
                      k,
                      frame_whole (length fields) start size fields s n
                          (ground (arith, k, lt→ltb (length fields) size)),
                    )
                    refl
            ]
      ]
]
