-- ===== src/Cotp/Tpkt.antt =====
-- `Connection` in src_py/hat/drivers/tpkt.py: packets with a header of four bytes.
use hat_drivers.Base.{
  ℕ, ◌+◌, ◌-◌, ◌*◌, ◌/◌, ◌%◌, ◌^◌, ◌≤◌, ◌≡◌, refl, ◌∙◌, arith, bit_and, bit_or, List, ◌∷◌, ◌++◌,
}
use hat_drivers.Base.{
  length, length-append, take-append, drop-append, not, ltb, le→not-ltb, ◌==◌, Result, ok, ◌>>=◌,
  ◌>>◌, guard,
}
use hat_drivers.Base.{false, plain, value_error}
use hat_drivers.Base.Bytes.{at}
use hat_drivers.Base.Bits.{bit_and_low, bit_or_shifted}
use hat_drivers.Base.Stream.{readexactly}

unfoldable pub send : List ℕ → Result (List ℕ)
send bs = do
  guard (not (ltb 0xfffb (length bs))) value_error
  guard (not (ltb (length bs) 3)) value_error
  let packet_length = length bs + 4
  ok (3 ∷ 0 ∷ (packet_length / 2 ^ 8) ∷ bit_and packet_length 0xff ∷ bs)

-- One round of `_read_loop`: the packet's data, and what stays in the stream
unfoldable pub read_packet : List ℕ → Result (List ℕ × List ℕ)
unfolding readexactly
read_packet stream = do
  (header, rest) ← readexactly 4 stream
  version ← at header 0
  guard (version == 3) plain
  high ← at header 2
  low ← at header 3
  let packet_length = bit_or (high * 2 ^ 8) low
  guard (not (ltb packet_length 7)) plain
  readexactly (packet_length - 4) rest

big : (n : ℕ) → n ≤ 0xffff → bit_or (n / 2 ^ 8 * 2 ^ 8) (bit_and n 0xff) ≡ n
big n h = rw (bit_and_low 8 n) (bit_or_shifted 8 (n / 256) (n % 256) (omega arith) ∙ omega arith)

abbrev pub packet : List ℕ → List ℕ
packet bs = 3 ∷ 0 ∷ ((length bs + 4) / 2 ^ 8) ∷ bit_and (length bs + 4) 0xff ∷ bs

pub send_lem : (bs : List ℕ) → 3 ≤ length bs → length bs ≤ 0xfffb → send bs ≡ ok (packet bs)
unfolding send
send_lem bs h k = rw (le→not-ltb 0xfffb (length bs) k, le→not-ltb (length bs) 3 h) refl

-- For 3 to 65531 bytes of data, a round of the read loop takes what `send` writes off the stream as the same
-- data, whatever follows it, and nothing more.
pub read_packet-send :
    (bs rest : List ℕ)
    → 3 ≤ length bs
    → length bs ≤ 0xfffb
    → (send bs >>= λ image. read_packet (image ++ rest)) ≡ ok (bs, rest)
unfolding send read_packet readexactly
read_packet-send bs rest h k =
    let n = length bs + 4 in
    let b : bit_or (n / 2 ^ 8 * 2 ^ 8) (bit_and n 0xff) ≡ n = big n (omega (arith, k)) in
    let m : n - 4 ≡ length bs = omega arith in
    let f : ltb (length (bs ++ rest)) (length bs) ≡ false =
      le→not-ltb _ _ (omega (arith, length-append {0} bs rest)) in
    let l : ltb (length (3 ∷ 0 ∷ (n / 2 ^ 8) ∷ bit_and n 0xff ∷ (bs ++ rest))) 4 ≡ false =
      le→not-ltb _ _ (omega arith) in
    rw (le→not-ltb 0xfffb (length bs) k, le→not-ltb (length bs) 3 h)
      (rw
        (
          l,
          b,
          le→not-ltb n 7 (omega (arith, h)),
          m,
          f,
          take-append (length bs) bs rest refl,
          drop-append (length bs) bs rest refl,
        )
        refl)
