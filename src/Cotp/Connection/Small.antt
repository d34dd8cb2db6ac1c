-- ===== src/Cotp/Connection/Small.antt =====
-- A peer that asks for TPDUs of 1 or 2 bytes, and the send loop with such a size.
use hat_drivers.Base.{
  ℕ, zero, suc, ◌≤◌, ◌<◌, ◌≡◌, refl, arith, List, [], ◌∷◌, length, length-take, length-drop,
}
use hat_drivers.Base.{take, drop, All, false, ltb, Bool-cases, ltb→lt, inl, inr, err, stuck}
use hat_drivers.Base.Bytes.{IsByte, All-take}
use hat_drivers.Cotp.Tpkt.{send_lem}
use hat_drivers.Cotp.Encoder.RoundTrip.{dt_image, encode_dt}
use hat_drivers.Base.{Option, none, some, ok, ◌==◌, ==→eq}
use hat_drivers.Cotp.Encoder.{Parameters, cr_tpdu, cc_tpdu, encode, bit_length, bits}
use hat_drivers.Cotp.Encoder.Fields.{IsWord, IsTsel, IsSize, IsParameters}
use hat_drivers.Cotp.Connection.Handshake.{encoded, or_else_idem}
use hat_drivers.Cotp.Connection.{is_empty, unit_size, send_data, Opened}
use hat_drivers.Cotp.Connection.{
  on_connection, accept_request, calculate_max_tpdu, calculate_cc_max_tpdu, truthy,
}
use hat_drivers.Cotp.Connection.Delivery.{All-drop}

unit_size-lt :
    (max_tpdu : ℕ) (bs : List ℕ) → max_tpdu ≤ 3 → 1 ≤ length bs → unit_size max_tpdu bs < length bs
unfolding unit_size
unit_size-lt max_tpdu bs h k = elim (Bool-cases (ltb max_tpdu 3)) [
  | inl e ↦ rw e (omega (arith, h, k, ltb→lt max_tpdu 3 e))
  | inr e ↦ rw e (omega (arith, h, k))
]

full : (bs : List ℕ) → 1 ≤ length bs → is_empty bs ≡ false
unfolding is_empty
full [] h = absurd (omega arith)
full (b ∷ bs) h = refl

-- With a size of 3 or less, no number of rounds is enough for 1 to 65528 bytes of data.
send_data_small :
    (max_tpdu fuel : ℕ) (bs : List ℕ)
    → max_tpdu ≤ 3
    → 1 ≤ length bs
    → length bs ≤ 0xfff8
    → All IsByte bs
    → send_data max_tpdu fuel bs ≡ err stuck
unfolding send_data
send_data_small max_tpdu fuel [] h k l hs = absurd (omega arith)
send_data_small max_tpdu zero (b ∷ bs) h k l hs = refl
send_data_small max_tpdu (suc fuel) (b ∷ bs) h k l hs =
    let m = unit_size max_tpdu (b ∷ bs) in
    let u : m < length (b ∷ bs) = unit_size-lt max_tpdu (b ∷ bs) h k in
    let left = drop m (b ∷ bs) in
    let single = take m (b ∷ bs) in
    let n : 1 ≤ length left = omega (arith, length-drop {0} m (b ∷ bs), u) in
    let s : length single ≤ 0xfff8 = omega (arith, length-take {0} m (b ∷ bs), l) in
    rw
      (
        full left n,
        encode_dt false single (All-take IsByte m (b ∷ bs) hs),
        send_lem (dt_image false single) (omega arith) (omega (arith, s)),
        send_data_small max_tpdu fuel left h n (omega (arith, length-drop {0} m (b ∷ bs), l))
            (All-drop m (b ∷ bs) hs),
      )
      refl

-- What the peer asks for
abbrev pub small_request : ℕ → Option ℕ → Option ℕ → Parameters
small_request size calling called = record {
  calling_tsel = calling;
  called_tsel = called;
  max_tpdu = some size;
  pref_max_tpdu = none;
}

small-IsSize : (size : ℕ) → 1 ≤ size → size ≤ 2 → IsSize (some size)
unfolding bit_length bits
small-IsSize zero h k = absurd (omega arith)
small-IsSize (suc zero) h k = (omega arith, omega arith, refl)
small-IsSize (suc (suc zero)) h k = (omega arith, omega arith, refl)
small-IsSize (suc (suc (suc n))) h k = absurd (omega arith)

-- A request with references and selectors of 16 bits and the size 1 or 2 has an encoding that the server
-- accepts: the connection gets that size, and with it the send loop of the server never ends, since no number
-- of rounds is enough for 1 to 65528 bytes of data.
pub on_connection-send_data :
    (src next_src size : ℕ) (calling called : Option ℕ) (fuel : ℕ) (bs : List ℕ)
    → IsWord src
    → IsWord next_src
    → IsTsel calling
    → IsTsel called
    → 1 ≤ size
    → size ≤ 2
    → 1 ≤ length bs
    → length bs ≤ 0xfff8
    → All IsByte bs
    → (request : List ℕ) × (response : List ℕ) × (opened : Opened) × (encode
          (cr_tpdu src 0 (small_request size calling called))
        ≡ ok request)
      × (on_connection next_src request ≡ ok (response, opened))
      × (opened.max_tpdu ≡ some size)
      × (send_data size fuel bs ≡ err stuck)
unfolding on_connection accept_request calculate_max_tpdu calculate_cc_max_tpdu truthy
on_connection-send_data src next_src size l r fuel bs h k a b c d m n hs =
    let p = small_request size l r in
    let i : IsParameters p = (a, b, small-IsSize size c d, refl) in
    let e = encoded (cr_tpdu src 0 p) (h, omega arith, i) in
    let f = encoded (cc_tpdu src next_src 0 p) (h, k, omega arith, i) in
    let z : (size == 0) ≡ false = ground (arith, ==→eq size 0) in
    (
      e.0,
      f.0,
      record { max_tpdu = some size; local_tsel = r; remote_tsel = l },
      e.1,
      rw (e.2) (rw z (rw (f.1) (rw (or_else_idem l, or_else_idem r) (rw z refl)))),
      refl,
      send_data_small size fuel bs (omega (arith, d)) m n hs,
    )
