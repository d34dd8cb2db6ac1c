-- ===== src/Cotp/Connection/Delivery.antt =====
-- Data that the send loop cuts into data units come back whole from the receive loop.
use hat_drivers.Base.{
  ℕ, zero, suc, ◌-◌, ◌≤◌, ◌<◌, ◌≡◌, ◌≢◌, refl, sym, ap, ◌∙◌, arith, List, [], ◌∷◌, ◌++◌,
}
use hat_drivers.Base.{
  le→not-ltb, length, length-append, length-take, length-drop, take, drop, take-append-drop, All,
  Bool, true, false,
}
use hat_drivers.Base.{some, ok, ◌>>=◌, ◌⊎◌, inl, inr}
use hat_drivers.Base.Bytes.{IsByte, All-take}
use mathlib.Core.List.{append_assoc, append-nil}
use hat_drivers.Cotp.Tpkt
use hat_drivers.Cotp.Tpkt.{packet, send_lem, read_packet-send}
use hat_drivers.Cotp.Encoder.RoundTrip.{dt_image, encode_dt, decode_dt}
use hat_drivers.Cotp.Connection.{is_empty, unit_size, send_data, receive_data}

pub All-drop : (n : ℕ) (xs : List ℕ) → All IsByte xs → All IsByte (drop n xs)
All-drop zero xs h = h
All-drop (suc n) [] h = tt
All-drop (suc n) (x ∷ xs) (h, hs) = All-drop n xs hs

empty_cases : (l : List ℕ) → (l ≡ []) ⊎ ((is_empty l ≡ false) × (l ≢ []))
unfolding is_empty
empty_cases [] = inl refl
empty_cases (b ∷ bs) = inr (refl, (λ e. cc))

reads_packet :
    (eot : Bool) (payload rest : List ℕ)
    → length payload ≤ 0xfff8
    → Tpkt.read_packet (packet (dt_image eot payload) ++ rest) ≡ ok (dt_image eot payload, rest)
reads_packet eot payload rest h =
    let image = dt_image eot payload in
    rw (send_lem image (omega arith) (omega (arith, h))) at
      (read_packet-send image rest (omega arith) (omega (arith, h)))

last_unit :
    (n : ℕ) (queue payload rest : List ℕ)
    → length payload ≤ 0xfff8
    → receive_data (suc n) queue (packet (dt_image true payload) ++ rest)
      ≡ ok (some (queue ++ payload), rest)
unfolding receive_data
last_unit n queue payload rest h =
    rw (receive_data, reads_packet true payload rest h, decode_dt true payload) refl

other_unit :
    (n : ℕ) (queue payload rest : List ℕ)
    → length payload ≤ 0xfff8
    → receive_data (suc n) queue (packet (dt_image false payload) ++ rest)
      ≡ receive_data n (queue ++ payload) rest
unfolding receive_data
other_unit n queue payload rest h =
    rw (receive_data, reads_packet false payload rest h, decode_dt false payload) refl

-- What the send loop writes for some data, and what the receive loop makes of it
record Sent (max_tpdu fuel : ℕ) (bs : List ℕ) : Type 0 where
  image : List ℕ
  writes : send_data max_tpdu fuel bs ≡ ok image
  delivers :
      (n : ℕ) (queue rest : List ℕ)
      → length image ≤ n
      → receive_data n queue (image ++ rest) ≡ ok (some (queue ++ bs), rest)

nothing : (max_tpdu fuel : ℕ) → send_data max_tpdu fuel [] ≡ ok []
unfolding send_data
nothing max_tpdu fuel = refl

unit_size_lem : (max_tpdu : ℕ) (bs : List ℕ) → 3 ≤ max_tpdu → unit_size max_tpdu bs ≡ max_tpdu - 3
unfolding unit_size
unit_size_lem max_tpdu bs h = rw (le→not-ltb max_tpdu 3 h) refl

one_round :
    (max_tpdu fuel b : ℕ) (bs : List ℕ) {eot : Bool} {more : List ℕ}
    → is_empty (drop (max_tpdu - 3) (b ∷ bs)) ≡ eot
    → All IsByte (b ∷ bs)
    → 3 < max_tpdu
    → max_tpdu ≤ 0xfffb
    → send_data max_tpdu fuel (drop (max_tpdu - 3) (b ∷ bs)) ≡ ok more
    → send_data max_tpdu (suc fuel) (b ∷ bs)
      ≡ ok (packet (dt_image eot (take (max_tpdu - 3) (b ∷ bs))) ++ more)
unfolding send_data
one_round max_tpdu fuel b bs {eot} {more} e hs h k w =
    let m = max_tpdu - 3 in
    let single = take m (b ∷ bs) in
    let l : length single ≤ 0xfff8 = omega (arith, length-take {0} m (b ∷ bs), k) in
    rw (unit_size_lem max_tpdu (b ∷ bs) (omega (arith, h))) (
      rw
        (
          e,
          encode_dt eot single (All-take IsByte m (b ∷ bs) hs),
          send_lem (dt_image eot single) (omega arith) (omega (arith, l)),
          w,
        )
        refl)

cut : (m : ℕ) (bs : List ℕ) → drop m bs ≡ [] → take m bs ≡ bs
cut m bs e =
    sym (append-nil (take m bs)) ∙ (ap (λ l. take m bs ++ l) (sym e) ∙ take-append-drop m bs)

empty_lem : is_empty [] ≡ true
unfolding is_empty
empty_lem = refl

last_of :
    (n : ℕ) (queue single bs rest : List ℕ)
    → length single ≤ 0xfff8
    → single ≡ bs
    → length (packet (dt_image true single) ++ []) ≤ n
    → receive_data n queue ((packet (dt_image true single) ++ []) ++ rest)
      ≡ ok (some (queue ++ bs), rest)
last_of zero queue single bs rest l e q = absurd (omega arith)
last_of (suc n) queue single bs rest l e q =
    ap (λ p. receive_data (suc n) queue (p ++ rest)) (append-nil (packet (dt_image true single)))
    ∙ (last_unit n queue single rest l ∙ ap (λ p. ok (some (queue ++ p), rest)) e)

other_of :
    (n : ℕ) (queue single left bs image rest : List ℕ)
    → length single ≤ 0xfff8
    → single ++ left ≡ bs
    → length (packet (dt_image false single) ++ image) ≤ n
    → ((n : ℕ) (queue rest : List ℕ)
        → length image ≤ n
        → receive_data n queue (image ++ rest) ≡ ok (some (queue ++ left), rest))
    → receive_data n queue ((packet (dt_image false single) ++ image) ++ rest)
      ≡ ok (some (queue ++ bs), rest)
other_of zero queue single left bs image rest l e q d = absurd (omega arith)
other_of (suc n) queue single left bs image rest l e q d =
    ap (λ p. receive_data (suc n) queue p)
      (append_assoc (packet (dt_image false single)) image rest)
    ∙ (other_unit n queue single (image ++ rest) l
        ∙ (d n (queue ++ single) rest (omega (arith, q, length-append {0} single image))
            ∙ ap (λ p. ok (some p, rest))
                (append_assoc queue single left ∙ ap (λ p. queue ++ p) e)))

send_data-Sent :
    (max_tpdu fuel : ℕ) (bs : List ℕ)
    → length bs ≤ fuel
    → bs ≢ []
    → All IsByte bs
    → 3 < max_tpdu
    → max_tpdu ≤ 0xfffb
    → Sent max_tpdu fuel bs
send_data-Sent max_tpdu fuel [] f ne hs h k = absurd (ne refl)
send_data-Sent max_tpdu zero (b ∷ bs) f ne hs h k = absurd (omega arith)
send_data-Sent max_tpdu (suc fuel) (b ∷ bs) f ne hs h k =
    let m = max_tpdu - 3 in
    let single = take m (b ∷ bs) in
    let left = drop m (b ∷ bs) in
    let l : length single ≤ 0xfff8 = omega (arith, length-take {0} m (b ∷ bs), k) in
    elim (empty_cases left) [
      | inl e ↦ record {
        image = packet (dt_image true single) ++ [];
        writes =
            one_round max_tpdu fuel b bs (ap is_empty e ∙ empty_lem) hs h k
              (ap (send_data max_tpdu fuel) e ∙ nothing max_tpdu fuel);
        delivers = λ n queue rest q. last_of n queue single (b ∷ bs) rest l (cut m (b ∷ bs) e) q;
      }
      | inr (e, nl) ↦
          let r =
            send_data-Sent max_tpdu fuel left (omega (arith, length-drop {0} m (b ∷ bs), f)) nl
              (All-drop m (b ∷ bs) hs) h k in
          record {
            image = packet (dt_image false single) ++ r.image;
            writes = one_round max_tpdu fuel b bs e hs h k r.writes;
            delivers = λ n queue rest q.
                other_of n queue single left (b ∷ bs) r.image rest l (take-append-drop m (b ∷ bs)) q
                  r.delivers;
          }
    ]

-- For a size of 4 to 65531 bytes and data that are not empty: the receive loop takes what the send loop
-- writes off the stream, however many data units that is, and hands on the same data, whole, with all that
-- follows them left in the stream. The length of the stream bounds the rounds of the loop.
pub receive_data-send_data :
    (max_tpdu : ℕ) (bs rest : List ℕ)
    → bs ≢ []
    → All IsByte bs
    → 3 < max_tpdu
    → max_tpdu ≤ 0xfffb
    → (send_data max_tpdu (length bs) bs >>= λ image.
        receive_data (length (image ++ rest)) [] (image ++ rest))
      ≡ ok (some bs, rest)
receive_data-send_data max_tpdu bs rest ne hs h k =
    let r = send_data-Sent max_tpdu (length bs) bs (omega arith) ne hs h k in
    rw (r.writes) (
      r.delivers (length (r.image ++ rest)) [] rest (omega (arith, length-append {0} r.image rest)))
