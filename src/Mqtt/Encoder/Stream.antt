-- ===== src/Mqtt/Encoder/Stream.antt =====
-- `get_next_packet_size` on the fronts of a packet.
use hat_drivers.Base.{
  ℕ, zero, suc, ◌+◌, ◌-◌, ◌≤◌, ◌≡◌, ◌≢◌, refl, ap, ◌∙◌, arith, List, [], ◌∷◌, ◌++◌,
}
use hat_drivers.Base.{length, length-append, true, false, ok, ◌>>=◌, ◌⊎◌, inl, inr}
use hat_drivers.Base.Stream.{Asks}
use hat_drivers.Mqtt.Primitives.{decode_uintvar}
use hat_drivers.Mqtt.Primitives.Uintvar.{IsUintvar}
use hat_drivers.Mqtt.Encoder.{size_end, next_packet_size, get_next_packet_size}

size_end-all :
    (n i : ℕ) (bs rest : List ℕ)
    → IsUintvar n bs
    → size_end n i (bs ++ rest) ≡ ok (true, i + (length bs - 1))
unfolding size_end
size_end-all n i [] rest h = absurd h
size_end-all zero i (b ∷ bs) rest h = absurd h
size_end-all (suc n) i (b ∷ []) rest h = rw (size_end, h) (ap (λ k. ok (true, k)) (omega arith))
size_end-all (suc n) i (b ∷ c ∷ bs) rest h =
    rw (size_end, h.0)
      (size_end-all n (i + 1) (c ∷ bs) rest h.1 ∙ ap (λ k. ok (true, k)) (omega arith))

front_whole : (x b : ℕ) (a c : List ℕ) → x ∷ (a ++ c) ≡ b ∷ [] → c ≢ [] → ⊥
front_whole x b [] [] e ne = ne refl
front_whole x b [] (y ∷ c) e ne = cc
front_whole x b (y ∷ a) c e ne = cc

size_end-front :
    (n i : ℕ) (bs a c : List ℕ)
    → IsUintvar n bs
    → a ++ c ≡ bs
    → c ≢ []
    → size_end n i a ≡ ok (false, i + length a)
unfolding size_end
size_end-front n i [] a c h e ne = absurd h
size_end-front zero i (b ∷ bs) a c h e ne = absurd h
size_end-front (suc n) i (b ∷ bs) [] c h e ne = ap (λ k. ok (false, k)) (omega arith)
size_end-front (suc n) i (b ∷ []) (x ∷ a) c h e ne = absurd (front_whole x b a c e ne)
size_end-front (suc n) i (b ∷ d ∷ bs) (x ∷ a) c h e ne =
    let p : x ≡ b = cc in
    rw (size_end, p, h.0)
      (size_end-front n (i + 1) (d ∷ bs) a c h.1 (cc) ne ∙ ap (λ k. ok (false, k)) (omega arith))

-- A front of two lists ends in the first, or holds it.
fronts :
    (us vs a b : List ℕ)
    → a ++ b ≡ us ++ vs
    → ((c : List ℕ) × (c ≢ []) × (a ++ c ≡ us)) ⊎ ((c : List ℕ) × (a ≡ us ++ c) × (c ++ b ≡ vs))
fronts [] vs a b e = inr (a, refl, e)
fronts (u ∷ us) vs [] b e = inl (u ∷ us, (λ h. cc), refl)
fronts (u ∷ us) vs (x ∷ a) b e = elim (fronts us vs a b (cc)) [
  | inl (c, h, k) ↦ inl (c, h, cc)
  | inr (c, h, k) ↦ inr (c, cc, k)
]

-- The bytes of a number of variable length `n`, and what they are read as
pub record Sized (size_bytes : List ℕ) (n : ℕ) : Type 0 where
  pub is_uintvar : IsUintvar 4 size_bytes
  pub reads : (rest : List ℕ) → decode_uintvar (size_bytes ++ rest) ≡ ok (n, rest)

next_size :
    (head : ℕ) (bs : List ℕ)
    → bs ≢ []
    → get_next_packet_size (head ∷ bs) ≡ (size_end 4 0 bs >>= next_packet_size bs)
unfolding get_next_packet_size
next_size head [] h = absurd (h refl)
next_size head (b ∷ bs) h = refl

uintvar-positive : (bs : List ℕ) → IsUintvar 4 bs → 1 ≤ length bs
uintvar-positive [] h = absurd h
uintvar-positive (b ∷ bs) h = omega arith

uintvar-ne : (bs rest : List ℕ) → IsUintvar 4 bs → bs ++ rest ≢ []
uintvar-ne [] rest h = absurd h
uintvar-ne (b ∷ bs) rest h = λ e. cc

nonempty-length : (b : List ℕ) → b ≢ [] → 1 ≤ length b
nonempty-length [] h = absurd (h refl)
nonempty-length (x ∷ b) h = omega arith

-- From its number of variable length on, a front of a packet tells the packet's size.
pub size_known :
    (head n : ℕ) (size_bytes rest : List ℕ)
    → Sized size_bytes n
    → get_next_packet_size (head ∷ (size_bytes ++ rest)) ≡ ok (1 + length size_bytes + n)
unfolding next_packet_size
size_known head n size_bytes rest h =
    next_size head (size_bytes ++ rest) (uintvar-ne size_bytes rest h.is_uintvar)
    ∙ rw (size_end-all 4 0 size_bytes rest h.is_uintvar, h.reads rest)
        (ap ok (omega (arith, uintvar-positive size_bytes h.is_uintvar)))

pub front-Asks :
    (head n : ℕ) (size_bytes body a b : List ℕ)
    → Sized size_bytes n
    → length body ≡ n
    → a ++ b ≡ head ∷ (size_bytes ++ body)
    → b ≢ []
    → Asks get_next_packet_size (λ n. Unit {0}) a b
unfolding get_next_packet_size next_packet_size
front-Asks head n size_bytes body [] b h l e ne = record {
  wanted = 2;
  answer = refl;
  more = omega arith;
  within = omega (
    arith,
    ap (λ (l : List ℕ). length l) e,
    length-append {0} size_bytes body,
    uintvar-positive size_bytes h.is_uintvar,
  );
  stops = tt;
}
front-Asks head n size_bytes body (x ∷ []) b h l e ne = record {
  wanted = 2;
  answer = refl;
  more = omega arith;
  within = omega (arith, nonempty-length b ne);
  stops = tt;
}
front-Asks head n size_bytes body (x ∷ y ∷ a) b h l e ne =
    let tail : (y ∷ a) ++ b ≡ size_bytes ++ body = cc in
    elim (fronts size_bytes body (y ∷ a) b tail) [
      | inl (c, nc, k) ↦ record {
        wanted = length (x ∷ y ∷ a) + 1;
        answer =
            rw (size_end-front 4 0 size_bytes (y ∷ a) c h.is_uintvar k nc) (ap ok (omega arith));
        more = omega arith;
        within = omega (arith, nonempty-length b ne);
        stops = tt;
      }
      | inr (c, k, m) ↦ record {
        wanted = 1 + length size_bytes + n;
        answer =
            ap (λ (l : List ℕ). get_next_packet_size (x ∷ l)) k ∙ size_known x n size_bytes c h;
        more = omega (
          arith,
          ap (λ (l : List ℕ). length l) k,
          ap (λ (l : List ℕ). length l) m,
          l,
          length-append {0} size_bytes c,
          length-append {0} c b,
          nonempty-length b ne,
        );
        within = omega (
          arith,
          ap (λ (l : List ℕ). length l) k,
          ap (λ (l : List ℕ). length l) m,
          l,
          length-append {0} size_bytes c,
          length-append {0} c b,
        );
        stops = tt;
      }
    ]
