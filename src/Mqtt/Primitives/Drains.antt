-- ===== src/Mqtt/Primitives/Drains.antt =====
-- Decoders that never run out of rounds, and how much they take.
use hat_drivers.Base.{ℕ, zero, suc, ◌+◌, ◌≤◌, ◌*◌, ◌^◌, ◌≡◌, ◌≢◌, refl, ap, arith, bit_and, bit_or}
use hat_drivers.Base.{
  List, [], ◌∷◌, length, take, drop, length-drop, Bool, true, false, ◌==◌, Exn, stuck,
  mqtt_malformed_packet, mqtt_protocol_error,
}
use hat_drivers.Base.{
  Result, ok, err, ◌>>=◌, ◌>>◌, guard, Result-cases, Bool-cases, inl, inr, >>=-ne-stuck,
}
use hat_drivers.Mqtt.Primitives.{
  decode_uint8, decode_uint16, decode_uint32, uintvar_from, decode_uintvar,
}
use hat_drivers.Mqtt.Primitives.{decode_binary, decode_string, decode_all}

-- On the bytes `bs` a decoder has rounds enough, and what it leaves is shorter by `n` at least.
pub record Drains {ℓ} {A : Type ℓ} (n : ℕ) (bs : List ℕ) (r : Result (A × List ℕ)) : Type ℓ where
  pub ends : r ≢ err stuck
  pub takes : (a : A) (rest : List ℕ) → r ≡ ok (a, rest) → length rest + n ≤ length bs

pub err-Drains {ℓ} :
    {A : Type ℓ} (n : ℕ) (bs : List ℕ) (e : Exn) → e ≢ stuck → Drains {A = A} n bs (err e)
err-Drains n bs e h = record { ends = λ k. h (cc); takes = λ a rest k. absurd (cc) }

pub ok-Drains {ℓ} :
    {A : Type ℓ} (n : ℕ) (bs : List ℕ) (a : A) (rest : List ℕ)
    → length rest + n ≤ length bs
    → Drains n bs (ok (a, rest))
ok-Drains n bs a rest h = record {
  ends = λ k. cc;
  takes =
      λ b rest' k. let e : rest ≡ rest' = cc in omega (arith, h, ap (λ (l : List ℕ). length l) e);
}

pub zero-Drains {ℓ} :
    {A : Type ℓ} (n : ℕ) {bs : List ℕ} {r : Result (A × List ℕ)} → Drains n bs r → Drains 0 bs r
zero-Drains n d = record { ends = d.ends; takes = λ a rest e. omega (arith, d.takes a rest e) }

pub then-Drains {ℓ κ} :
    {A : Type ℓ} {B : Type κ} {n : ℕ} {bs : List ℕ} (r : Result (A × List ℕ))
    (next : A × List ℕ → Result (B × List ℕ))
    → Drains n bs r
    → ((a : A) (rest : List ℕ) → Drains 0 rest (next (a, rest)))
    → Drains n bs (r >>= next)
then-Drains (ok (a, rest)) next d k = record {
  ends = (k a rest).ends;
  takes = λ b rest' e. omega (arith, d.takes a rest refl, (k a rest).takes b rest' e);
}
then-Drains (err e) next d k = record { ends = λ h. d.ends (cc); takes = λ b rest h. absurd (cc) }

-- A step that reads nothing
pub step-Drains {ℓ κ} :
    {A : Type ℓ} {B : Type κ} {n : ℕ} {bs : List ℕ} (m : Result A) (next : A → Result (B × List ℕ))
    → m ≢ err stuck
    → ((a : A) → Drains n bs (next a))
    → Drains n bs (m >>= next)
step-Drains (ok a) next h k = k a
step-Drains (err e) next h k = record { ends = λ q. h (cc); takes = λ b rest q. absurd (cc) }

pub guard-Drains {ℓ} :
    {B : Type ℓ} {n : ℕ} {bs : List ℕ} (b : Bool) (e : Exn) {r : Result (B × List ℕ)}
    → e ≢ stuck
    → Drains n bs r
    → Drains n bs (guard b e >> r)
guard-Drains true e h k = k
guard-Drains {n = n} {bs = bs} false e h k = err-Drains n bs e h

pub malformed-ne-stuck : mqtt_malformed_packet ≢ stuck
malformed-ne-stuck e = cc

pub protocol-ne-stuck : mqtt_protocol_error ≢ stuck
protocol-ne-stuck e = cc

pub uint8-Drains : (bs : List ℕ) → Drains 1 bs (decode_uint8 bs)
unfolding decode_uint8
uint8-Drains [] = err-Drains 1 [] _ (λ e. cc)
uint8-Drains (a ∷ rest) = ok-Drains 1 (a ∷ rest) a rest (omega arith)

pub uint16-Drains : (bs : List ℕ) → Drains 1 bs (decode_uint16 bs)
unfolding decode_uint16
uint16-Drains [] = err-Drains 1 [] _ (λ e. cc)
uint16-Drains (a ∷ []) = err-Drains 1 (a ∷ []) _ (λ e. cc)
uint16-Drains (a ∷ b ∷ rest) = ok-Drains 1 (a ∷ b ∷ rest) _ rest (omega arith)

pub uint32-Drains : (bs : List ℕ) → Drains 1 bs (decode_uint32 bs)
unfolding decode_uint32
uint32-Drains [] = err-Drains 1 [] _ (λ e. cc)
uint32-Drains (a ∷ []) = err-Drains 1 (a ∷ []) _ (λ e. cc)
uint32-Drains (a ∷ b ∷ []) = err-Drains 1 (a ∷ b ∷ []) _ (λ e. cc)
uint32-Drains (a ∷ b ∷ c ∷ []) = err-Drains 1 (a ∷ b ∷ c ∷ []) _ (λ e. cc)
uint32-Drains (a ∷ b ∷ c ∷ d ∷ rest) = ok-Drains 1 (a ∷ b ∷ c ∷ d ∷ rest) _ rest (omega arith)

longer :
    {A : Type 0} (n b : ℕ) {bs : List ℕ} {r : Result (A × List ℕ)}
    → Drains n bs r
    → Drains n (b ∷ bs) r
longer n b d = record { ends = d.ends; takes = λ a rest e. omega (arith, d.takes a rest e) }

uintvar_from-Drains : (n i v : ℕ) (bs : List ℕ) → Drains 1 bs (uintvar_from n i v bs)
unfolding uintvar_from
uintvar_from-Drains zero i v bs = err-Drains 1 bs _ (λ e. cc)
uintvar_from-Drains (suc n) i v [] = err-Drains 1 [] _ (λ e. cc)
uintvar_from-Drains (suc n) i v (b ∷ bs) = elim (Bool-cases (bit_and b 0x80 == 0)) [
  | inl t ↦ rw (uintvar_from, t) (ok-Drains 1 (b ∷ bs) _ bs (omega arith))
  | inr t ↦
      rw (uintvar_from, t)
        (longer 1 b (uintvar_from-Drains n (i + 1) (bit_or v (bit_and b 0x7f * 2 ^ (i * 7))) bs))
]

pub uintvar-Drains : (bs : List ℕ) → Drains 1 bs (decode_uintvar bs)
unfolding decode_uintvar
uintvar-Drains bs = uintvar_from-Drains 4 0 0 bs

cut-Drains : (n : ℕ) (bs : List ℕ) → Drains 0 bs (ok (take n bs, drop n bs))
cut-Drains n bs = ok-Drains 0 bs _ (drop n bs) (omega (arith, length-drop {0} n bs))

pub binary-Drains : (bs : List ℕ) → Drains 1 bs (decode_binary bs)
unfolding decode_binary
binary-Drains bs =
    then-Drains (decode_uint16 bs) _ (uint16-Drains bs)
      (λ n rest. guard-Drains _ mqtt_malformed_packet malformed-ne-stuck (cut-Drains n rest))

pub string-Drains : (bs : List ℕ) → Drains 1 bs (decode_string bs)
unfolding decode_string
string-Drains bs = then-Drains (decode_uint16 bs) _ (uint16-Drains bs) (λ n rest.
    guard-Drains _ mqtt_malformed_packet malformed-ne-stuck
      (guard-Drains _ mqtt_malformed_packet malformed-ne-stuck (cut-Drains n rest)))

-- A loop over items of a byte at least has rounds enough.
pub decode_all-ne-stuck :
    {A : Type 0} (read : List ℕ → Result (A × List ℕ)) (fuel : ℕ) (bs : List ℕ)
    → ((bs : List ℕ) → Drains 1 bs (read bs))
    → length bs ≤ fuel
    → decode_all read fuel bs ≢ err stuck
unfolding decode_all
decode_all-ne-stuck read fuel [] d h = λ e. cc
decode_all-ne-stuck read zero (b ∷ bs) d h = absurd (omega arith)
decode_all-ne-stuck read (suc fuel) (b ∷ bs) d h = elim (Result-cases (read (b ∷ bs))) [
  | inl ((a, rest), r) ↦ rw (r) (
      >>=-ne-stuck (decode_all read fuel rest) _
        (decode_all-ne-stuck read fuel rest d (omega (arith, h, (d (b ∷ bs)).takes a rest r)))
        (λ items e. cc))
  | inr (x, r) ↦ rw (r) (λ e. (d (b ∷ bs)).ends (cc))
]
