-- ===== src/Mqtt/Properties/Entry.antt =====
-- One property with a value that stands once, in `_encode_props` and `_decode_props`.
use hat_drivers.Base.{ℕ, zero, suc, ◌≤◌, ◌≡◌, refl, ap, ◌∙◌, arith, List, [], ◌∷◌, ◌++◌}
use hat_drivers.Base.{length, length-append, All, All-append, Bool, true, false, not, ◌&&◌}
use hat_drivers.Base.{ok}
use hat_drivers.Base.Bytes.{IsByte}
use mathlib.Core.List.{append_assoc}
use hat_drivers.Mqtt.Primitives.{decode_uintvar}
use hat_drivers.Mqtt.Properties.{PropertyType, property_value, Kind, kind, Value, Props}
use hat_drivers.Mqtt.Properties.{decode_value, mentions, has, is_repeated, decode_entries}
use hat_drivers.Mqtt.Properties.{encode_prop, encode_single}
use hat_drivers.Mqtt.Properties.{
  flag_kind, uint16_kind, positive16_kind, uint32_kind, positive32_kind,
}
use hat_drivers.Mqtt.Properties.{string_kind, binary_kind, qos_kind}
use hat_drivers.Mqtt.Properties.{number, text, binary, quality}
use hat_drivers.Mqtt.Properties.Steps.{
  FitsSingle, value-Reads, property-of_value, code-Reads, image-positive,
}
use hat_drivers.Mqtt.Properties.Steps.{add_prop-new, round}

-- What `_decode_props` does with the bytes of a property: it adds the property and reads on.
pub record Entry (valid : List PropertyType) (t : PropertyType) (v : Value) : Type 0 where
  pub image : List ℕ
  pub writes : encode_prop (property_value t) (kind t) v ≡ ok image
  pub are_bytes : All IsByte image
  pub run :
      (fuel : ℕ) (props : Props) (more : List ℕ)
      → has props t ≡ false
      → length (image ++ more) ≤ fuel
      → (f : ℕ) × (length more ≤ f)
        × (decode_entries fuel valid props (image ++ more)
            ≡ decode_entries f valid (props ++ (t, v) ∷ []) more)

single-kind :
    (code : ℕ) (k : Kind) (v : Value)
    → FitsSingle k v
    → (is_repeated k ≡ false) × (encode_prop code k v ≡ encode_single code k v)
unfolding is_repeated encode_prop
single-kind code flag_kind (number n) h = (refl, refl)
single-kind code uint16_kind (number n) h = (refl, refl)
single-kind code positive16_kind (number n) h = (refl, refl)
single-kind code uint32_kind (number n) h = (refl, refl)
single-kind code positive32_kind (number n) h = (refl, refl)
single-kind code string_kind (text s) h = (refl, refl)
single-kind code binary_kind (binary bs) h = (refl, refl)
single-kind code qos_kind (quality q) h = (refl, refl)
single-kind code _ _ h = absurd h

absent : (b c : Bool) → b ≡ false → (b && c) ≡ false
absent b c h = ground (arith, h)

pub and_false : (b : Bool) → (b && not true) ≡ false
and_false true = refl
and_false false = refl

pub single_run :
    (valid : List PropertyType) (t : PropertyType) (v : Value) (head body : List ℕ)
    → mentions t valid ≡ true
    → 1 ≤ length head
    → ((rest : List ℕ) → decode_uintvar (head ++ rest) ≡ ok (property_value t, rest))
    → ((rest : List ℕ) → decode_value (kind t) (body ++ rest) ≡ ok (v, rest))
    → (fuel : ℕ) (props : Props) (more : List ℕ) → has props t ≡ false
    → length ((head ++ body) ++ more) ≤ fuel
    → (f : ℕ) × (length more ≤ f)
      × (decode_entries fuel valid props ((head ++ body) ++ more)
          ≡ decode_entries f valid (props ++ (t, v) ∷ []) more)
single_run valid t v head body m p a b zero props more h l =
    absurd (omega (arith, length-append {0} (head ++ body) more, length-append {0} head body))
single_run valid t v head body m p a b (suc fuel) props more h l = (
  fuel,
  omega (arith, length-append {0} (head ++ body) more, length-append {0} head body),
  rw (append_assoc head body more) (
      round fuel valid props (head ++ (body ++ more)) (a (body ++ more)) (property-of_value t) m
        (absent (has props t) (not (is_repeated (kind t))) h) (b more)
      ∙ ap (λ q. decode_entries fuel valid q more) (add_prop-new t v props h)),
)

pub single-Entry :
    (valid : List PropertyType) (t : PropertyType) (v : Value)
    → mentions t valid ≡ true
    → FitsSingle (kind t) v
    → Entry valid t v
unfolding encode_single
single-Entry valid t v m h =
    let c = code-Reads t in
    let r = value-Reads (kind t) v h in
    record {
      image = c.image ++ r.image;
      writes = (single-kind (property_value t) (kind t) v h).1 ∙ rw (c.writes, r.writes);
      are_bytes = All-append IsByte c.image r.image c.are_bytes r.are_bytes;
      run = single_run valid t v c.image r.image m (image-positive c) c.reads r.reads;
    }
