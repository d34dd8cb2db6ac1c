-- ===== src/Mqtt/Properties/Steps.antt =====
-- One property: its bytes, and the rounds of `_decode_props` that read them.
use hat_drivers.Base.{ℕ, suc, ◌≤◌, ◌<◌, ◌≡◌, ◌≢◌, refl, arith, List, [], ◌∷◌, ◌++◌}
use hat_drivers.Base.{length, true, false, not, ◌==◌, ◌&&◌, ◌||◌, ==-refl}
use hat_drivers.Base.{Result, ok, Bool-cases, inl, inr}
use hat_drivers.Mqtt.Common.{at_most_once, at_least_once, exactly_once, qos_value}
use hat_drivers.Mqtt.Primitives.{encode_uintvar, decode_uintvar}
use hat_drivers.Mqtt.Primitives.RoundTrip.{
  Reads, uint8-Reads, uint16-Reads, uint32-Reads, uintvar-Reads,
}
use hat_drivers.Mqtt.Primitives.RoundTrip.{text-Reads, binary-Reads, IsText, IsBinary}
use hat_drivers.Mqtt.Properties.{
  PropertyType, property_value, to_property, Kind, kind, Value, number,
}
use hat_drivers.Mqtt.Properties.{text, binary, quality, Props, encode_value}
use hat_drivers.Mqtt.Properties.{
  is_exactly_once, decode_maximum_qos, decode_value, same_type, mentions,
}
use hat_drivers.Mqtt.Properties.{has, join, add_prop, is_repeated, decode_entries}
use hat_drivers.Mqtt.Properties.{
  flag_kind, uint16_kind, positive16_kind, uint32_kind, positive32_kind,
}
use hat_drivers.Mqtt.Properties.{string_kind, binary_kind, qos_kind}
use hat_drivers.Mqtt.Properties.{payload_format_indicator}

-- Values that fit a property that stands once
abbrev pub FitsSingle : Kind → Value → Type 0
FitsSingle flag_kind (number n) = n ≤ 1
FitsSingle uint16_kind (number n) = n ≤ 0xffff
FitsSingle positive16_kind (number n) = (0 < n) × (n ≤ 0xffff)
FitsSingle uint32_kind (number n) = n ≤ 0xffffffff
FitsSingle positive32_kind (number n) = (0 < n) × (n ≤ 0xffffffff)
FitsSingle string_kind (text s) = IsText s
FitsSingle binary_kind (binary bs) = IsBinary bs
FitsSingle qos_kind (quality q) = is_exactly_once q ≡ false
FitsSingle _ _ = ⊥

pub not_zero : (n : ℕ) → 0 < n → (n == 0) ≡ false
not_zero n h = ground arith

pub value-Reads :
    (k : Kind) (v : Value) → FitsSingle k v → Reads (encode_value k v) (decode_value k) v
unfolding encode_value decode_value decode_maximum_qos is_exactly_once qos_value
value-Reads flag_kind (number n) h =
    let r = uint8-Reads n (omega arith) in
    let f : ((n == 0) || (n == 1)) ≡ true = ground arith in
    record {
      image = r.image;
      writes = rw f (r.writes);
      reads = λ rest. rw (r.reads rest, f);
      are_bytes = r.are_bytes;
    }
value-Reads uint16_kind (number n) h =
    let r = uint16-Reads n h in
    record {
      image = r.image;
      writes = r.writes;
      reads = λ rest. rw (r.reads rest);
      are_bytes = r.are_bytes;
    }
value-Reads positive16_kind (number n) h =
    let r = uint16-Reads n h.1 in
    record {
      image = r.image;
      writes = rw (not_zero n h.0) (r.writes);
      reads = λ rest. rw (r.reads rest, not_zero n h.0);
      are_bytes = r.are_bytes;
    }
value-Reads uint32_kind (number n) h =
    let r = uint32-Reads n h in
    record {
      image = r.image;
      writes = r.writes;
      reads = λ rest. rw (r.reads rest);
      are_bytes = r.are_bytes;
    }
value-Reads positive32_kind (number n) h =
    let r = uint32-Reads n h.1 in
    record {
      image = r.image;
      writes = rw (not_zero n h.0) (r.writes);
      reads = λ rest. rw (r.reads rest, not_zero n h.0);
      are_bytes = r.are_bytes;
    }
value-Reads string_kind (text s) h =
    let r = text-Reads s h in
    record {
      image = r.image;
      writes = r.writes;
      reads = λ rest. rw (r.reads rest);
      are_bytes = r.are_bytes;
    }
value-Reads binary_kind (binary bs) h =
    let r = binary-Reads bs h in
    record {
      image = r.image;
      writes = r.writes;
      reads = λ rest. rw (r.reads rest);
      are_bytes = r.are_bytes;
    }
value-Reads qos_kind (quality at_most_once) h =
    let r = uint8-Reads 0 (omega arith) in
    record {
      image = r.image;
      writes = r.writes;
      reads = λ rest. rw (r.reads rest);
      are_bytes = r.are_bytes;
    }
value-Reads qos_kind (quality at_least_once) h =
    let r = uint8-Reads 1 (omega arith) in
    record {
      image = r.image;
      writes = r.writes;
      reads = λ rest. rw (r.reads rest);
      are_bytes = r.are_bytes;
    }
value-Reads qos_kind (quality exactly_once) h = absurd (ground arith)
value-Reads _ _ h = absurd h

pub property-of_value : (t : PropertyType) → to_property (property_value t) ≡ ok t
unfolding to_property property_value
property-of_value payload_format_indicator = refl
property-of_value _ = refl

code-le : (t : PropertyType) → property_value t ≤ 0x0fffffff
unfolding property_value
code-le payload_format_indicator = omega arith
code-le _ = omega arith

pub code-Reads :
    (t : PropertyType) → Reads (encode_uintvar (property_value t)) decode_uintvar (property_value t)
code-Reads t = uintvar-Reads (property_value t) (code-le t)

-- A number of variable length has a byte at least.
read-positive : (bs : List ℕ) {n : ℕ} → decode_uintvar (bs ++ []) ≡ ok (n, []) → 1 ≤ length bs
unfolding decode_uintvar
read-positive [] e = cc
read-positive (b ∷ bs) e = omega arith

pub image-positive :
    {w : Result (List ℕ)} {n : ℕ} (r : Reads w decode_uintvar n) → 1 ≤ length r.image
image-positive r = read-positive r.image (r.reads [])

pub same_refl : (t : PropertyType) → same_type t t ≡ true
unfolding same_type
same_refl t = ==-refl (property_value t)

-- A new property goes to the end.
pub add_prop-new :
    (t : PropertyType) (v : Value) (props : Props)
    → has props t ≡ false
    → add_prop t v props ≡ props ++ (t, v) ∷ []
unfolding add_prop has
add_prop-new t v [] h = refl
add_prop-new t v ((u, w) ∷ props) h = elim (Bool-cases (same_type t u)) [
  | inl e ↦ ground (arith, e)
  | inr e ↦ ground (arith, e, add_prop-new t v props)
]

-- A property that is there already keeps its place.
pub add_prop-last :
    (t : PropertyType) (v w : Value) (props : Props)
    → has props t ≡ false
    → add_prop t v (props ++ (t, w) ∷ []) ≡ props ++ (t, join w v) ∷ []
unfolding add_prop has
add_prop-last t v w [] h = rw (same_refl t)
add_prop-last t v w ((u, x) ∷ props) h = elim (Bool-cases (same_type t u)) [
  | inl e ↦ ground (arith, e)
  | inr e ↦ ground (arith, e, add_prop-last t v w props)
]

no_data : {r : ℕ × List ℕ} → decode_uintvar [] ≢ ok r
unfolding decode_uintvar
no_data e = cc

-- One round
pub round :
    (fuel : ℕ) (valid : List PropertyType) (props : Props) (bs : List ℕ) {code : ℕ} {rest : List ℕ}
    {t : PropertyType} {v : Value} {rest' : List ℕ}
    → decode_uintvar bs ≡ ok (code, rest)
    → to_property code ≡ ok t
    → mentions t valid ≡ true
    → (has props t && not (is_repeated (kind t))) ≡ false
    → decode_value (kind t) rest ≡ ok (v, rest')
    → decode_entries (suc fuel) valid props bs
      ≡ decode_entries fuel valid (add_prop t v props) rest'
unfolding decode_entries
round fuel valid props [] a b c d e = absurd (no_data a)
round fuel valid props (x ∷ bs) a b c d e = rw (a) (rw (b) (rw (c, d, e)))
