-- ===== src/Mqtt/Fields.antt =====
-- What the encoders of packets in src_py/hat/drivers/mqtt/transport/encoder.py put into `props`, what
-- the decoders take from it by `props.get`, and the reason codes.
use hat_drivers.Base.{
  ℕ, ◌≤◌, ◌≡◌, refl, arith, List, [], ◌∷◌, Bool, true, false, not, ◌==◌, if◌then◌else◌,
}
use hat_drivers.Base.{
  Option, none, some, Result, ok, err, Bool-cases, inl, inr, ==→eq, mqtt_malformed_packet,
}
use hat_drivers.Base.{Exn, value_error, ◌>>=◌}
use hat_drivers.Mqtt.Common.{
  Text, QoS, at_most_once, at_least_once, exactly_once, Reason, reason_value, to_reason,
}
use hat_drivers.Mqtt.Common
use hat_drivers.Mqtt.Primitives.RoundTrip.{Reads}
use hat_drivers.Mqtt.Properties.{Value, number, text, binary, quality, identifiers, text_pairs}

-- `if value is not None: props[...] = value`
unfoldable pub optional_number : Option ℕ → Option Value
optional_number none = none
optional_number (some n) = some (number n)

unfoldable pub optional_text : Option Text → Option Value
optional_text none = none
optional_text (some s) = some (text s)

unfoldable pub optional_binary : Option (List ℕ) → Option Value
optional_binary none = none
optional_binary (some bs) = some (binary bs)

-- `if value != default: props[...] = value`
unfoldable pub unless : ℕ → ℕ → Option Value
unless default n = if n == default then none else some (number n)

unfoldable pub unless_exactly_once : QoS → Option Value
unless_exactly_once exactly_once = none
unless_exactly_once q = some (quality q)

-- `if test: props[...] = value`
unfoldable pub when : Bool → ℕ → Option Value
when true n = some (number n)
when false n = none

-- `if user_properties: props[...] = user_properties`
unfoldable pub nonempty_pairs : List (Text × Text) → Option Value
nonempty_pairs [] = none
nonempty_pairs (p ∷ pairs) = some (text_pairs (p ∷ pairs))

-- `props.get(...)`; a property carries no value of another kind.
unfoldable pub as_number : Option Value → Option ℕ
as_number (some (number n)) = some n
as_number _ = none

unfoldable pub as_text : Option Value → Option Text
as_text (some (text s)) = some s
as_text _ = none

unfoldable pub as_binary : Option Value → Option (List ℕ)
as_binary (some (binary bs)) = some bs
as_binary _ = none

-- `props.get(..., default)`
unfoldable pub number_or : ℕ → Option Value → ℕ
number_or default (some (number n)) = n
number_or default _ = default

unfoldable pub quality_or : QoS → Option Value → QoS
quality_or default (some (quality q)) = q
quality_or default _ = default

unfoldable pub as_pairs : Option Value → List (Text × Text)
as_pairs (some (text_pairs pairs)) = pairs
as_pairs _ = []

unfoldable pub as_identifiers : Option Value → List ℕ
as_identifiers (some (identifiers numbers)) = numbers
as_identifiers _ = []

-- `bool(props.get(..., default))`
unfoldable pub flag_or : ℕ → Option Value → Bool
unfolding number_or
flag_or default v = not (number_or default v == 0)

-- `except ValueError: raise e`
unfoldable pub instead {ℓ} : {A : Type ℓ} → Exn → Result A → Result A
instead e (ok a) = ok a
instead e (err value_error) = err e
instead e (err other) = err other

-- `if value is None: raise e`
unfoldable pub required {ℓ} : {A : Type ℓ} → Exn → Option A → Result A
required e none = err e
required e (some a) = ok a

unfoldable pub is_some {ℓ} : {A : Type ℓ} → Option A → Bool
is_some none = false
is_some (some a) = true

unfoldable pub is_empty {ℓ} : {A : Type ℓ} → List A → Bool
is_empty [] = true
is_empty (a ∷ items) = false

-- `if value is not None: yield from write(value)`
unfoldable pub encode_optional : {A : Type 0} → (A → Result (List ℕ)) → Option A → Result (List ℕ)
encode_optional write none = ok []
encode_optional write (some a) = write a

-- `if flag: value, data = read(data)`, else `None`
unfoldable pub decode_optional :
    {A : Type 0} → Bool → (List ℕ → Result (A × List ℕ)) → List ℕ → Result (Option A × List ℕ)
decode_optional false read bs = ok (none, bs)
decode_optional true read bs = do (a, rest) ← read bs; ok (some a, rest)

abbrev pub AllOption {ℓ} : {A : Type 0} → (A → Type ℓ) → Option A → Type ℓ
AllOption P none = Unit {ℓ}
AllOption P (some a) = P a

pub optional-Reads :
    {A : Type 0} (write : A → Result (List ℕ)) (read : List ℕ → Result (A × List ℕ)) (o : Option A)
    → AllOption (λ a. Reads (write a) read a) o
    → Reads (encode_optional write o) (decode_optional (is_some o) read) o
unfolding encode_optional decode_optional is_some
optional-Reads write read none h = record {
  image = [];
  writes = refl;
  reads = λ rest. refl;
  are_bytes = tt;
}
optional-Reads write read (some a) h = record {
  image = h.image;
  writes = h.writes;
  reads = λ rest. rw (h.reads rest) refl;
  are_bytes = h.are_bytes;
}

pub as_number-optional_number : (o : Option ℕ) → as_number (optional_number o) ≡ o
unfolding as_number optional_number
as_number-optional_number none = refl
as_number-optional_number (some n) = refl

pub as_text-optional_text : (o : Option Text) → as_text (optional_text o) ≡ o
unfolding as_text optional_text
as_text-optional_text none = refl
as_text-optional_text (some s) = refl

pub as_binary-optional_binary : (o : Option (List ℕ)) → as_binary (optional_binary o) ≡ o
unfolding as_binary optional_binary
as_binary-optional_binary none = refl
as_binary-optional_binary (some bs) = refl

pub number_or-unless : (default n : ℕ) → number_or default (unless default n) ≡ n
unfolding number_or unless
number_or-unless default n = elim (Bool-cases (n == default)) [
  | inl e ↦ rw e (omega (arith, ==→eq n default e))
  | inr e ↦ rw e refl
]

pub quality_or-unless_exactly_once : (q : QoS) → quality_or exactly_once (unless_exactly_once q) ≡ q
unfolding quality_or unless_exactly_once
quality_or-unless_exactly_once at_most_once = refl
quality_or-unless_exactly_once at_least_once = refl
quality_or-unless_exactly_once exactly_once = refl

pub flag_or-when : (b : Bool) → flag_or 0 (when b 1) ≡ b
unfolding flag_or when number_or
flag_or-when true = refl
flag_or-when false = refl

pub flag_or-when-not : (b : Bool) → flag_or 1 (when (not b) 0) ≡ b
unfolding flag_or when number_or
flag_or-when-not true = refl
flag_or-when-not false = refl

pub as_pairs-nonempty_pairs : (pairs : List (Text × Text)) → as_pairs (nonempty_pairs pairs) ≡ pairs
unfolding as_pairs nonempty_pairs
as_pairs-nonempty_pairs [] = refl
as_pairs-nonempty_pairs (p ∷ pairs) = refl

unfoldable pub encode_reason : Reason → Result (List ℕ)
encode_reason reason = ok (reason_value reason ∷ [])

unfoldable pub decode_reason : List ℕ → Result (Reason × List ℕ)
unfolding instead
decode_reason [] = err mqtt_malformed_packet
decode_reason (b ∷ rest) = do
  reason ← instead mqtt_malformed_packet (to_reason b)
  ok (reason, rest)

to_reason-value : (reason : Reason) → to_reason (reason_value reason) ≡ ok reason
unfolding to_reason reason_value
to_reason-value Common.success = refl
to_reason-value _ = refl

reason-le : (reason : Reason) → reason_value reason ≤ 255
unfolding reason_value
reason-le Common.success = omega arith
reason-le _ = omega arith

pub reason-Reads : (reason : Reason) → Reads (encode_reason reason) decode_reason reason
unfolding encode_reason decode_reason instead
reason-Reads reason = record {
  image = reason_value reason ∷ [];
  writes = refl;
  reads = λ rest. rw (to_reason-value reason) refl;
  are_bytes = (omega (arith, reason-le reason), tt);
}
