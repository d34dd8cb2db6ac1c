-- ===== src/Base/Outcome.antt =====
-- What a Python function does: it returns a value or raises an exception.
use mathlib.Core.Path.{◌≡◌, refl}
use mathlib.Core.Bool.{Bool, true, false}
use mathlib.Core.Logic.{◌⊎◌, inl, inr, ◌≢◌}
use hat_drivers.Base.Tests.{if◌then◌else◌}

-- The classes of exceptions that the modelled code raises or lets through. `plain` is `Exception`
-- itself. The three of MQTT are `MqttError` with that reason. `stuck` is no exception of Python: a loop of the model ran out of rounds.
pub data Exn : Type 0 where
  plain value_error index_error overflow_error struct_error type_error connection_error : Exn
  attribute_error stuck : Exn
  mqtt_malformed_packet mqtt_protocol_error mqtt_unsupported_version : Exn

pub data Result {ℓ} (A : Type ℓ) : Type ℓ where
  ok : A → Result A
  err : Exn → Result A

pub Result-cases {ℓ} :
    {A : Type ℓ} (r : Result A) → ((a : A) × (r ≡ ok a)) ⊎ ((e : Exn) × (r ≡ err e))
Result-cases (ok a) = inl (a, refl)
Result-cases (err e) = inr (e, refl)

infixl 5 ◌>>=◌ ◌>>◌
abbrev pub ◌>>=◌ {ℓ κ} : {A : Type ℓ} {B : Type κ} (m : Result A) (f : A → Result B) → Result B
err e >>= f = err e
ok a >>= f = f a

-- `if not b: raise e`
abbrev pub guard : Bool → Exn → Result (Unit {0})
guard b e = elim b [ true ↦ ok tt | false ↦ err e ]

-- A step whose value is not used
abbrev pub ◌>>◌ {ℓ} : {B : Type ℓ} (m : Result (Unit {0})) (k : Result B) → Result B
m >> k = m >>= λ _. k

-- A chain of steps none of which runs out of rounds does not either.
pub >>=-ne-stuck {ℓ κ} :
    {A : Type ℓ} {B : Type κ} (m : Result A) (f : A → Result B)
    → m ≢ err stuck
    → ((a : A) → f a ≢ err stuck)
    → (m >>= f) ≢ err stuck
>>=-ne-stuck (ok a) f h k e = k a e
>>=-ne-stuck (err plain) f h k e = cc
>>=-ne-stuck (err value_error) f h k e = cc
>>=-ne-stuck (err index_error) f h k e = cc
>>=-ne-stuck (err overflow_error) f h k e = cc
>>=-ne-stuck (err struct_error) f h k e = cc
>>=-ne-stuck (err type_error) f h k e = cc
>>=-ne-stuck (err connection_error) f h k e = cc
>>=-ne-stuck (err attribute_error) f h k e = cc
>>=-ne-stuck (err mqtt_malformed_packet) f h k e = cc
>>=-ne-stuck (err mqtt_protocol_error) f h k e = cc
>>=-ne-stuck (err mqtt_unsupported_version) f h k e = cc
>>=-ne-stuck (err stuck) f h k e = h refl

-- A chain of tests for the values of an enumeration
pub known {ℓ} :
    {A : Type ℓ} (b : Bool) (a : A) {r : Result A}
    → r ≢ err stuck
    → (if b then ok a else r) ≢ err stuck
known true a h e = cc
known false a h e = h e

pub refused {ℓ} : {A : Type ℓ} (e : Exn) → e ≢ stuck → ◌≢◌ {A = Result A} (err e) (err stuck)
refused e h k = h (cc)
