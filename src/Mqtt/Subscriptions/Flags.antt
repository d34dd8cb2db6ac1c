-- ===== src/Mqtt/Subscriptions/Flags.antt =====
-- The flags `no_local` and `retain_as_published` of a subscription, which `_encode_subscription` writes in
-- other bits than those that `_decode_subscription` reads.
use hat_drivers.Base.{
  ℕ, ◌≡◌, refl, List, [], ◌∷◌, ◌++◌, Bool, true, false, ◌==◌, ◌/◌, ◌^◌, bit_and, arith,
}
use hat_drivers.Base.{ok, err, ◌>>=◌, value_error, mqtt_protocol_error}
use mathlib.Core.List.{append_assoc}
use hat_drivers.Mqtt.Common.{QoS, qos_value, to_qos, RetainHandling}
use hat_drivers.Mqtt.Common.{retain_handling_value, to_retain_handling, Subscription}
use hat_drivers.Mqtt.Primitives.{decode_uint8}
use hat_drivers.Mqtt.Primitives.RoundTrip.{IsText, text-Reads}
use hat_drivers.Mqtt.Fields.{instead}
use hat_drivers.Mqtt.Subscriptions.{subscription_byte, encode_subscription, decode_subscription}

no_local-qos :
    (q : QoS) (retain_as_published : Bool) (r : RetainHandling)
    → to_qos (bit_and (subscription_byte q true retain_as_published r) 0x03) ≡ err value_error
unfolding subscription_byte qos_value retain_handling_value to_qos
no_local-qos q retain_as_published r = ground arith

published-qos :
    (q : QoS) (r : RetainHandling) → to_qos (bit_and (subscription_byte q false true r) 0x03) ≡ ok q
unfolding subscription_byte qos_value retain_handling_value to_qos
published-qos q r = ground arith

published-retain_handling :
    (q : QoS) (r : RetainHandling)
    → to_retain_handling (bit_and (subscription_byte q false true r / 2 ^ 4) 0x03) ≡ ok r
unfolding subscription_byte qos_value retain_handling_value to_retain_handling
published-retain_handling q r = ground arith

published-no_local :
    (q : QoS) (r : RetainHandling) → (bit_and (subscription_byte q false true r) 0x04 == 0) ≡ false
unfolding subscription_byte qos_value retain_handling_value
published-no_local q r = ground arith

published-published :
    (q : QoS) (r : RetainHandling) → (bit_and (subscription_byte q false true r) 0x08 == 0) ≡ true
unfolding subscription_byte qos_value retain_handling_value
published-published q r = ground arith

-- A subscription with `no_local`, whatever its other options are and whatever follows it, is written as
-- bytes that `_decode_subscription` refuses as a protocol error.
pub decode_subscription-no_local :
    (s : Subscription) (rest : List ℕ)
    → IsText s.topic_filter
    → s.no_local ≡ true
    → (encode_subscription s >>= λ bs. decode_subscription (bs ++ rest)) ≡ err mqtt_protocol_error
unfolding encode_subscription decode_subscription decode_uint8 instead
decode_subscription-no_local s rest h e =
    let t = text-Reads s.topic_filter h in
    let b = subscription_byte s.maximum_qos s.no_local s.retain_as_published s.retain_handling in
    let q = no_local-qos s.maximum_qos s.retain_as_published s.retain_handling in
    rw (t.writes) (rw (append_assoc t.image (b ∷ []) rest, t.reads (b ∷ rest)) (simp (e, q) refl))

-- A subscription with `retain_as_published` and without `no_local` comes back with `no_local` and without
-- `retain_as_published`; all else is the same.
pub decode_subscription-retain_as_published :
    (s : Subscription) (rest : List ℕ)
    → IsText s.topic_filter
    → s.no_local ≡ false
    → s.retain_as_published ≡ true
    → (encode_subscription s >>= λ bs. decode_subscription (bs ++ rest))
      ≡ ok (record s { no_local = true; retain_as_published = false }, rest)
unfolding encode_subscription decode_subscription decode_uint8 instead
decode_subscription-retain_as_published s rest h e f =
    let t = text-Reads s.topic_filter h in
    let b = subscription_byte s.maximum_qos s.no_local s.retain_as_published s.retain_handling in
    let q = s.maximum_qos in
    let r = s.retain_handling in
    rw (t.writes) (
      rw (append_assoc t.image (b ∷ []) rest, t.reads (b ∷ rest))
        (simp
          (
            e,
            f,
            published-qos q r,
            published-retain_handling q r,
            published-no_local q r,
            published-published q r,
          )
          refl))
