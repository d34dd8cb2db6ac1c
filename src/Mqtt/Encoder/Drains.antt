-- ===== src/Mqtt/Encoder/Drains.antt =====
-- The decoders of acknowledgements, subscriptions and session packets end on all data.
use hat_drivers.Base.{
  plain, value_error, index_error, overflow_error, struct_error, type_error, connection_error,
}
use hat_drivers.Base.{
  mqtt_unsupported_version, attribute_error, stuck, Exn, ◌≢◌, refl, known, refused, arith,
}
use hat_drivers.Base.{
  ℕ, List, [], ◌∷◌, Bool, not, ◌==◌, Option, none, some, Result, ok, err, ◌>>=◌, ◌>>◌, guard,
  length, true, false,
}
use hat_drivers.Base.{
  plain, attribute_error, mqtt_protocol_error, mqtt_malformed_packet, mqtt_unsupported_version,
}
use hat_drivers.Mqtt.Common.{to_qos, to_retain_handling}
use hat_drivers.Mqtt.Primitives.{decode_uint8, decode_uint16, decode_string, decode_all}
use hat_drivers.Mqtt.Properties.{decode_props}
use hat_drivers.Mqtt.Fields.{decode_reason, required, instead, is_empty, decode_optional}
use hat_drivers.Mqtt.Primitives.Drains.{
  Drains, err-Drains, ok-Drains, then-Drains, step-Drains, guard-Drains, zero-Drains,
  malformed-ne-stuck, protocol-ne-stuck, decode_all-ne-stuck,
}
use hat_drivers.Mqtt.Primitives.Drains.{uint8-Drains, uint16-Drains, string-Drains}
use hat_drivers.Mqtt.Properties.Total.{props-Drains, whole-Drains}
use hat_drivers.Mqtt.Common.{to_reason}
use hat_drivers.Mqtt.Acks.{
  decode_puback_packet, decode_pubrec_packet, decode_pubrel_packet, decode_pubcomp_packet,
}
use hat_drivers.Mqtt.Session.{decode_disconnect_packet, decode_auth_packet}
use hat_drivers.Mqtt.Subscriptions.{
  decode_subscription, only_identifier, decode_subscribe_packet, decode_suback_packet,
  decode_unsubscribe_packet, decode_unsuback_packet,
}

value_error-ne-stuck : value_error ≢ stuck
value_error-ne-stuck e = cc

pub version-ne-stuck : mqtt_unsupported_version ≢ stuck
version-ne-stuck e = cc

pub instead-ne-stuck {ℓ} :
    {A : Type ℓ} (e : Exn) (m : Result A) → e ≢ stuck → m ≢ err stuck → instead e m ≢ err stuck
unfolding instead
instead-ne-stuck e (ok a) h k = λ q. cc
instead-ne-stuck e (err value_error) h k = λ q. h (cc)
instead-ne-stuck e (err stuck) h k = λ q. k refl
instead-ne-stuck e (err plain) h k = λ q. cc
instead-ne-stuck e (err index_error) h k = λ q. cc
instead-ne-stuck e (err overflow_error) h k = λ q. cc
instead-ne-stuck e (err struct_error) h k = λ q. cc
instead-ne-stuck e (err type_error) h k = λ q. cc
instead-ne-stuck e (err connection_error) h k = λ q. cc
instead-ne-stuck e (err attribute_error) h k = λ q. cc
instead-ne-stuck e (err mqtt_malformed_packet) h k = λ q. cc
instead-ne-stuck e (err mqtt_protocol_error) h k = λ q. cc
instead-ne-stuck e (err mqtt_unsupported_version) h k = λ q. cc

pub to_qos-ne-stuck : (v : ℕ) → to_qos v ≢ err stuck
unfolding to_qos
to_qos-ne-stuck v =
    known (v == 0) _
      (known (v == 1) _ (known (v == 2) _ (refused value_error value_error-ne-stuck)))

to_retain_handling-ne-stuck : (v : ℕ) → to_retain_handling v ≢ err stuck
unfolding to_retain_handling
to_retain_handling-ne-stuck v =
    known (v == 0) _
      (known (v == 1) _ (known (v == 2) _ (refused value_error value_error-ne-stuck)))

to_reason-ne-stuck : (v : ℕ) → to_reason v ≢ err stuck
unfolding to_reason
to_reason-ne-stuck v = known (v == 0x0) _ (
    known (v == 0x1) _ (
      known (v == 0x2) _ (
        known (v == 0x4) _ (
          known (v == 0x10) _ (
            known (v == 0x11) _ (
              known (v == 0x24) _ (
                known (v == 0x25) _ (
                  known (v == 0x80) _ (
                    known (v == 0x81) _ (
                      known (v == 0x82) _ (
                        known (v == 0x83) _ (
                          known (v == 0x84) _ (
                            known (v == 0x85) _ (
                              known (v == 0x86) _ (
                                known (v == 0x87) _ (
                                  known (v == 0x88) _ (
                                    known (v == 0x89) _ (
                                      known (v == 0x8a) _ (
                                        known (v == 0x8b) _ (
                                          known (v == 0x8c) _ (
                                            known (v == 0x8d) _ (
                                              known (v == 0x8e) _ (
                                                known (v == 0x8f) _ (
                                                  known (v == 0x90) _ (
                                                    known (v == 0x91) _ (
                                                      known (v == 0x92) _ (
                                                        known (v == 0x93) _ (
                                                          known (v == 0x94) _ (
                                                            known (v == 0x95) _ (
                                                            known (v == 0x96) _ (
                                                            known (v == 0x97) _ (
                                                            known (v == 0x98) _ (
                                                            known (v == 0x99) _ (
                                                            known (v == 0x9a) _ (
                                                            known (v == 0x9b) _ (
                                                            known (v == 0x9c) _ (
                                                            known (v == 0x9d) _ (
                                                            known (v == 0x9e) _ (
                                                            known (v == 0x9f) _ (
                                                            known (v == 0xa0) _ (
                                                            known (v == 0xa1) _ (
                                                            known (v == 0xa2) _ (
                                                            refused value_error
                                                            value_error-ne-stuck))))))))))))))))))))
                                                            )))))))))))))))))))))))

required-ne-stuck {ℓ} : {A : Type ℓ} (e : Exn) (o : Option A) → e ≢ stuck → required e o ≢ err stuck
unfolding required
required-ne-stuck e none h = λ q. h (cc)
required-ne-stuck e (some a) h = λ q. cc

pub reason-Drains : (bs : List ℕ) → Drains 1 bs (decode_reason bs)
unfolding decode_reason
reason-Drains [] = err-Drains 1 [] _ malformed-ne-stuck
reason-Drains (b ∷ rest) =
    step-Drains _ _
      (instead-ne-stuck mqtt_malformed_packet (to_reason b) malformed-ne-stuck
        (to_reason-ne-stuck b))
      (λ reason. ok-Drains 1 (b ∷ rest) reason rest (omega arith))

pub optional-Drains :
    {A : Type 0} (b : Bool) (read : List ℕ → Result (A × List ℕ)) (bs : List ℕ)
    → ((bs : List ℕ) → Drains 0 bs (read bs))
    → Drains 0 bs (decode_optional b read bs)
unfolding decode_optional
optional-Drains false read bs h = whole-Drains none bs
optional-Drains true read bs h =
    then-Drains (read bs) _ (h bs) (λ a rest. whole-Drains (some a) rest)

subscription-Drains : (bs : List ℕ) → Drains 1 bs (decode_subscription bs)
unfolding decode_subscription
subscription-Drains bs = then-Drains (decode_string bs) _ (string-Drains bs) (λ topic_filter rest.
    then-Drains (decode_uint8 rest) _ (zero-Drains 1 (uint8-Drains rest)) (λ options rest'.
      step-Drains _ _ (instead-ne-stuck _ _ protocol-ne-stuck (to_qos-ne-stuck _)) (λ maximum_qos.
        step-Drains _ _ (instead-ne-stuck _ _ protocol-ne-stuck (to_retain_handling-ne-stuck _))
          (λ retain_handling. whole-Drains _ rest'))))

-- Items up to the end of the data
items-Drains {ℓ} :
    {A : Type 0} {B : Type ℓ} (read : List ℕ → Result (A × List ℕ)) (bs : List ℕ)
    (packet : List A → B)
    → ((bs : List ℕ) → Drains 1 bs (read bs))
    → Drains 0 bs (
        decode_all read (length bs) bs >>= λ items.
        guard (not (is_empty items)) mqtt_protocol_error >> ok (packet items, []))
items-Drains read bs packet h =
    step-Drains (decode_all read (length bs) bs) _
      (decode_all-ne-stuck read (length bs) bs h (omega arith))
      (λ items.
        guard-Drains _ mqtt_protocol_error protocol-ne-stuck (ok-Drains 0 bs _ [] (omega arith)))

only_identifier-ne-stuck : (numbers : List ℕ) → only_identifier numbers ≢ err stuck
unfolding only_identifier
only_identifier-ne-stuck [] = λ e. cc
only_identifier-ne-stuck (i ∷ []) = λ e. cc
only_identifier-ne-stuck (i ∷ j ∷ numbers) = λ e. cc

pub puback-Drains : (bs : List ℕ) → Drains 0 bs (decode_puback_packet bs)
unfolding decode_puback_packet
puback-Drains bs = then-Drains (decode_uint16 bs) _ (zero-Drains 1 (uint16-Drains bs)) (λ i rest.
    then-Drains (decode_reason rest) _ (zero-Drains 1 (reason-Drains rest)) (λ reason rest'.
      then-Drains (decode_props _ rest') _ (zero-Drains 1 (props-Drains _ rest'))
        (λ props rest''. whole-Drains _ rest'')))

pub pubrec-Drains : (bs : List ℕ) → Drains 0 bs (decode_pubrec_packet bs)
unfolding decode_pubrec_packet
pubrec-Drains bs = then-Drains (decode_uint16 bs) _ (zero-Drains 1 (uint16-Drains bs)) (λ i rest.
    then-Drains (decode_reason rest) _ (zero-Drains 1 (reason-Drains rest)) (λ reason rest'.
      then-Drains (decode_props _ rest') _ (zero-Drains 1 (props-Drains _ rest'))
        (λ props rest''. whole-Drains _ rest'')))

pub pubrel-Drains : (bs : List ℕ) → Drains 0 bs (decode_pubrel_packet bs)
unfolding decode_pubrel_packet
pubrel-Drains bs = then-Drains (decode_uint16 bs) _ (zero-Drains 1 (uint16-Drains bs)) (λ i rest.
    then-Drains (decode_reason rest) _ (zero-Drains 1 (reason-Drains rest)) (λ reason rest'.
      then-Drains (decode_props _ rest') _ (zero-Drains 1 (props-Drains _ rest'))
        (λ props rest''. whole-Drains _ rest'')))

pub pubcomp-Drains : (bs : List ℕ) → Drains 0 bs (decode_pubcomp_packet bs)
unfolding decode_pubcomp_packet
pubcomp-Drains bs = then-Drains (decode_uint16 bs) _ (zero-Drains 1 (uint16-Drains bs)) (λ i rest.
    then-Drains (decode_reason rest) _ (zero-Drains 1 (reason-Drains rest)) (λ reason rest'.
      then-Drains (decode_props _ rest') _ (zero-Drains 1 (props-Drains _ rest'))
        (λ props rest''. whole-Drains _ rest'')))

pub suback-Drains : (bs : List ℕ) → Drains 0 bs (decode_suback_packet bs)
unfolding decode_suback_packet
suback-Drains bs = then-Drains (decode_uint16 bs) _ (zero-Drains 1 (uint16-Drains bs)) (λ i rest.
    then-Drains (decode_props _ rest) _ (zero-Drains 1 (props-Drains _ rest))
      (λ props rest'. items-Drains decode_reason rest' _ reason-Drains))

pub unsuback-Drains : (bs : List ℕ) → Drains 0 bs (decode_unsuback_packet bs)
unfolding decode_unsuback_packet
unsuback-Drains bs = then-Drains (decode_uint16 bs) _ (zero-Drains 1 (uint16-Drains bs)) (λ i rest.
    then-Drains (decode_props _ rest) _ (zero-Drains 1 (props-Drains _ rest))
      (λ props rest'. items-Drains decode_reason rest' _ reason-Drains))

pub unsubscribe-Drains : (bs : List ℕ) → Drains 0 bs (decode_unsubscribe_packet bs)
unfolding decode_unsubscribe_packet
unsubscribe-Drains bs =
    then-Drains (decode_uint16 bs) _ (zero-Drains 1 (uint16-Drains bs)) (λ i rest.
      then-Drains (decode_props _ rest) _ (zero-Drains 1 (props-Drains _ rest))
        (λ props rest'. items-Drains decode_string rest' _ string-Drains))

pub subscribe-Drains : (bs : List ℕ) → Drains 0 bs (decode_subscribe_packet bs)
unfolding decode_subscribe_packet
subscribe-Drains bs = then-Drains (decode_uint16 bs) _ (zero-Drains 1 (uint16-Drains bs)) (λ i rest.
    then-Drains (decode_props _ rest) _ (zero-Drains 1 (props-Drains _ rest)) (λ props rest'.
      step-Drains (only_identifier _) _ (only_identifier-ne-stuck _)
        (λ identifier. items-Drains decode_subscription rest' _ subscription-Drains)))

pub disconnect-Drains : (bs : List ℕ) → Drains 0 bs (decode_disconnect_packet bs)
unfolding decode_disconnect_packet
disconnect-Drains bs =
    then-Drains (decode_reason bs) _ (zero-Drains 1 (reason-Drains bs)) (λ reason rest.
      then-Drains (decode_props _ rest) _ (zero-Drains 1 (props-Drains _ rest))
        (λ props rest'. whole-Drains _ rest'))

pub auth-Drains : (bs : List ℕ) → Drains 0 bs (decode_auth_packet bs)
unfolding decode_auth_packet
auth-Drains bs = then-Drains (decode_reason bs) _ (zero-Drains 1 (reason-Drains bs)) (λ reason rest.
    then-Drains (decode_props _ rest) _ (zero-Drains 1 (props-Drains _ rest)) (λ props rest'.
      step-Drains _ _ (required-ne-stuck mqtt_protocol_error _ protocol-ne-stuck)
        (λ m. whole-Drains _ rest')))
