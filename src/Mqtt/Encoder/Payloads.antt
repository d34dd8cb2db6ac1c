-- ===== src/Mqtt/Encoder/Payloads.antt =====
-- The decoders of PUBLISH, CONNECT and CONNACK packets end on all data.
use hat_drivers.Base.{mqtt_unsupported_version, stuck, ◌≢◌, arith, >>=-ne-stuck}
use hat_drivers.Base.{ℕ, List, [], Bool, not, bit_and, ◌==◌, none, some, err, guard, true, false}
use hat_drivers.Base.{mqtt_protocol_error, mqtt_malformed_packet, mqtt_unsupported_version}
use hat_drivers.Mqtt.Common.{QoS, at_most_once, at_least_once, exactly_once}
use hat_drivers.Mqtt.Primitives.{decode_uint8, decode_uint16, decode_string, decode_binary}
use hat_drivers.Mqtt.Properties.{decode_props}
use hat_drivers.Mqtt.Fields.{decode_reason, decode_optional}
use hat_drivers.Base.Utf8.{is_utf8}
use hat_drivers.Mqtt.Primitives.Drains.{
  Drains, ok-Drains, then-Drains, step-Drains, guard-Drains, zero-Drains, malformed-ne-stuck,
  protocol-ne-stuck,
}
use hat_drivers.Mqtt.Primitives.Drains.{uint8-Drains, uint16-Drains, binary-Drains, string-Drains}
use hat_drivers.Mqtt.Properties.Total.{props-Drains, whole-Drains}
use hat_drivers.Mqtt.Publish.{decode_identifier, decode_payload, decode_publish_packet}
use hat_drivers.Mqtt.Connect.{decode_will_payload, decode_will, decode_connect_packet}
use hat_drivers.Mqtt.ConnAck.{decode_connack_packet}
use hat_drivers.Mqtt.Encoder.Drains.{
  instead-ne-stuck, optional-Drains, reason-Drains, to_qos-ne-stuck, version-ne-stuck,
}

identifier-Drains : (q : QoS) (bs : List ℕ) → Drains 0 bs (decode_identifier q bs)
unfolding decode_identifier
identifier-Drains at_most_once bs = whole-Drains none bs
identifier-Drains at_least_once bs =
    then-Drains (decode_uint16 bs) _ (zero-Drains 1 (uint16-Drains bs))
      (λ i rest. whole-Drains (some i) rest)
identifier-Drains exactly_once bs =
    then-Drains (decode_uint16 bs) _ (zero-Drains 1 (uint16-Drains bs))
      (λ i rest. whole-Drains (some i) rest)

guarded : (b : Bool) → guard b mqtt_malformed_packet ≢ err stuck
guarded true e = cc
guarded false e = cc

decode_payload-ne-stuck : (b : Bool) (bs : List ℕ) → decode_payload b bs ≢ err stuck
unfolding decode_payload
decode_payload-ne-stuck false bs = λ e. cc
decode_payload-ne-stuck true bs =
    >>=-ne-stuck (guard (is_utf8 bs) mqtt_malformed_packet) _ (guarded (is_utf8 bs)) (λ u e. cc)

pub publish-Drains :
    (d : Bool) (q : QoS) (r : Bool) (bs : List ℕ) → Drains 0 bs (decode_publish_packet d q r bs)
unfolding decode_publish_packet
publish-Drains d q r bs =
    then-Drains (decode_string bs) _ (zero-Drains 1 (string-Drains bs)) (λ topic_name rest.
      then-Drains (decode_identifier q rest) _ (identifier-Drains q rest) (λ i rest'.
        then-Drains (decode_props _ rest') _ (zero-Drains 1 (props-Drains _ rest')) (λ props rest''.
          step-Drains (decode_payload _ rest'') _ (decode_payload-ne-stuck _ rest'')
            (λ payload. ok-Drains 0 rest'' _ [] (omega arith)))))

will_payload-Drains : (b : Bool) (bs : List ℕ) → Drains 0 bs (decode_will_payload b bs)
unfolding decode_will_payload
will_payload-Drains true bs =
    then-Drains (decode_string bs) _ (zero-Drains 1 (string-Drains bs))
      (λ s rest. whole-Drains _ rest)
will_payload-Drains false bs =
    then-Drains (decode_binary bs) _ (zero-Drains 1 (binary-Drains bs))
      (λ s rest. whole-Drains _ rest)

will-Drains : (q : QoS) (r : Bool) (bs : List ℕ) → Drains 0 bs (decode_will q r bs)
unfolding decode_will
will-Drains q r bs =
    then-Drains (decode_props _ bs) _ (zero-Drains 1 (props-Drains _ bs)) (λ props rest.
      then-Drains (decode_string rest) _ (zero-Drains 1 (string-Drains rest)) (λ topic rest'.
        then-Drains (decode_will_payload _ rest') _ (will_payload-Drains _ rest')
          (λ payload rest''. whole-Drains _ rest'')))

pub connect-Drains : (bs : List ℕ) → Drains 0 bs (decode_connect_packet bs)
unfolding decode_connect_packet
connect-Drains bs = then-Drains (decode_string bs) _ (zero-Drains 1 (string-Drains bs)) (λ name r1.
    guard-Drains _ mqtt_unsupported_version version-ne-stuck (
      then-Drains (decode_uint8 r1) _ (zero-Drains 1 (uint8-Drains r1)) (λ version r2.
        guard-Drains _ mqtt_unsupported_version version-ne-stuck (
          then-Drains (decode_uint8 r2) _ (zero-Drains 1 (uint8-Drains r2)) (λ flags r3.
            step-Drains _ _ (instead-ne-stuck _ _ malformed-ne-stuck (to_qos-ne-stuck _)) (λ qos.
              then-Drains (decode_uint16 r3) _ (zero-Drains 1 (uint16-Drains r3)) (λ keep_alive r4.
                then-Drains (decode_props _ r4) _ (zero-Drains 1 (props-Drains _ r4)) (λ props r5.
                  guard-Drains _ mqtt_protocol_error protocol-ne-stuck (
                    then-Drains (decode_string r5) _ (zero-Drains 1 (string-Drains r5))
                      (λ identifier r6.
                        then-Drains
                          (decode_optional (not (bit_and flags 0x04 == 0))
                            (decode_will qos (not (bit_and flags 0x20 == 0))) r6)
                          _ (optional-Drains _ _ r6 (will-Drains qos _))
                          (λ will r7.
                            then-Drains
                              (decode_optional (not (bit_and flags 0x80 == 0)) decode_string r7) _
                              (optional-Drains _ _ r7 (λ bs. zero-Drains 1 (string-Drains bs)))
                              (λ user_name r8.
                                then-Drains
                                  (decode_optional (not (bit_and flags 0x40 == 0)) decode_binary r8)
                                  _
                                  (optional-Drains _ _ r8 (λ bs. zero-Drains 1 (binary-Drains bs)))
                                  (λ password r9. whole-Drains _ r9)))))))))))))

pub connack-Drains : (bs : List ℕ) → Drains 0 bs (decode_connack_packet bs)
unfolding decode_connack_packet
connack-Drains bs = then-Drains (decode_uint8 bs) _ (zero-Drains 1 (uint8-Drains bs)) (λ flags rest.
    then-Drains (decode_reason rest) _ (zero-Drains 1 (reason-Drains rest)) (λ reason rest'.
      then-Drains (decode_props _ rest') _ (zero-Drains 1 (props-Drains _ rest'))
        (λ props rest''. whole-Drains _ rest'')))
