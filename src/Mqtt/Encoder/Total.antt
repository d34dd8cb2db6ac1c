-- ===== src/Mqtt/Encoder/Total.antt =====
-- `decode_packet` and `get_next_packet_size` end on all data.
use hat_drivers.Base.{ℕ, zero, suc, ◌+◌, ◌≢◌, List, [], ◌∷◌, Bool, true, false, ◌==◌, bit_and}
use hat_drivers.Base.{
  Result, ok, err, guard, stuck, value_error, mqtt_malformed_packet, known, refused,
}
use hat_drivers.Base.{>>=-ne-stuck, Bool-cases, inl, inr}
use hat_drivers.Base.{length, not, ◌/◌, ◌^◌}
use hat_drivers.Mqtt.Fields.{instead, is_empty}
use hat_drivers.Mqtt.Common.{to_qos, QoS, at_most_once, at_least_once}
use hat_drivers.Mqtt.Packet.{
  Packet, connect, connack, puback, pubrec, pubrel, pubcomp, subscribe, suback, unsubscribe,
  unsuback, disconnect, auth, pingreq, pingresp,
}
use hat_drivers.Mqtt.Acks.{
  decode_puback_packet, decode_pubrec_packet, decode_pubrel_packet, decode_pubcomp_packet,
}
use hat_drivers.Mqtt.Session.{decode_disconnect_packet, decode_auth_packet}
use hat_drivers.Mqtt.Subscriptions.{
  decode_subscribe_packet, decode_suback_packet, decode_unsubscribe_packet, decode_unsuback_packet,
}
use hat_drivers.Mqtt.Connect.{decode_connect_packet}
use hat_drivers.Mqtt.ConnAck.{decode_connack_packet}
use hat_drivers.Mqtt.Primitives.{decode_uintvar}
use hat_drivers.Mqtt.Primitives.Drains.{
  Drains, then-Drains, guard-Drains, malformed-ne-stuck, uintvar-Drains,
}
use hat_drivers.Mqtt.Properties.Total.{whole-Drains}
use hat_drivers.Mqtt.Encoder.Drains.{
  instead-ne-stuck, to_qos-ne-stuck, puback-Drains, pubrec-Drains, pubrel-Drains, pubcomp-Drains,
}
use hat_drivers.Mqtt.Encoder.Payloads.{connect-Drains, connack-Drains, publish-Drains}
use hat_drivers.Mqtt.Encoder.Drains.{
  subscribe-Drains, suback-Drains, unsubscribe-Drains, unsuback-Drains, disconnect-Drains,
  auth-Drains,
}
use hat_drivers.Mqtt.Encoder.{
  PacketType, connect_type, connack_type, publish_type, puback_type, pubrec_type, pubrel_type,
  pubcomp_type, subscribe_type, suback_type, unsubscribe_type, unsuback_type, pingreq_type,
  pingresp_type, disconnect_type, auth_type,
}
use hat_drivers.Mqtt.Encoder.{
  to_packet_type, decode_flagged, decode_packet_data, decode_packet, size_end, next_packet_size,
  get_next_packet_size,
}

to_packet_type-ne-stuck : (v : ℕ) → to_packet_type v ≢ err stuck
unfolding to_packet_type
to_packet_type-ne-stuck v = known (v == 1) _ (
    known (v == 2) _ (
      known (v == 3) _ (
        known (v == 4) _ (
          known (v == 5) _ (
            known (v == 6) _ (
              known (v == 7) _ (
                known (v == 8) _ (
                  known (v == 9) _ (
                    known (v == 10) _ (
                      known (v == 11) _ (
                        known (v == 12) _ (
                          known (v == 13) _ (
                            known (v == 14) _
                              (known (v == 15) _ (refused value_error (λ e. cc))))))))))))))))

flagged-Drains {ℓ} :
    {A : Type ℓ} (expected : QoS) (d : Bool) (q : QoS) (r : Bool) (packet : A → Packet)
    (read : List ℕ → Result (A × List ℕ)) (bs : List ℕ)
    → ((bs : List ℕ) → Drains 0 bs (read bs))
    → Drains 0 bs (decode_flagged expected d q r packet read bs)
unfolding decode_flagged
flagged-Drains expected d q r packet read bs h =
    guard-Drains _ mqtt_malformed_packet malformed-ne-stuck
      (then-Drains (read bs) _ (h bs) (λ p rest. whole-Drains (packet p) rest))

decode_packet_data-Drains :
    (t : PacketType) (d : Bool) (q : QoS) (r : Bool) (bs : List ℕ)
    → Drains 0 bs (decode_packet_data t d q r bs)
unfolding decode_packet_data
decode_packet_data-Drains connect_type d q r bs =
    flagged-Drains at_most_once d q r connect decode_connect_packet bs connect-Drains
decode_packet_data-Drains connack_type d q r bs =
    flagged-Drains at_most_once d q r connack decode_connack_packet bs connack-Drains
decode_packet_data-Drains publish_type d q r bs =
    then-Drains _ _ (publish-Drains d q r bs) (λ p rest. whole-Drains _ rest)
decode_packet_data-Drains puback_type d q r bs =
    flagged-Drains at_most_once d q r puback decode_puback_packet bs puback-Drains
decode_packet_data-Drains pubrec_type d q r bs =
    flagged-Drains at_most_once d q r pubrec decode_pubrec_packet bs pubrec-Drains
decode_packet_data-Drains pubrel_type d q r bs =
    flagged-Drains at_least_once d q r pubrel decode_pubrel_packet bs pubrel-Drains
decode_packet_data-Drains pubcomp_type d q r bs =
    flagged-Drains at_most_once d q r pubcomp decode_pubcomp_packet bs pubcomp-Drains
decode_packet_data-Drains subscribe_type d q r bs =
    flagged-Drains at_least_once d q r subscribe decode_subscribe_packet bs subscribe-Drains
decode_packet_data-Drains suback_type d q r bs =
    flagged-Drains at_most_once d q r suback decode_suback_packet bs suback-Drains
decode_packet_data-Drains unsubscribe_type d q r bs =
    flagged-Drains at_least_once d q r unsubscribe decode_unsubscribe_packet bs unsubscribe-Drains
decode_packet_data-Drains unsuback_type d q r bs =
    flagged-Drains at_most_once d q r unsuback decode_unsuback_packet bs unsuback-Drains
decode_packet_data-Drains pingreq_type d q r bs =
    flagged-Drains at_most_once d q r (λ (u : Unit {0}). pingreq) (λ bs. ok (tt, bs)) bs
      (λ bs. whole-Drains tt bs)
decode_packet_data-Drains pingresp_type d q r bs =
    flagged-Drains at_most_once d q r (λ (u : Unit {0}). pingresp) (λ bs. ok (tt, bs)) bs
      (λ bs. whole-Drains tt bs)
decode_packet_data-Drains disconnect_type d q r bs =
    flagged-Drains at_most_once d q r disconnect decode_disconnect_packet bs disconnect-Drains
decode_packet_data-Drains auth_type d q r bs =
    flagged-Drains at_most_once d q r auth decode_auth_packet bs auth-Drains

guarded : (b : Bool) → guard b mqtt_malformed_packet ≢ err stuck
guarded true e = cc
guarded false e = cc

found : (p : Packet) → ok p ≢ err stuck
found p e = cc

-- `decode_packet` never runs out of rounds.
pub decode_packet-ne-stuck : (bs : List ℕ) → decode_packet bs ≢ err stuck
unfolding decode_packet
decode_packet-ne-stuck [] = λ e. cc
decode_packet-ne-stuck (head ∷ []) = λ e. cc
decode_packet-ne-stuck (head ∷ b ∷ bs) =
    let m = mqtt_malformed_packet in
    let ts = to_packet_type-ne-stuck (head / 2 ^ 4) in
    let qs = to_qos-ne-stuck (bit_and (head / 2) 0x03) in
    >>=-ne-stuck (instead m (to_packet_type (head / 2 ^ 4))) _
      (instead-ne-stuck m _ malformed-ne-stuck ts)
      (λ t.
        >>=-ne-stuck (instead m (to_qos (bit_and (head / 2) 0x03))) _
          (instead-ne-stuck m _ malformed-ne-stuck qs)
          (λ q. >>=-ne-stuck (decode_uintvar (b ∷ bs)) _ ((uintvar-Drains (b ∷ bs)).ends) (λ x.
            >>=-ne-stuck (guard (length x.1 == x.0) m) _ (guarded (length x.1 == x.0)) (λ u.
              >>=-ne-stuck _ _
                ((decode_packet_data-Drains t (not (bit_and head 0x08 == 0)) q
                  (not (bit_and head 0x01 == 0)) x.1).ends)
                (λ y.
                  >>=-ne-stuck (guard (is_empty y.1) m) _ (guarded (is_empty y.1))
                    (λ u. found y.0))))))

size_end-ne-stuck : (n i : ℕ) (bs : List ℕ) → size_end n i bs ≢ err stuck
unfolding size_end
size_end-ne-stuck zero i bs = λ e. cc
size_end-ne-stuck (suc n) i [] = λ e. cc
size_end-ne-stuck (suc n) i (b ∷ bs) = elim (Bool-cases (bit_and b 0x80 == 0)) [
  | inl t ↦ rw (size_end, t) (λ e. cc)
  | inr t ↦ rw (size_end, t) (size_end-ne-stuck n (i + 1) bs)
]

next_packet_size-ne-stuck : (bs : List ℕ) (end : Bool × ℕ) → next_packet_size bs end ≢ err stuck
unfolding next_packet_size
next_packet_size-ne-stuck bs (false, i) = λ e. cc
next_packet_size-ne-stuck bs (true, i) =
    >>=-ne-stuck (decode_uintvar bs) _ ((uintvar-Drains bs).ends) (λ x e. cc)

pub get_next_packet_size-ne-stuck : (bs : List ℕ) → get_next_packet_size bs ≢ err stuck
unfolding get_next_packet_size
get_next_packet_size-ne-stuck [] = λ e. cc
get_next_packet_size-ne-stuck (head ∷ []) = λ e. cc
get_next_packet_size-ne-stuck (head ∷ b ∷ bs) =
    >>=-ne-stuck (size_end 4 0 (b ∷ bs)) _ (size_end-ne-stuck 4 0 (b ∷ bs))
      (λ end. next_packet_size-ne-stuck (b ∷ bs) end)
