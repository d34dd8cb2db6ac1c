-- ===== src/Mqtt/ConnAck/RoundTrip.antt =====
-- CONNACK packets come back.
use hat_drivers.Base.{◌≡◌, refl, [], ◌∷◌, Bool, true, false, not, ok, arith}
use hat_drivers.Mqtt.Primitives.RoundTrip.{Reads}
use hat_drivers.Mqtt.Primitives.Sequence.{then-Reads, last-Reads}
use hat_drivers.Mqtt.Properties.{property_value, same_type, mentions}
use hat_drivers.Mqtt.Properties.RoundTrip.{
  Writable, is_listed, lacks, lookup, props-Reads, get-collect,
}
use hat_drivers.Mqtt.Fields.{
  as_number-optional_number, as_text-optional_text, as_binary-optional_binary,
  as_pairs-nonempty_pairs, reason-Reads, number_or-unless, quality_or-unless_exactly_once,
  flag_or-when-not,
}
use hat_drivers.Base.{bit_and, ◌==◌, if◌then◌else◌}
use hat_drivers.Mqtt.Packet.{ConnAckPacket}
use hat_drivers.Mqtt.Primitives.{decode_uint8}
use hat_drivers.Mqtt.ConnAck.{
  connack_types, connack_options, encode_connack_packet, decode_connack_packet,
}

present-Reads :
    (b : Bool)
    → Reads (ok ((if b then 0x01 else 0x00) ∷ [])) decode_uint8 (if b then 0x01 else 0x00)
unfolding decode_uint8
present-Reads b = record {
  image = (if b then 0x01 else 0x00) ∷ [];
  writes = refl;
  reads = λ rest. refl;
  are_bytes = (ground arith, tt);
}

present-back : (b : Bool) → not (bit_and (if b then 0x01 else 0x00) 0x01 == 0) ≡ b
present-back true = refl
present-back false = refl

pub connack-Reads :
    (p : ConnAckPacket)
    → Writable (connack_options p)
    → Reads (encode_connack_packet p) decode_connack_packet p
unfolding encode_connack_packet decode_connack_packet is_listed lacks lookup mentions same_type
    property_value
connack-Reads p h = then-Reads _ (present-Reads p.session_present) (
    then-Reads _ (reason-Reads p.reason) (
      last-Reads _ (props-Reads connack_types (connack_options p) refl h) (λ rest.
        rw
          (
            get-collect connack_types (connack_options p) refl,
            present-back p.session_present,
            as_number-optional_number p.session_expiry_interval,
            number_or-unless 0xffff p.receive_maximum,
            quality_or-unless_exactly_once p.maximum_qos,
            flag_or-when-not p.retain_available,
            as_number-optional_number p.maximum_packet_size,
            as_text-optional_text p.assigned_client_identifier,
            number_or-unless 0 p.topic_alias_maximum,
            as_text-optional_text p.reason_string,
            as_pairs-nonempty_pairs p.user_properties,
            flag_or-when-not p.wildcard_subscription_available,
            flag_or-when-not p.subscription_identifier_available,
            flag_or-when-not p.shared_subscription_available,
            as_number-optional_number p.server_keep_alive,
            as_text-optional_text p.response_information,
            as_text-optional_text p.server_reference,
            as_text-optional_text p.authentication_method,
            as_binary-optional_binary p.authentication_data,
          )
          refl)))
