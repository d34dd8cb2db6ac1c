-- ===== src/Mqtt/Acks/RoundTrip.antt =====
-- PUBACK, PUBREC, PUBREL and PUBCOMP packets come back.
use hat_drivers.Base.{◌≤◌, refl}
use hat_drivers.Mqtt.Primitives.RoundTrip.{Reads, uint16-Reads}
use hat_drivers.Mqtt.Primitives.Sequence.{then-Reads, last-Reads}
use hat_drivers.Mqtt.Properties.{property_value, same_type, mentions}
use hat_drivers.Mqtt.Properties.RoundTrip.{
  Writable, is_listed, lacks, lookup, props-Reads, get-collect,
}
use hat_drivers.Mqtt.Fields.{as_text-optional_text, as_pairs-nonempty_pairs, reason-Reads}
use hat_drivers.Mqtt.Packet.{PubAckPacket, PubRecPacket, PubRelPacket, PubCompPacket}
use hat_drivers.Mqtt.Acks.{
  ack_types, puback_options, pubrec_options, pubrel_options, pubcomp_options,
}
use hat_drivers.Mqtt.Acks.{
  encode_puback_packet, decode_puback_packet, encode_pubrec_packet, decode_pubrec_packet,
}
use hat_drivers.Mqtt.Acks.{
  encode_pubrel_packet, decode_pubrel_packet, encode_pubcomp_packet, decode_pubcomp_packet,
}

pub puback-Reads :
    (p : PubAckPacket)
    → p.packet_identifier ≤ 0xffff
    → Writable (puback_options p)
    → Reads (encode_puback_packet p) decode_puback_packet p
unfolding encode_puback_packet decode_puback_packet is_listed lacks lookup mentions same_type
    property_value
puback-Reads p h k = then-Reads _ (uint16-Reads p.packet_identifier h) (
    then-Reads _ (reason-Reads p.reason) (
      last-Reads _ (props-Reads ack_types (puback_options p) refl k) (λ rest.
        rw
          (
            get-collect ack_types (puback_options p) refl,
            as_text-optional_text p.reason_string,
            as_pairs-nonempty_pairs p.user_properties,
          )
          refl)))

pub pubrec-Reads :
    (p : PubRecPacket)
    → p.packet_identifier ≤ 0xffff
    → Writable (pubrec_options p)
    → Reads (encode_pubrec_packet p) decode_pubrec_packet p
unfolding encode_pubrec_packet decode_pubrec_packet is_listed lacks lookup mentions same_type
    property_value
pubrec-Reads p h k = then-Reads _ (uint16-Reads p.packet_identifier h) (
    then-Reads _ (reason-Reads p.reason) (
      last-Reads _ (props-Reads ack_types (pubrec_options p) refl k) (λ rest.
        rw
          (
            get-collect ack_types (pubrec_options p) refl,
            as_text-optional_text p.reason_string,
            as_pairs-nonempty_pairs p.user_properties,
          )
          refl)))

pub pubrel-Reads :
    (p : PubRelPacket)
    → p.packet_identifier ≤ 0xffff
    → Writable (pubrel_options p)
    → Reads (encode_pubrel_packet p) decode_pubrel_packet p
unfolding encode_pubrel_packet decode_pubrel_packet is_listed lacks lookup mentions same_type
    property_value
pubrel-Reads p h k = then-Reads _ (uint16-Reads p.packet_identifier h) (
    then-Reads _ (reason-Reads p.reason) (
      last-Reads _ (props-Reads ack_types (pubrel_options p) refl k) (λ rest.
        rw
          (
            get-collect ack_types (pubrel_options p) refl,
            as_text-optional_text p.reason_string,
            as_pairs-nonempty_pairs p.user_properties,
          )
          refl)))

pub pubcomp-Reads :
    (p : PubCompPacket)
    → p.packet_identifier ≤ 0xffff
    → Writable (pubcomp_options p)
    → Reads (encode_pubcomp_packet p) decode_pubcomp_packet p
unfolding encode_pubcomp_packet decode_pubcomp_packet is_listed lacks lookup mentions same_type
    property_value
pubcomp-Reads p h k = then-Reads _ (uint16-Reads p.packet_identifier h) (
    then-Reads _ (reason-Reads p.reason) (
      last-Reads _ (props-Reads ack_types (pubcomp_options p) refl k) (λ rest.
        rw
          (
            get-collect ack_types (pubcomp_options p) refl,
            as_text-optional_text p.reason_string,
            as_pairs-nonempty_pairs p.user_properties,
          )
          refl)))
