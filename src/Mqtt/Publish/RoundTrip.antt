-- ===== src/Mqtt/Publish/RoundTrip.antt =====
-- PUBLISH packets without subscription identifiers come back.
use hat_drivers.Base.{ℕ, ◌≤◌, ◌≡◌, refl, [], All, true, Option, none, some, ok}
use hat_drivers.Base.Bytes.{IsByte}
use hat_drivers.Mqtt.Common.{QoS, at_most_once, at_least_once, exactly_once}
use hat_drivers.Mqtt.Primitives.RoundTrip.{Reads, uint16-Reads, text-Reads, IsText}
use hat_drivers.Mqtt.Primitives.Sequence.{Whole, then-Whole, last-Reads}
use hat_drivers.Mqtt.Properties.{property_value, same_type, mentions}
use hat_drivers.Mqtt.Properties.RoundTrip.{
  Writable, is_listed, lacks, lookup, props-Reads, get-collect,
}
use hat_drivers.Mqtt.Fields.{
  as_number-optional_number, as_text-optional_text, as_binary-optional_binary,
  as_pairs-nonempty_pairs, flag_or-when,
}
use hat_drivers.Base.Utf8.{is_utf8}
use hat_drivers.Mqtt.Packet.{PublishPacket, Payload, text_payload, binary_payload}
use hat_drivers.Mqtt.Fields.{as_identifiers}
use hat_drivers.Mqtt.Publish.{
  is_text, payload_bytes, publish_types, publish_options, encode_identifier, decode_identifier,
}
use hat_drivers.Mqtt.Publish.{decode_payload, encode_publish_packet, decode_publish_packet}

-- The identifier is there exactly when the packet is acknowledged.
abbrev pub IsIdentified : QoS → Option ℕ → Type 0
IsIdentified at_most_once none = Unit
IsIdentified at_most_once (some identifier) = ⊥
IsIdentified at_least_once none = ⊥
IsIdentified at_least_once (some identifier) = identifier ≤ 0xffff
IsIdentified exactly_once none = ⊥
IsIdentified exactly_once (some identifier) = identifier ≤ 0xffff

abbrev pub IsPayload : Payload → Type 0
IsPayload (text_payload s) = (is_utf8 s ≡ true) × All IsByte s
IsPayload (binary_payload bs) = All IsByte bs

pub identifier-Reads :
    (q : QoS) (o : Option ℕ)
    → IsIdentified q o
    → Reads (encode_identifier q o) (decode_identifier q) o
unfolding encode_identifier decode_identifier
identifier-Reads at_most_once none h = record {
  image = [];
  writes = refl;
  reads = λ rest. refl;
  are_bytes = tt;
}
identifier-Reads at_most_once (some identifier) h = absurd h
identifier-Reads at_least_once none h = absurd h
identifier-Reads at_least_once (some identifier) h =
    last-Reads _ (uint16-Reads identifier h) (λ rest. refl)
identifier-Reads exactly_once none h = absurd h
identifier-Reads exactly_once (some identifier) h =
    last-Reads _ (uint16-Reads identifier h) (λ rest. refl)

decode_payload-payload_bytes :
    (p : Payload) → IsPayload p → decode_payload (is_text p) (payload_bytes p) ≡ ok p
unfolding decode_payload is_text
decode_payload-payload_bytes (text_payload s) h = rw (h.0) refl
decode_payload-payload_bytes (binary_payload bs) h = refl

payload-IsByte : (p : Payload) → IsPayload p → All IsByte (payload_bytes p)
payload-IsByte (text_payload s) h = h.1
payload-IsByte (binary_payload bs) h = h

pub publish-Whole :
    (p : PublishPacket)
    → IsText p.topic_name
    → IsIdentified p.qos p.packet_identifier
    → p.subscription_identifiers ≡ []
    → Writable (publish_options p)
    → IsPayload p.payload
    → Whole (encode_publish_packet p) (decode_publish_packet p.duplicate p.qos p.retain) p
unfolding encode_publish_packet decode_publish_packet is_listed lacks lookup mentions same_type
    property_value as_identifiers
publish-Whole p t i e h b = then-Whole _ (text-Reads p.topic_name t) (
    then-Whole _ (identifier-Reads p.qos p.packet_identifier i) (
      rw e (
        then-Whole _ (props-Reads publish_types (publish_options p) refl h) (record {
          image = payload_bytes p.payload;
          writes = refl;
          reads = rw (get-collect publish_types (publish_options p) refl) (
              rw
                (
                  flag_or-when (is_text p.payload),
                  decode_payload-payload_bytes p.payload b,
                  as_number-optional_number p.message_expiry_interval,
                  as_number-optional_number p.topic_alias,
                  as_text-optional_text p.response_topic,
                  as_binary-optional_binary p.correlation_data,
                  as_pairs-nonempty_pairs p.user_properties,
                  as_text-optional_text p.content_type,
                )
                refl);
          are_bytes = payload-IsByte p.payload b;
        }))))
