-- ===== src/Mqtt/Publish.antt =====
-- PUBLISH packets in src_py/hat/drivers/mqtt/transport/encoder.py.
pub mod RoundTrip
use hat_drivers.Base.{
  ℕ, List, [], ◌∷◌, Bool, Option, none, some, Result, ok, err, ◌>>=◌, ◌>>◌, guard, true, false,
}
use hat_drivers.Base.{plain, attribute_error, mqtt_malformed_packet}
use hat_drivers.Mqtt.Common.{QoS, at_most_once}
use hat_drivers.Mqtt.Primitives.{encode_uint16, decode_uint16, encode_string, decode_string, ◌+>◌}
use hat_drivers.Mqtt.Properties
use hat_drivers.Mqtt.Properties.{
  PropertyType, text, identifiers, Options, collect, get, encode_props, decode_props,
}
use hat_drivers.Mqtt.Fields.{
  optional_number, optional_text, optional_binary, nonempty_pairs, when, flag_or,
}
use hat_drivers.Mqtt.Fields.{as_number, as_text, as_binary, as_pairs, as_identifiers, is_empty}
use hat_drivers.Base.Utf8.{is_utf8}
use hat_drivers.Mqtt.Packet.{PublishPacket, Payload, text_payload, binary_payload}

unfoldable pub is_text : Payload → Bool
is_text (text_payload s) = true
is_text (binary_payload bs) = false

abbrev pub payload_bytes : Payload → List ℕ
payload_bytes (text_payload s) = s
payload_bytes (binary_payload bs) = bs

abbrev pub publish_types : List PropertyType
publish_types =
    Properties.payload_format_indicator ∷ Properties.message_expiry_interval
    ∷ Properties.topic_alias ∷ Properties.response_topic ∷ Properties.correlation_data
    ∷ Properties.user_property ∷ Properties.subscription_identifier ∷ Properties.content_type ∷ []

-- The properties of a packet without subscription identifiers
abbrev pub publish_options : PublishPacket → Options
publish_options p =
    (Properties.payload_format_indicator, when (is_text p.payload) 1)
    ∷ (Properties.message_expiry_interval, optional_number p.message_expiry_interval)
    ∷ (Properties.topic_alias, optional_number p.topic_alias)
    ∷ (Properties.response_topic, optional_text p.response_topic)
    ∷ (Properties.correlation_data, optional_binary p.correlation_data)
    ∷ (Properties.user_property, nonempty_pairs p.user_properties)
    ∷ (Properties.content_type, optional_text p.content_type)
    ∷ []

unfoldable pub encode_identifier : QoS → Option ℕ → Result (List ℕ)
encode_identifier at_most_once identifier = ok []
encode_identifier q none = err plain
encode_identifier q (some identifier) = encode_uint16 identifier

-- With subscription identifiers the code asks for `packet.subscription_identifier`, which is no field.
unfoldable pub encode_publish_packet : PublishPacket → Result (List ℕ)
unfolding encode_identifier is_empty
encode_publish_packet p =
    encode_string p.topic_name
    +> (encode_identifier p.qos p.packet_identifier
        +> (guard (is_empty p.subscription_identifiers) attribute_error
            >> (encode_props (collect (publish_options p)) +> ok (payload_bytes p.payload))))

unfoldable pub decode_identifier : QoS → List ℕ → Result (Option ℕ × List ℕ)
decode_identifier at_most_once bs = ok (none, bs)
decode_identifier q bs = do (identifier, rest) ← decode_uint16 bs; ok (some identifier, rest)

unfoldable pub decode_payload : Bool → List ℕ → Result Payload
decode_payload false bs = ok (binary_payload bs)
decode_payload true bs = do guard (is_utf8 bs) mqtt_malformed_packet; ok (text_payload bs)

unfoldable pub decode_publish_packet : Bool → QoS → Bool → List ℕ → Result (PublishPacket × List ℕ)
unfolding decode_identifier decode_payload
decode_publish_packet duplicate qos retain bs = do
  (topic_name, rest) ← decode_string bs
  (packet_identifier, rest') ← decode_identifier qos rest
  (props, rest'') ← decode_props publish_types rest'
  payload ← decode_payload (flag_or 0 (get props Properties.payload_format_indicator)) rest''
  ok (
    record {
      duplicate = duplicate;
      qos = qos;
      retain = retain;
      topic_name = topic_name;
      packet_identifier = packet_identifier;
      message_expiry_interval = as_number (get props Properties.message_expiry_interval);
      topic_alias = as_number (get props Properties.topic_alias);
      response_topic = as_text (get props Properties.response_topic);
      correlation_data = as_binary (get props Properties.correlation_data);
      user_properties = as_pairs (get props Properties.user_property);
      subscription_identifiers = as_identifiers (get props Properties.subscription_identifier);
      content_type = as_text (get props Properties.content_type);
      payload = payload;
    },
    [],
  )
