-- ===== src/Mqtt/Subscriptions.antt =====
-- SUBSCRIBE, SUBACK, UNSUBSCRIBE and UNSUBACK packets in src_py/hat/drivers/mqtt/transport/encoder.py.
pub mod RoundTrip
pub mod Flags
use hat_drivers.Base.{
  ℕ, List, [], ◌∷◌, Bool, not, if◌then◌else◌, bit_or, bit_and, ◌*◌, ◌/◌, ◌^◌, ◌==◌, Option, none,
  some, Result, ok, err, ◌>>=◌, ◌>>◌, guard, length,
}
use hat_drivers.Base.{plain, mqtt_protocol_error}
use hat_drivers.Mqtt.Common.{
  QoS, qos_value, to_qos, RetainHandling, retain_handling_value, to_retain_handling, Subscription,
}
use hat_drivers.Mqtt.Primitives.{
  decode_uint8, encode_uint16, decode_uint16, encode_string, decode_string, ◌+>◌, encode_all,
  decode_all,
}
use hat_drivers.Mqtt.Properties
use hat_drivers.Mqtt.Properties.{
  PropertyType, Value, text, identifiers, Options, collect, get, encode_props, decode_props,
}
use hat_drivers.Mqtt.Fields.{optional_text, nonempty_pairs}
use hat_drivers.Mqtt.Fields.{
  as_text, as_pairs, as_identifiers, encode_reason, decode_reason, instead, is_empty,
}
use hat_drivers.Mqtt.Packet.{SubscribePacket, SubAckPacket, UnsubscribePacket, UnsubAckPacket}

-- The byte behind the topic filter, as `_encode_subscription` puts it together
unfoldable pub subscription_byte : QoS → Bool → Bool → RetainHandling → ℕ
subscription_byte q no_local retain_as_published r =
    bit_or
      (bit_or (bit_or (qos_value q) (if no_local then 0x03 else 0x00))
        (if retain_as_published then 0x04 else 0x00))
      (retain_handling_value r * 2 ^ 4)

unfoldable pub encode_subscription : Subscription → Result (List ℕ)
unfolding subscription_byte
encode_subscription s =
    encode_string s.topic_filter
    +> ok (subscription_byte s.maximum_qos s.no_local s.retain_as_published s.retain_handling ∷ [])

unfoldable pub decode_subscription : List ℕ → Result (Subscription × List ℕ)
unfolding instead
decode_subscription bs = do
  (topic_filter, rest) ← decode_string bs
  (options, rest') ← decode_uint8 rest
  maximum_qos ← instead mqtt_protocol_error (to_qos (bit_and options 0x03))
  retain_handling ←
      instead mqtt_protocol_error (to_retain_handling (bit_and (options / 2 ^ 4) 0x03))
  ok (
    record {
      topic_filter = topic_filter;
      maximum_qos = maximum_qos;
      no_local = not (bit_and options 0x04 == 0);
      retain_as_published = not (bit_and options 0x08 == 0);
      retain_handling = retain_handling;
    },
    rest',
  )

abbrev pub subscribe_types : List PropertyType
subscribe_types = Properties.subscription_identifier ∷ Properties.user_property ∷ []

-- `if subscription_identifier is not None: props[...] = [subscription_identifier]`
unfoldable pub one_identifier : Option ℕ → Option Value
one_identifier none = none
one_identifier (some i) = some (identifiers (i ∷ []))

abbrev pub subscribe_options : SubscribePacket → Options
subscribe_options p =
    (Properties.subscription_identifier, one_identifier p.subscription_identifier)
    ∷ (Properties.user_property, nonempty_pairs p.user_properties)
    ∷ []

unfoldable pub encode_subscribe_packet : SubscribePacket → Result (List ℕ)
unfolding is_empty
encode_subscribe_packet p =
    encode_uint16 p.packet_identifier
    +> (encode_props (collect (subscribe_options p))
        +> (guard (not (is_empty p.subscriptions)) plain
            >> encode_all encode_subscription p.subscriptions))

-- The identifier among the identifiers of the packet, of which there is one at most
unfoldable pub only_identifier : List ℕ → Result (Option ℕ)
only_identifier [] = ok none
only_identifier (i ∷ []) = ok (some i)
only_identifier _ = err mqtt_protocol_error

unfoldable pub decode_subscribe_packet : List ℕ → Result (SubscribePacket × List ℕ)
unfolding only_identifier is_empty
decode_subscribe_packet bs = do
  (packet_identifier, rest) ← decode_uint16 bs
  (props, rest') ← decode_props subscribe_types rest
  subscription_identifier ←
      only_identifier (as_identifiers (get props Properties.subscription_identifier))
  subscriptions ← decode_all decode_subscription (length rest') rest'
  guard (not (is_empty subscriptions)) mqtt_protocol_error
  ok (
    record {
      packet_identifier = packet_identifier;
      subscription_identifier = subscription_identifier;
      user_properties = as_pairs (get props Properties.user_property);
      subscriptions = subscriptions;
    },
    [],
  )

abbrev pub reasons_types : List PropertyType
reasons_types = Properties.reason_string ∷ Properties.user_property ∷ []

abbrev pub suback_options : SubAckPacket → Options
suback_options p =
    (Properties.reason_string, optional_text p.reason_string)
    ∷ (Properties.user_property, nonempty_pairs p.user_properties)
    ∷ []

unfoldable pub encode_suback_packet : SubAckPacket → Result (List ℕ)
unfolding is_empty
encode_suback_packet p =
    encode_uint16 p.packet_identifier
    +> (encode_props (collect (suback_options p))
        +> (guard (not (is_empty p.reasons)) plain >> encode_all encode_reason p.reasons))

unfoldable pub decode_suback_packet : List ℕ → Result (SubAckPacket × List ℕ)
unfolding is_empty
decode_suback_packet bs = do
  (packet_identifier, rest) ← decode_uint16 bs
  (props, rest') ← decode_props reasons_types rest
  reasons ← decode_all decode_reason (length rest') rest'
  guard (not (is_empty reasons)) mqtt_protocol_error
  ok (
    record {
      packet_identifier = packet_identifier;
      reason_string = as_text (get props Properties.reason_string);
      user_properties = as_pairs (get props Properties.user_property);
      reasons = reasons;
    },
    [],
  )

abbrev pub unsuback_options : UnsubAckPacket → Options
unsuback_options p =
    (Properties.reason_string, optional_text p.reason_string)
    ∷ (Properties.user_property, nonempty_pairs p.user_properties)
    ∷ []

unfoldable pub encode_unsuback_packet : UnsubAckPacket → Result (List ℕ)
unfolding is_empty
encode_unsuback_packet p =
    encode_uint16 p.packet_identifier
    +> (encode_props (collect (unsuback_options p))
        +> (guard (not (is_empty p.reasons)) plain >> encode_all encode_reason p.reasons))

unfoldable pub decode_unsuback_packet : List ℕ → Result (UnsubAckPacket × List ℕ)
unfolding is_empty
decode_unsuback_packet bs = do
  (packet_identifier, rest) ← decode_uint16 bs
  (props, rest') ← decode_props reasons_types rest
  reasons ← decode_all decode_reason (length rest') rest'
  guard (not (is_empty reasons)) mqtt_protocol_error
  ok (
    record {
      packet_identifier = packet_identifier;
      reason_string = as_text (get props Properties.reason_string);
      user_properties = as_pairs (get props Properties.user_property);
      reasons = reasons;
    },
    [],
  )

abbrev pub unsubscribe_types : List PropertyType
unsubscribe_types = Properties.user_property ∷ []

abbrev pub unsubscribe_options : UnsubscribePacket → Options
unsubscribe_options p = (Properties.user_property, nonempty_pairs p.user_properties) ∷ []

unfoldable pub encode_unsubscribe_packet : UnsubscribePacket → Result (List ℕ)
unfolding is_empty
encode_unsubscribe_packet p =
    encode_uint16 p.packet_identifier
    +> (encode_props (collect (unsubscribe_options p))
        +> (guard (not (is_empty p.topic_filters)) plain
            >> encode_all encode_string p.topic_filters))

unfoldable pub decode_unsubscribe_packet : List ℕ → Result (UnsubscribePacket × List ℕ)
unfolding is_empty
decode_unsubscribe_packet bs = do
  (packet_identifier, rest) ← decode_uint16 bs
  (props, rest') ← decode_props unsubscribe_types rest
  topic_filters ← decode_all decode_string (length rest') rest'
  guard (not (is_empty topic_filters)) mqtt_protocol_error
  ok (
    record {
      packet_identifier = packet_identifier;
      user_properties = as_pairs (get props Properties.user_property);
      topic_filters = topic_filters;
    },
    [],
  )
