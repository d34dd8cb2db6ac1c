-- ===== src/Mqtt/ConnAck.antt =====
-- CONNACK packets in src_py/hat/drivers/mqtt/transport/encoder.py.
pub mod RoundTrip
use hat_drivers.Base.{
  ℕ, List, [], ◌∷◌, not, if◌then◌else◌, bit_and, ◌==◌, Option, none, Result, ok, ◌>>=◌, ◌>>◌,
}
use hat_drivers.Mqtt.Common.{exactly_once}
use hat_drivers.Mqtt.Primitives.{decode_uint8, ◌+>◌}
use hat_drivers.Mqtt.Properties
use hat_drivers.Mqtt.Properties.{
  PropertyType, text, Options, collect, get, encode_props, decode_props,
}
use hat_drivers.Mqtt.Fields.{
  optional_number, optional_text, optional_binary, nonempty_pairs, unless, unless_exactly_once,
  when, flag_or, number_or, quality_or,
}
use hat_drivers.Mqtt.Fields.{as_number, as_text, as_binary, as_pairs, encode_reason, decode_reason}
use hat_drivers.Mqtt.Packet.{ConnAckPacket}

abbrev pub connack_types : List PropertyType
connack_types =
    Properties.session_expiry_interval ∷ Properties.receive_maximum ∷ Properties.maximum_qos
    ∷ Properties.retain_available ∷ Properties.maximum_packet_size
    ∷ Properties.assigned_client_identifier ∷ Properties.topic_alias_maximum
    ∷ Properties.reason_string ∷ Properties.user_property
    ∷ Properties.wildcard_subscription_available ∷ Properties.subscription_identifier_available
    ∷ Properties.shared_subscription_available ∷ Properties.server_keep_alive
    ∷ Properties.response_information ∷ Properties.server_reference
    ∷ Properties.authentication_method ∷ Properties.authentication_data ∷ []

abbrev pub connack_options : ConnAckPacket → Options
connack_options p =
    (Properties.session_expiry_interval, optional_number p.session_expiry_interval)
    ∷ (Properties.receive_maximum, unless 0xffff p.receive_maximum)
    ∷ (Properties.maximum_qos, unless_exactly_once p.maximum_qos)
    ∷ (Properties.retain_available, when (not p.retain_available) 0)
    ∷ (Properties.maximum_packet_size, optional_number p.maximum_packet_size)
    ∷ (Properties.assigned_client_identifier, optional_text p.assigned_client_identifier)
    ∷ (Properties.topic_alias_maximum, unless 0 p.topic_alias_maximum)
    ∷ (Properties.reason_string, optional_text p.reason_string)
    ∷ (Properties.user_property, nonempty_pairs p.user_properties)
    ∷ (Properties.wildcard_subscription_available, when (not p.wildcard_subscription_available) 0)
    ∷ (
      Properties.subscription_identifier_available,
      when (not p.subscription_identifier_available) 0,
    )
    ∷ (Properties.shared_subscription_available, when (not p.shared_subscription_available) 0)
    ∷ (Properties.server_keep_alive, optional_number p.server_keep_alive)
    ∷ (Properties.response_information, optional_text p.response_information)
    ∷ (Properties.server_reference, optional_text p.server_reference)
    ∷ (Properties.authentication_method, optional_text p.authentication_method)
    ∷ (Properties.authentication_data, optional_binary p.authentication_data)
    ∷ []

unfoldable pub encode_connack_packet : ConnAckPacket → Result (List ℕ)
encode_connack_packet p =
    ok ((if p.session_present then 0x01 else 0x00) ∷ [])
    +> (encode_reason p.reason +> encode_props (collect (connack_options p)))

unfoldable pub decode_connack_packet : List ℕ → Result (ConnAckPacket × List ℕ)
decode_connack_packet bs = do
  (flags, rest) ← decode_uint8 bs
  (reason, rest') ← decode_reason rest
  (props, rest'') ← decode_props connack_types rest'
  ok (
    record {
      session_present = not (bit_and flags 0x01 == 0);
      reason = reason;
      session_expiry_interval = as_number (get props Properties.session_expiry_interval);
      receive_maximum = number_or 0xffff (get props Properties.receive_maximum);
      maximum_qos = quality_or exactly_once (get props Properties.maximum_qos);
      retain_available = flag_or 1 (get props Properties.retain_available);
      maximum_packet_size = as_number (get props Properties.maximum_packet_size);
      assigned_client_identifier = as_text (get props Properties.assigned_client_identifier);
      topic_alias_maximum = number_or 0 (get props Properties.topic_alias_maximum);
      reason_string = as_text (get props Properties.reason_string);
      user_properties = as_pairs (get props Properties.user_property);
      wildcard_subscription_available =
          flag_or 1 (get props Properties.wildcard_subscription_available);
      subscription_identifier_available =
          flag_or 1 (get props Properties.subscription_identifier_available);
      shared_subscription_available =
          flag_or 1 (get props Properties.shared_subscription_available);
      server_keep_alive = as_number (get props Properties.server_keep_alive);
      response_information = as_text (get props Properties.response_information);
      server_reference = as_text (get props Properties.server_reference);
      authentication_method = as_text (get props Properties.authentication_method);
      authentication_data = as_binary (get props Properties.authentication_data);
    },
    rest'',
  )
