-- ===== src/Mqtt/Connect.antt =====
-- Wills and CONNECT packets in src_py/hat/drivers/mqtt/transport/encoder.py.
pub mod RoundTrip
use hat_drivers.Base.{
  ℕ, List, [], ◌∷◌, Bool, not, ◌&&◌, ◌||◌, if◌then◌else◌, bit_or, bit_and, ◌*◌, ◌/◌, ◌^◌, ◌==◌,
  Option, none, some, Result, ok, err, ◌>>=◌, ◌>>◌, guard, true, false,
}
use hat_drivers.Base.{mqtt_protocol_error, mqtt_malformed_packet, mqtt_unsupported_version}
use hat_drivers.Mqtt.Common.{Text, QoS, at_most_once, qos_value, to_qos}
use hat_drivers.Mqtt.Primitives.{
  decode_uint8, encode_uint16, decode_uint16, encode_string, decode_string, encode_binary,
  decode_binary, ◌+>◌,
}
use hat_drivers.Mqtt.Properties
use hat_drivers.Mqtt.Properties.{
  PropertyType, text, Options, collect, get, encode_props, decode_props,
}
use hat_drivers.Mqtt.Fields.{
  optional_number, optional_text, optional_binary, nonempty_pairs, unless, when, flag_or, number_or,
}
use hat_drivers.Mqtt.Fields.{
  as_number, as_text, as_binary, as_pairs, instead, is_some, encode_optional, decode_optional,
}
use hat_drivers.Mqtt.Packet.{Will, ConnectPacket, Payload, text_payload, binary_payload}
use hat_drivers.Mqtt.Publish.{is_text}

abbrev pub will_types : List PropertyType
will_types =
    Properties.will_delay_interval ∷ Properties.payload_format_indicator
    ∷ Properties.message_expiry_interval ∷ Properties.content_type ∷ Properties.response_topic
    ∷ Properties.correlation_data ∷ Properties.user_property ∷ []

abbrev pub will_options : Will → Options
will_options w =
    (Properties.will_delay_interval, unless 0 w.delay_interval)
    ∷ (Properties.payload_format_indicator, when (is_text w.payload) 1)
    ∷ (Properties.message_expiry_interval, optional_number w.message_expiry_interval)
    ∷ (Properties.content_type, optional_text w.content_type)
    ∷ (Properties.response_topic, optional_text w.response_topic)
    ∷ (Properties.correlation_data, optional_binary w.correlation_data)
    ∷ (Properties.user_property, nonempty_pairs w.user_properties)
    ∷ []

unfoldable pub encode_will_payload : Payload → Result (List ℕ)
encode_will_payload (text_payload s) = encode_string s
encode_will_payload (binary_payload bs) = encode_binary bs

unfoldable pub encode_will : Will → Result (List ℕ)
unfolding encode_will_payload
encode_will w =
    encode_props (collect (will_options w))
    +> (encode_string w.topic +> encode_will_payload w.payload)

unfoldable pub decode_will_payload : Bool → List ℕ → Result (Payload × List ℕ)
decode_will_payload true bs = do (s, rest) ← decode_string bs; ok (text_payload s, rest)
decode_will_payload false bs = do (b, rest) ← decode_binary bs; ok (binary_payload b, rest)

unfoldable pub decode_will : QoS → Bool → List ℕ → Result (Will × List ℕ)
unfolding decode_will_payload
decode_will qos retain bs = do
  (props, rest) ← decode_props will_types bs
  (topic, rest') ← decode_string rest
  (payload, rest'') ←
      decode_will_payload (flag_or 0 (get props Properties.payload_format_indicator)) rest'
  ok (
    record {
      qos = qos;
      retain = retain;
      delay_interval = number_or 0 (get props Properties.will_delay_interval);
      message_expiry_interval = as_number (get props Properties.message_expiry_interval);
      content_type = as_text (get props Properties.content_type);
      response_topic = as_text (get props Properties.response_topic);
      correlation_data = as_binary (get props Properties.correlation_data);
      user_properties = as_pairs (get props Properties.user_property);
      topic = topic;
      payload = payload;
    },
    rest'',
  )

-- `'MQTT'`
abbrev pub protocol_name : Text
protocol_name = 77 ∷ 81 ∷ 84 ∷ 84 ∷ []

unfoldable pub is_protocol_name : Text → Bool
is_protocol_name (a ∷ b ∷ c ∷ d ∷ []) = (a == 77) && ((b == 81) && ((c == 84) && (d == 84)))
is_protocol_name _ = false

-- The byte of flags; of a will it has the quality of service and the retain flag.
unfoldable pub connect_flags : Bool → Bool → QoS → Bool → Bool → Bool → ℕ
connect_flags clean_start will qos retain user_name password =
    bit_or
      (bit_or
        (bit_or
          (bit_or (bit_or (if clean_start then 0x02 else 0x00) (if will then 0x04 else 0x00))
            (if will then qos_value qos * 2 ^ 3 else 0x00))
          (if will && retain then 0x20 else 0x00))
        (if user_name then 0x80 else 0x00))
      (if password then 0x40 else 0x00)

-- `will.qos` and `will.retain`; where there is no will, nothing depends on them.
unfoldable pub will_qos : Option Will → QoS
will_qos none = at_most_once
will_qos (some w) = w.qos

unfoldable pub will_retain : Option Will → Bool
will_retain none = false
will_retain (some w) = w.retain

abbrev pub connect_types : List PropertyType
connect_types =
    Properties.session_expiry_interval ∷ Properties.receive_maximum ∷ Properties.maximum_packet_size
    ∷ Properties.topic_alias_maximum ∷ Properties.request_response_information
    ∷ Properties.request_problem_information ∷ Properties.user_property
    ∷ Properties.authentication_method ∷ Properties.authentication_data ∷ []

abbrev pub connect_options : ConnectPacket → Options
connect_options p =
    (Properties.session_expiry_interval, unless 0 p.session_expiry_interval)
    ∷ (Properties.receive_maximum, unless 0xffff p.receive_maximum)
    ∷ (Properties.maximum_packet_size, optional_number p.maximum_packet_size)
    ∷ (Properties.topic_alias_maximum, unless 0 p.topic_alias_maximum)
    ∷ (Properties.request_response_information, when p.request_response_information 1)
    ∷ (Properties.request_problem_information, when (not p.request_problem_information) 0)
    ∷ (Properties.user_property, nonempty_pairs p.user_properties)
    ∷ (Properties.authentication_method, optional_text p.authentication_method)
    ∷ (Properties.authentication_data, optional_binary p.authentication_data)
    ∷ []

unfoldable pub encode_connect_packet : ConnectPacket → Result (List ℕ)
unfolding connect_flags will_qos will_retain is_some encode_optional encode_will
encode_connect_packet p =
    encode_string protocol_name
    +> (ok (5 ∷ [])
        +> (ok (
              connect_flags p.clean_start (is_some p.will) (will_qos p.will) (will_retain p.will)
                (is_some p.user_name) (is_some p.password)
              ∷ [])
            +> (encode_uint16 p.keep_alive
                +> (encode_props (collect (connect_options p))
                    +> (encode_string p.client_identifier
                        +> (encode_optional encode_will p.will
                            +> (encode_optional encode_string p.user_name
                                +> encode_optional encode_binary p.password)))))))

unfoldable pub decode_connect_packet : List ℕ → Result (ConnectPacket × List ℕ)
unfolding is_protocol_name decode_will decode_optional is_some instead
decode_connect_packet bs = do
  (name, rest) ← decode_string bs
  guard (is_protocol_name name) mqtt_unsupported_version
  (version, rest) ← decode_uint8 rest
  guard (version == 5) mqtt_unsupported_version
  (flags, rest) ← decode_uint8 rest
  qos ← instead mqtt_malformed_packet (to_qos (bit_and (flags / 2 ^ 3) 0x03))
  (keep_alive, rest) ← decode_uint16 rest
  (props, rest) ← decode_props connect_types rest
  let authentication_method = as_text (get props Properties.authentication_method)
  let authentication_data = as_binary (get props Properties.authentication_data)
  guard (is_some authentication_method || not (is_some authentication_data)) mqtt_protocol_error
  (client_identifier, rest) ← decode_string rest
  (will, rest) ←
      decode_optional (not (bit_and flags 0x04 == 0))
        (decode_will qos (not (bit_and flags 0x20 == 0))) rest
  (user_name, rest) ← decode_optional (not (bit_and flags 0x80 == 0)) decode_string rest
  (password, rest) ← decode_optional (not (bit_and flags 0x40 == 0)) decode_binary rest
  ok (
    record {
      clean_start = not (bit_and flags 0x02 == 0);
      keep_alive = keep_alive;
      session_expiry_interval = number_or 0 (get props Properties.session_expiry_interval);
      receive_maximum = number_or 0xffff (get props Properties.receive_maximum);
      maximum_packet_size = as_number (get props Properties.maximum_packet_size);
      topic_alias_maximum = number_or 0 (get props Properties.topic_alias_maximum);
      request_response_information = flag_or 0 (get props Properties.request_response_information);
      request_problem_information = flag_or 1 (get props Properties.request_problem_information);
      user_properties = as_pairs (get props Properties.user_property);
      authentication_method = authentication_method;
      authentication_data = authentication_data;
      client_identifier = client_identifier;
      will = will;
      user_name = user_name;
      password = password;
    },
    rest,
  )
