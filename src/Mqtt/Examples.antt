-- ===== src/Mqtt/Examples.antt =====
-- Concrete packets and properties.
use hat_drivers.Base.{
  ℕ, ◌≡◌, refl, arith, List, [], ◌∷◌, ◌++◌, length, ◌≤◌, All, true, false, none, some, ok, err,
  ◌>>=◌,
}
use hat_drivers.Base.{stuck, ◌≢◌}
use hat_drivers.Base.{mqtt_protocol_error}
use hat_drivers.Base.Utf8.{is_utf8}
use hat_drivers.Base.Bytes.{IsByte}
use hat_drivers.Mqtt.Common.{Text, at_least_once, exactly_once, qos_value, send_on_new_subscribe}
use hat_drivers.Mqtt.Packet.{
  Will, ConnectPacket, PublishPacket, connect, publish, text_payload, binary_payload,
}
use hat_drivers.Mqtt.Primitives.{
  encode_uintvar, decode_uintvar, uintvar_bytes, encode_uint8, encode_uint16, encode_uint32,
  encode_string, encode_binary,
}
use hat_drivers.Mqtt.Primitives.RoundTrip.{IsText}
use hat_drivers.Mqtt.Primitives.Uintvar.{IsUintvar, encode_uintvar_cases}
use hat_drivers.Mqtt.Properties
use hat_drivers.Mqtt.Properties.{
  PropertyType, Options, number, text, identifiers, text_pairs, collect, property_value, kind,
  same_type, mentions,
}
use hat_drivers.Mqtt.Properties.{
  encode_props, decode_props, encode_entries, encode_prop, encode_single, encode_value,
  encode_identifiers, encode_pairs, is_exactly_once,
}
use hat_drivers.Mqtt.Properties.RoundTrip.{is_listed, lacks, size, decode_props-encode_props}
use hat_drivers.Mqtt.Fields.{
  optional_number, optional_text, optional_binary, unless, when, nonempty_pairs, is_some, is_empty,
  encode_optional,
}
use hat_drivers.Mqtt.Publish.{is_text, encode_publish_packet, encode_identifier}
use hat_drivers.Mqtt.Connect.{
  encode_connect_packet, connect_flags, will_qos, will_retain, encode_will, encode_will_payload,
}
use hat_drivers.Mqtt.Connect.RoundTrip.{IsConnect}
use hat_drivers.Mqtt.Subscriptions.{encode_subscription, decode_subscription}
use hat_drivers.Mqtt.Subscriptions.Flags.{
  decode_subscription-no_local, decode_subscription-retain_as_published,
}
use hat_drivers.Mqtt.Encoder.{encode_packet, decode_packet, encode_packet_data}
use hat_drivers.Mqtt.Encoder.RoundTrip.{decode_packet-encode_packet}
use hat_drivers.Mqtt.Connection.{send, receive, receive-send_packet, receive-ne-stuck_packet}

encode_uintvar_cases_example :
    (bs : List ℕ) × (encode_uintvar 321 ≡ ok bs)
    × All IsByte bs
    × (length bs ≤ 4)
    × IsUintvar 4 bs
    × (decode_uintvar (bs ++ 7 ∷ []) ≡ ok (321, 7 ∷ []))
encode_uintvar_cases_example = encode_uintvar_cases 321 (7 ∷ []) (omega arith)

abbrev short_text : Text
short_text = 104 ∷ 105 ∷ []

short_text-IsText : IsText short_text
unfolding is_utf8
short_text-IsText = ((omega arith, (omega arith, (omega arith, tt))), refl)

abbrev valid_types : List PropertyType
valid_types =
    Properties.user_property ∷ Properties.subscription_identifier ∷ Properties.reason_string ∷ []

abbrev some_options : Options
some_options =
    (Properties.subscription_identifier, some (identifiers (5 ∷ 300 ∷ [])))
    ∷ (Properties.reason_string, none)
    ∷ (
      Properties.user_property,
      some (text_pairs ((short_text, short_text) ∷ (short_text, []) ∷ [])),
    )
    ∷ []

some_options-Listed : is_listed valid_types some_options ≡ true
unfolding is_listed lacks mentions same_type property_value
some_options-Listed = refl

empty-IsText : IsText []
unfolding is_utf8
empty-IsText = ((omega arith, tt), refl)

decode_props-encode_props_example :
    (encode_props (collect some_options) >>= λ bs. decode_props valid_types (bs ++ 7 ∷ []))
    ≡ ok (collect some_options, 7 ∷ [])
unfolding collect encode_entries encode_prop encode_identifiers encode_pairs encode_uintvar
    uintvar_bytes encode_string encode_uint16 property_value kind size
decode_props-encode_props_example =
    decode_props-encode_props valid_types some_options (7 ∷ []) some_options-Listed (
      (
        ((omega arith, omega arith), ((omega arith, omega arith), tt)),
        (
          tt,
          (((short_text-IsText, short_text-IsText), ((short_text-IsText, empty-IsText), tt)), tt),
        ),
      ),
      omega arith,
    )

abbrev a_will : Will
a_will = record {
  qos = exactly_once;
  retain = true;
  delay_interval = 60;
  message_expiry_interval = none;
  content_type = some short_text;
  response_topic = none;
  correlation_data = some (0 ∷ 255 ∷ []);
  user_properties = [];
  topic = short_text;
  payload = text_payload short_text;
}

abbrev a_connect : ConnectPacket
a_connect = record {
  clean_start = true;
  keep_alive = 300;
  session_expiry_interval = 0;
  receive_maximum = 20;
  maximum_packet_size = some 100000;
  topic_alias_maximum = 0;
  request_response_information = true;
  request_problem_information = false;
  user_properties = (short_text, short_text) ∷ [];
  authentication_method = none;
  authentication_data = none;
  client_identifier = short_text;
  will = some a_will;
  user_name = some short_text;
  password = none;
}

a_connect-IsConnect : IsConnect a_connect
unfolding collect encode_entries encode_prop encode_single encode_value encode_pairs encode_uintvar
    uintvar_bytes encode_string encode_binary encode_uint8 encode_uint16 encode_uint32
    property_value kind size is_some is_text optional_number optional_text optional_binary unless
    when nonempty_pairs
a_connect-IsConnect = record {
  keep_alive = omega arith;
  options = (
    (
      tt,
      (
        (omega arith, omega arith),
        (
          (omega arith, omega arith),
          (
            tt,
            (
              omega arith,
              (omega arith, (((short_text-IsText, short_text-IsText), tt), (tt, (tt, tt)))),
            ),
          ),
        ),
      ),
    ),
    omega arith,
  );
  method = refl;
  client_identifier = short_text-IsText;
  will = (
    (
      (
        omega arith,
        (
          omega arith,
          (
            tt,
            (short_text-IsText, (tt, ((omega arith, (omega arith, (omega arith, tt))), (tt, tt)))),
          ),
        ),
      ),
      omega arith,
    ),
    short_text-IsText,
    short_text-IsText,
  );
  user_name = short_text-IsText;
  password = tt;
}

decode_packet-encode_packet_example :
    (encode_packet (connect a_connect) >>= decode_packet) ≡ ok (connect a_connect)
unfolding collect encode_entries encode_prop encode_single encode_value encode_pairs encode_uintvar
    uintvar_bytes encode_string encode_binary encode_uint8 encode_uint16 encode_uint32
    property_value kind size is_some is_text optional_number optional_text optional_binary unless
    when nonempty_pairs encode_packet_data encode_connect_packet connect_flags will_qos will_retain
    encode_will encode_will_payload encode_optional encode_props qos_value
decode_packet-encode_packet_example =
    decode_packet-encode_packet (connect a_connect) a_connect-IsConnect (omega arith)

decode_subscription-retain_as_published_example :
    (encode_subscription (record {
      topic_filter = short_text;
      maximum_qos = exactly_once;
      no_local = false;
      retain_as_published = true;
      retain_handling = send_on_new_subscribe;
    })
      >>= λ bs. decode_subscription (bs ++ 7 ∷ []))
    ≡ ok (
      record {
        topic_filter = short_text;
        maximum_qos = exactly_once;
        no_local = true;
        retain_as_published = false;
        retain_handling = send_on_new_subscribe;
      },
      7 ∷ [],
    )
decode_subscription-retain_as_published_example =
    decode_subscription-retain_as_published
      (record {
        topic_filter = short_text;
        maximum_qos = exactly_once;
        no_local = false;
        retain_as_published = true;
        retain_handling = send_on_new_subscribe;
      })
      (7 ∷ []) short_text-IsText refl refl

abbrev a_publish : PublishPacket
a_publish = record {
  duplicate = false;
  qos = at_least_once;
  retain = true;
  topic_name = short_text;
  packet_identifier = some 7;
  message_expiry_interval = some 70000;
  topic_alias = none;
  response_topic = none;
  correlation_data = none;
  user_properties = [];
  subscription_identifiers = [];
  content_type = none;
  payload = binary_payload (1 ∷ 2 ∷ 255 ∷ []);
}

receive-send_packet_example :
    (send (publish a_publish) >>= λ bs. receive (bs ++ 7 ∷ [])) ≡ ok (publish a_publish, 7 ∷ [])
unfolding collect encode_entries encode_prop encode_single encode_value encode_pairs encode_uintvar
    uintvar_bytes encode_string encode_binary encode_uint8 encode_uint16 encode_uint32
    property_value kind size is_some is_text optional_number optional_text optional_binary unless
    when nonempty_pairs encode_packet_data encode_publish_packet encode_identifier is_empty
    encode_props
receive-send_packet_example =
    receive-send_packet (publish a_publish) (7 ∷ [])
      (
        short_text-IsText,
        omega arith,
        refl,
        ((tt, (omega arith, (tt, (tt, (tt, (tt, (tt, tt))))))), omega arith),
        (omega arith, (omega arith, (omega arith, tt))),
      )
      (omega arith)

decode_subscription-no_local_example :
    (encode_subscription (record {
      topic_filter = short_text;
      maximum_qos = at_least_once;
      no_local = true;
      retain_as_published = false;
      retain_handling = send_on_new_subscribe;
    })
      >>= λ bs. decode_subscription (bs ++ []))
    ≡ err mqtt_protocol_error
decode_subscription-no_local_example =
    decode_subscription-no_local
      (record {
        topic_filter = short_text;
        maximum_qos = at_least_once;
        no_local = true;
        retain_as_published = false;
        retain_handling = send_on_new_subscribe;
      })
      [] short_text-IsText refl

receive-ne-stuck_packet_example : receive (48 ∷ 3 ∷ 0 ∷ 5 ∷ 104 ∷ []) ≢ err stuck
receive-ne-stuck_packet_example = receive-ne-stuck_packet (48 ∷ 3 ∷ 0 ∷ 5 ∷ 104 ∷ [])
