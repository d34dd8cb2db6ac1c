-- ===== src/Mqtt/Session.antt =====
-- DISCONNECT and AUTH packets in src_py/hat/drivers/mqtt/transport/encoder.py.
pub mod RoundTrip
use hat_drivers.Base.{ℕ, List, [], ◌∷◌, Option, none, some, Result, ok, err, ◌>>=◌, ◌>>◌}
use hat_drivers.Base.{mqtt_protocol_error}
use hat_drivers.Mqtt.Primitives.{◌+>◌}
use hat_drivers.Mqtt.Properties
use hat_drivers.Mqtt.Properties.{
  PropertyType, text, Options, collect, get, encode_props, decode_props,
}
use hat_drivers.Mqtt.Fields.{optional_number, optional_text, optional_binary, nonempty_pairs}
use hat_drivers.Mqtt.Fields.{
  as_number, as_text, as_binary, as_pairs, encode_reason, decode_reason, required,
}
use hat_drivers.Mqtt.Packet.{DisconnectPacket, AuthPacket}

abbrev pub disconnect_types : List PropertyType
disconnect_types =
    Properties.session_expiry_interval ∷ Properties.reason_string ∷ Properties.user_property
    ∷ Properties.server_reference ∷ []

abbrev pub disconnect_options : DisconnectPacket → Options
disconnect_options p =
    (Properties.session_expiry_interval, optional_number p.session_expiry_interval)
    ∷ (Properties.reason_string, optional_text p.reason_string)
    ∷ (Properties.user_property, nonempty_pairs p.user_properties)
    ∷ (Properties.server_reference, optional_text p.server_reference)
    ∷ []

unfoldable pub encode_disconnect_packet : DisconnectPacket → Result (List ℕ)
encode_disconnect_packet p = encode_reason p.reason +> encode_props (collect (disconnect_options p))

unfoldable pub decode_disconnect_packet : List ℕ → Result (DisconnectPacket × List ℕ)
decode_disconnect_packet bs = do
  (reason, rest) ← decode_reason bs
  (props, rest') ← decode_props disconnect_types rest
  ok (
    record {
      reason = reason;
      session_expiry_interval = as_number (get props Properties.session_expiry_interval);
      reason_string = as_text (get props Properties.reason_string);
      user_properties = as_pairs (get props Properties.user_property);
      server_reference = as_text (get props Properties.server_reference);
    },
    rest',
  )

abbrev pub auth_types : List PropertyType
auth_types =
    Properties.authentication_method ∷ Properties.authentication_data ∷ Properties.reason_string
    ∷ Properties.user_property ∷ []

abbrev pub auth_options : AuthPacket → Options
auth_options p =
    (Properties.authentication_method, some (text p.authentication_method))
    ∷ (Properties.authentication_data, optional_binary p.authentication_data)
    ∷ (Properties.reason_string, optional_text p.reason_string)
    ∷ (Properties.user_property, nonempty_pairs p.user_properties)
    ∷ []

unfoldable pub encode_auth_packet : AuthPacket → Result (List ℕ)
encode_auth_packet p = encode_reason p.reason +> encode_props (collect (auth_options p))

unfoldable pub decode_auth_packet : List ℕ → Result (AuthPacket × List ℕ)
unfolding required
decode_auth_packet bs = do
  (reason, rest) ← decode_reason bs
  (props, rest') ← decode_props auth_types rest
  authentication_method ←
      required mqtt_protocol_error (as_text (get props Properties.authentication_method))
  ok (
    record {
      reason = reason;
      authentication_method = authentication_method;
      authentication_data = as_binary (get props Properties.authentication_data);
      reason_string = as_text (get props Properties.reason_string);
      user_properties = as_pairs (get props Properties.user_property);
    },
    rest',
  )
