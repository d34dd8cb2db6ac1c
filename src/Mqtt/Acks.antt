-- ===== src/Mqtt/Acks.antt =====
-- Acknowledgements in src_py/hat/drivers/mqtt/transport/encoder.py: PUBACK, PUBREC, PUBREL, PUBCOMP.
pub mod RoundTrip
use hat_drivers.Base.{ℕ, List, [], ◌∷◌, Option, none, Result, ok, ◌>>=◌, ◌>>◌}
use hat_drivers.Mqtt.Primitives.{encode_uint16, decode_uint16, ◌+>◌}
use hat_drivers.Mqtt.Properties
use hat_drivers.Mqtt.Properties.{PropertyType, Options, collect, get, encode_props, decode_props}
use hat_drivers.Mqtt.Fields.{optional_text, nonempty_pairs}
use hat_drivers.Mqtt.Fields.{as_text, as_pairs, encode_reason, decode_reason}
use hat_drivers.Mqtt.Packet.{PubAckPacket, PubRecPacket, PubRelPacket, PubCompPacket}

abbrev pub ack_types : List PropertyType
ack_types = Properties.reason_string ∷ Properties.user_property ∷ []

abbrev pub puback_options : PubAckPacket → Options
puback_options p =
    (Properties.reason_string, optional_text p.reason_string)
    ∷ (Properties.user_property, nonempty_pairs p.user_properties)
    ∷ []

unfoldable pub encode_puback_packet : PubAckPacket → Result (List ℕ)
encode_puback_packet p =
    encode_uint16 p.packet_identifier
    +> (encode_reason p.reason +> encode_props (collect (puback_options p)))

unfoldable pub decode_puback_packet : List ℕ → Result (PubAckPacket × List ℕ)
decode_puback_packet bs = do
  (packet_identifier, rest) ← decode_uint16 bs
  (reason, rest') ← decode_reason rest
  (props, rest'') ← decode_props ack_types rest'
  ok (
    record {
      packet_identifier = packet_identifier;
      reason = reason;
      reason_string = as_text (get props Properties.reason_string);
      user_properties = as_pairs (get props Properties.user_property);
    },
    rest'',
  )

abbrev pub pubrec_options : PubRecPacket → Options
pubrec_options p =
    (Properties.reason_string, optional_text p.reason_string)
    ∷ (Properties.user_property, nonempty_pairs p.user_properties)
    ∷ []

unfoldable pub encode_pubrec_packet : PubRecPacket → Result (List ℕ)
encode_pubrec_packet p =
    encode_uint16 p.packet_identifier
    +> (encode_reason p.reason +> encode_props (collect (pubrec_options p)))

unfoldable pub decode_pubrec_packet : List ℕ → Result (PubRecPacket × List ℕ)
decode_pubrec_packet bs = do
  (packet_identifier, rest) ← decode_uint16 bs
  (reason, rest') ← decode_reason rest
  (props, rest'') ← decode_props ack_types rest'
  ok (
    record {
      packet_identifier = packet_identifier;
      reason = reason;
      reason_string = as_text (get props Properties.reason_string);
      user_properties = as_pairs (get props Properties.user_property);
    },
    rest'',
  )

abbrev pub pubrel_options : PubRelPacket → Options
pubrel_options p =
    (Properties.reason_string, optional_text p.reason_string)
    ∷ (Properties.user_property, nonempty_pairs p.user_properties)
    ∷ []

unfoldable pub encode_pubrel_packet : PubRelPacket → Result (List ℕ)
encode_pubrel_packet p =
    encode_uint16 p.packet_identifier
    +> (encode_reason p.reason +> encode_props (collect (pubrel_options p)))

unfoldable pub decode_pubrel_packet : List ℕ → Result (PubRelPacket × List ℕ)
decode_pubrel_packet bs = do
  (packet_identifier, rest) ← decode_uint16 bs
  (reason, rest') ← decode_reason rest
  (props, rest'') ← decode_props ack_types rest'
  ok (
    record {
      packet_identifier = packet_identifier;
      reason = reason;
      reason_string = as_text (get props Properties.reason_string);
      user_properties = as_pairs (get props Properties.user_property);
    },
    rest'',
  )

abbrev pub pubcomp_options : PubCompPacket → Options
pubcomp_options p =
    (Properties.reason_string, optional_text p.reason_string)
    ∷ (Properties.user_property, nonempty_pairs p.user_properties)
    ∷ []

unfoldable pub encode_pubcomp_packet : PubCompPacket → Result (List ℕ)
encode_pubcomp_packet p =
    encode_uint16 p.packet_identifier
    +> (encode_reason p.reason +> encode_props (collect (pubcomp_options p)))

unfoldable pub decode_pubcomp_packet : List ℕ → Result (PubCompPacket × List ℕ)
decode_pubcomp_packet bs = do
  (packet_identifier, rest) ← decode_uint16 bs
  (reason, rest') ← decode_reason rest
  (props, rest'') ← decode_props ack_types rest'
  ok (
    record {
      packet_identifier = packet_identifier;
      reason = reason;
      reason_string = as_text (get props Properties.reason_string);
      user_properties = as_pairs (get props Properties.user_property);
    },
    rest'',
  )
