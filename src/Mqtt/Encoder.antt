-- ===== src/Mqtt/Encoder.antt =====
-- The fixed header, `encode_packet` and `decode_packet` in src_py/hat/drivers/mqtt/transport/encoder.py.
pub mod RoundTrip
pub mod Flags
pub mod Stream
pub mod Drains
pub mod Payloads
pub mod Total
use hat_drivers.Base.{
  ℕ, List, [], ◌∷◌, ◌++◌, Bool, not, ◌||◌, if◌then◌else◌, bit_or, bit_and, ◌*◌, ◌/◌, ◌^◌, ◌==◌,
  Result, ok, err, ◌>>=◌, ◌>>◌, guard, length, true, false,
}
use hat_drivers.Base.{mqtt_malformed_packet}
use hat_drivers.Mqtt.Common.{QoS, at_most_once, at_least_once, qos_value, to_qos}
use hat_drivers.Mqtt.Properties
use hat_drivers.Mqtt.Properties.{get}
use hat_drivers.Mqtt.Fields.{instead, is_empty}
use hat_drivers.Base.{◌+◌, suc, zero, value_error}
use hat_drivers.Base.Bytes.{at}
use hat_drivers.Mqtt.Primitives.{encode_uintvar, decode_uintvar}
use hat_drivers.Mqtt.Packet.{
  Packet, connect, connack, publish, puback, pubrec, pubrel, pubcomp, subscribe, suback,
  unsubscribe, unsuback, pingreq, pingresp, disconnect, auth,
}
use hat_drivers.Mqtt.Acks.{
  encode_puback_packet, decode_puback_packet, encode_pubrec_packet, decode_pubrec_packet,
}
use hat_drivers.Mqtt.Acks.{
  encode_pubrel_packet, decode_pubrel_packet, encode_pubcomp_packet, decode_pubcomp_packet,
}
use hat_drivers.Mqtt.Session.{
  encode_disconnect_packet, decode_disconnect_packet, encode_auth_packet, decode_auth_packet,
}
use hat_drivers.Mqtt.Subscriptions.{
  encode_subscribe_packet, decode_subscribe_packet, encode_suback_packet, decode_suback_packet,
}
use hat_drivers.Mqtt.Subscriptions.{
  encode_unsubscribe_packet, decode_unsubscribe_packet, encode_unsuback_packet,
  decode_unsuback_packet,
}
use hat_drivers.Mqtt.Publish.{encode_publish_packet, decode_publish_packet}
use hat_drivers.Mqtt.Connect.{encode_connect_packet, decode_connect_packet}
use hat_drivers.Mqtt.ConnAck.{encode_connack_packet, decode_connack_packet}

pub data PacketType : Type 0 where
  connect_type connack_type publish_type puback_type pubrec_type pubrel_type pubcomp_type
        subscribe_type suback_type unsubscribe_type unsuback_type pingreq_type pingresp_type
        disconnect_type auth_type :
      PacketType

unfoldable pub packet_type_value : PacketType → ℕ
packet_type_value connect_type = 1
packet_type_value connack_type = 2
packet_type_value publish_type = 3
packet_type_value puback_type = 4
packet_type_value pubrec_type = 5
packet_type_value pubrel_type = 6
packet_type_value pubcomp_type = 7
packet_type_value subscribe_type = 8
packet_type_value suback_type = 9
packet_type_value unsubscribe_type = 10
packet_type_value unsuback_type = 11
packet_type_value pingreq_type = 12
packet_type_value pingresp_type = 13
packet_type_value disconnect_type = 14
packet_type_value auth_type = 15

-- `_PacketType(value)`
unfoldable pub to_packet_type : ℕ → Result PacketType
to_packet_type v =
    if v == 1
    then ok connect_type
    else if v == 2
    then ok connack_type
    else if v == 3
    then ok publish_type
    else if v == 4
    then ok puback_type
    else if v == 5
    then ok pubrec_type
    else if v == 6
    then ok pubrel_type
    else if v == 7
    then ok pubcomp_type
    else if v == 8
    then ok subscribe_type
    else if v == 9
    then ok suback_type
    else if v == 10
    then ok unsubscribe_type
    else if v == 11
    then ok unsuback_type
    else if v == 12
    then ok pingreq_type
    else if v == 13
    then ok pingresp_type
    else if v == 14
    then ok disconnect_type
    else if v == 15
    then ok auth_type
    else err value_error

unfoldable pub packet_type : Packet → PacketType
packet_type (connect p) = connect_type
packet_type (connack p) = connack_type
packet_type (publish p) = publish_type
packet_type (puback p) = puback_type
packet_type (pubrec p) = pubrec_type
packet_type (pubrel p) = pubrel_type
packet_type (pubcomp p) = pubcomp_type
packet_type (subscribe p) = subscribe_type
packet_type (suback p) = suback_type
packet_type (unsubscribe p) = unsubscribe_type
packet_type (unsuback p) = unsuback_type
packet_type pingreq = pingreq_type
packet_type pingresp = pingresp_type
packet_type (disconnect p) = disconnect_type
packet_type (auth p) = auth_type

unfoldable pub packet_duplicate : Packet → Bool
packet_duplicate (publish p) = p.duplicate
packet_duplicate _ = false

unfoldable pub packet_qos : Packet → QoS
packet_qos (publish p) = p.qos
packet_qos (pubrel p) = at_least_once
packet_qos (subscribe p) = at_least_once
packet_qos (unsubscribe p) = at_least_once
packet_qos _ = at_most_once

unfoldable pub packet_retain : Packet → Bool
packet_retain (publish p) = p.retain
packet_retain _ = false

unfoldable pub encode_packet_data : Packet → Result (List ℕ)
encode_packet_data (connect p) = encode_connect_packet p
encode_packet_data (connack p) = encode_connack_packet p
encode_packet_data (publish p) = encode_publish_packet p
encode_packet_data (puback p) = encode_puback_packet p
encode_packet_data (pubrec p) = encode_pubrec_packet p
encode_packet_data (pubrel p) = encode_pubrel_packet p
encode_packet_data (pubcomp p) = encode_pubcomp_packet p
encode_packet_data (subscribe p) = encode_subscribe_packet p
encode_packet_data (suback p) = encode_suback_packet p
encode_packet_data (unsubscribe p) = encode_unsubscribe_packet p
encode_packet_data (unsuback p) = encode_unsuback_packet p
encode_packet_data pingreq = ok []
encode_packet_data pingresp = ok []
encode_packet_data (disconnect p) = encode_disconnect_packet p
encode_packet_data (auth p) = encode_auth_packet p

-- The first byte of a packet
unfoldable pub fixed_header : PacketType → Bool → QoS → Bool → ℕ
unfolding packet_type_value
fixed_header t duplicate qos retain =
    bit_or
      (bit_or (bit_or (packet_type_value t * 2 ^ 4) (if duplicate then 0x08 else 0x00))
        (qos_value qos * 2))
      (if retain then 0x01 else 0x00)

unfoldable pub encode_packet : Packet → Result (List ℕ)
unfolding encode_packet_data fixed_header packet_type packet_duplicate packet_qos packet_retain
encode_packet p = do
  packet_data ← encode_packet_data p
  size ← encode_uintvar (length packet_data)
  ok (
      fixed_header (packet_type p) (packet_duplicate p) (packet_qos p) (packet_retain p) ∷ size
      ++ packet_data)

unfoldable pub same_qos : QoS → QoS → Bool
unfolding qos_value
same_qos q r = qos_value q == qos_value r

-- `if duplicate or qos != expected or retain: raise`, and the decoder of the packet
unfoldable pub decode_flagged {ℓ} :
    {A : Type ℓ}
    → QoS
    → Bool
    → QoS
    → Bool
    → (A → Packet)
    → (List ℕ → Result (A × List ℕ))
    → List ℕ
    → Result (Packet × List ℕ)
unfolding same_qos
decode_flagged expected duplicate qos retain packet read bs = do
  guard (not (duplicate || (not (same_qos qos expected) || retain))) mqtt_malformed_packet
  (p, rest) ← read bs
  ok (packet p, rest)

unfoldable pub decode_packet_data :
    PacketType → Bool → QoS → Bool → List ℕ → Result (Packet × List ℕ)
unfolding decode_flagged
decode_packet_data connect_type d q r bs =
    decode_flagged at_most_once d q r connect decode_connect_packet bs
decode_packet_data connack_type d q r bs =
    decode_flagged at_most_once d q r connack decode_connack_packet bs
decode_packet_data publish_type d q r bs = do
  (p, rest) ← decode_publish_packet d q r bs
  ok (publish p, rest)
decode_packet_data puback_type d q r bs =
    decode_flagged at_most_once d q r puback decode_puback_packet bs
decode_packet_data pubrec_type d q r bs =
    decode_flagged at_most_once d q r pubrec decode_pubrec_packet bs
decode_packet_data pubrel_type d q r bs =
    decode_flagged at_least_once d q r pubrel decode_pubrel_packet bs
decode_packet_data pubcomp_type d q r bs =
    decode_flagged at_most_once d q r pubcomp decode_pubcomp_packet bs
decode_packet_data subscribe_type d q r bs =
    decode_flagged at_least_once d q r subscribe decode_subscribe_packet bs
decode_packet_data suback_type d q r bs =
    decode_flagged at_most_once d q r suback decode_suback_packet bs
decode_packet_data unsubscribe_type d q r bs =
    decode_flagged at_least_once d q r unsubscribe decode_unsubscribe_packet bs
decode_packet_data unsuback_type d q r bs =
    decode_flagged at_most_once d q r unsuback decode_unsuback_packet bs
decode_packet_data pingreq_type d q r bs =
    decode_flagged at_most_once d q r (λ (u : Unit {0}). pingreq) (λ bs. ok (tt, bs)) bs
decode_packet_data pingresp_type d q r bs =
    decode_flagged at_most_once d q r (λ (u : Unit {0}). pingresp) (λ bs. ok (tt, bs)) bs
decode_packet_data disconnect_type d q r bs =
    decode_flagged at_most_once d q r disconnect decode_disconnect_packet bs
decode_packet_data auth_type d q r bs = decode_flagged at_most_once d q r auth decode_auth_packet bs

unfoldable pub decode_packet : List ℕ → Result Packet
unfolding decode_packet_data to_packet_type is_empty instead
decode_packet (head ∷ b ∷ bs) = do
  t ← instead mqtt_malformed_packet (to_packet_type (head / 2 ^ 4))
  qos ← instead mqtt_malformed_packet (to_qos (bit_and (head / 2) 0x03))
  (remaining_len, rest) ← decode_uintvar (b ∷ bs)
  guard (length rest == remaining_len) mqtt_malformed_packet
  (packet, rest') ←
      decode_packet_data t (not (bit_and head 0x08 == 0)) qos (not (bit_and head 0x01 == 0)) rest
  guard (is_empty rest') mqtt_malformed_packet
  ok packet
decode_packet _ = err mqtt_malformed_packet

-- The loop of `get_next_packet_size` on `data[1:]`, `n` rounds before `i > 3`: whether it breaks, or the
-- data end before, and `i`
unfoldable pub size_end : ℕ → ℕ → List ℕ → Result (Bool × ℕ)
size_end zero i bs = err mqtt_malformed_packet
size_end (suc n) i [] = ok (false, i)
size_end (suc n) i (b ∷ bs) = elim (bit_and b 0x80 == 0) [
  | true ↦ ok (true, i)
  | false ↦ size_end n (i + 1) bs
]

unfoldable pub next_packet_size : List ℕ → Bool × ℕ → Result ℕ
next_packet_size bs (false, i) = ok (i + 2)
next_packet_size bs (true, i) = do
  (remaining_len, rest) ← decode_uintvar bs
  ok (2 + i + remaining_len)

unfoldable pub get_next_packet_size : List ℕ → Result ℕ
unfolding size_end next_packet_size
get_next_packet_size (head ∷ b ∷ bs) = do end ← size_end 4 0 (b ∷ bs); next_packet_size (b ∷ bs) end
get_next_packet_size _ = ok 2
