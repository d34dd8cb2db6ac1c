-- ===== src/Mqtt/Encoder/RoundTrip.antt =====
-- `encode_packet` and `decode_packet`: a packet comes back.
use hat_drivers.Base.{
  ℕ, ◌≤◌, ◌≡◌, refl, ◌≢◌, List, [], ◌∷◌, ◌++◌, All, Bool, true, false, Result, ok, ◌>>=◌, arith,
  length,
}
use hat_drivers.Base.Bytes.{IsByte}
use hat_drivers.Mqtt.Common.{QoS, at_most_once, at_least_once, exactly_once, qos_value}
use hat_drivers.Mqtt.Primitives.RoundTrip.{Reads, IsText}
use hat_drivers.Mqtt.Primitives.Sequence.{Whole, Reads-Whole}
use hat_drivers.Mqtt.Properties.RoundTrip.{Writable}
use hat_drivers.Mqtt.Fields.{is_empty, instead}
use hat_drivers.Base.{All-append, eq→==, sym, ap}
use hat_drivers.Mqtt.Packet.{
  Packet, connect, connack, publish, puback, pubrec, pubrel, pubcomp, subscribe, suback,
  unsubscribe, unsuback, pingreq, pingresp, disconnect, auth,
}
use hat_drivers.Mqtt.Primitives.{encode_uintvar, decode_uintvar}
use hat_drivers.Mqtt.Primitives.RoundTrip.{uintvar-Reads}
use hat_drivers.Mqtt.Properties.RoundTrip.{size}
use hat_drivers.Mqtt.Subscriptions.RoundTrip.{
  IsSubscription, subscribe-Whole, suback-Whole, unsubscribe-Whole, unsuback-Whole,
}
use hat_drivers.Mqtt.Acks.{puback_options, pubrec_options, pubrel_options, pubcomp_options}
use hat_drivers.Mqtt.Acks.RoundTrip.{puback-Reads, pubrec-Reads, pubrel-Reads, pubcomp-Reads}
use hat_drivers.Mqtt.Session.{disconnect_options, auth_options}
use hat_drivers.Mqtt.Session.RoundTrip.{disconnect-Reads, auth-Reads}
use hat_drivers.Mqtt.Subscriptions.{
  subscribe_options, suback_options, unsubscribe_options, unsuback_options,
}
use hat_drivers.Mqtt.Publish.{publish_options}
use hat_drivers.Mqtt.Publish.RoundTrip.{IsIdentified, IsPayload, publish-Whole}
use hat_drivers.Mqtt.Connect.RoundTrip.{IsConnect, connect-Reads}
use hat_drivers.Mqtt.ConnAck.{connack_options}
use hat_drivers.Mqtt.ConnAck.RoundTrip.{connack-Reads}
use hat_drivers.Mqtt.Encoder.{
  PacketType, packet_type, packet_duplicate, packet_qos, packet_retain, encode_packet_data,
}
use hat_drivers.Mqtt.Encoder.{
  fixed_header, same_qos, decode_flagged, decode_packet_data, encode_packet, decode_packet,
}
use hat_drivers.Mqtt.Encoder.Flags.{Header, fixed_header-Header}

-- Packets whose fields are in range: 16-bit identifiers, texts in UTF-8, properties that fit their types
-- and a number of variable length; lists that must not be empty; subscriptions without `no_local` and
-- `retain_as_published`; publications without subscription identifiers.
abbrev pub IsPacket : Packet → Type 0
IsPacket (connect p) = IsConnect p
IsPacket (connack p) = Writable (connack_options p)
IsPacket (publish p) =
    IsText p.topic_name
    × IsIdentified p.qos p.packet_identifier
    × (p.subscription_identifiers ≡ [])
    × Writable (publish_options p)
    × IsPayload p.payload
IsPacket (puback p) = (p.packet_identifier ≤ 0xffff) × Writable (puback_options p)
IsPacket (pubrec p) = (p.packet_identifier ≤ 0xffff) × Writable (pubrec_options p)
IsPacket (pubrel p) = (p.packet_identifier ≤ 0xffff) × Writable (pubrel_options p)
IsPacket (pubcomp p) = (p.packet_identifier ≤ 0xffff) × Writable (pubcomp_options p)
IsPacket (subscribe p) =
    (p.packet_identifier ≤ 0xffff)
    × Writable (subscribe_options p)
    × (is_empty p.subscriptions ≡ false)
    × All IsSubscription p.subscriptions
IsPacket (suback p) =
    (p.packet_identifier ≤ 0xffff) × Writable (suback_options p) × (is_empty p.reasons ≡ false)
IsPacket (unsubscribe p) =
    (p.packet_identifier ≤ 0xffff)
    × Writable (unsubscribe_options p)
    × (is_empty p.topic_filters ≡ false)
    × All IsText p.topic_filters
IsPacket (unsuback p) =
    (p.packet_identifier ≤ 0xffff) × Writable (unsuback_options p) × (is_empty p.reasons ≡ false)
IsPacket pingreq = Unit
IsPacket pingresp = Unit
IsPacket (disconnect p) = Writable (disconnect_options p)
IsPacket (auth p) = Writable (auth_options p)

same-qos : (q : QoS) → same_qos q q ≡ true
unfolding same_qos qos_value
same-qos at_most_once = refl
same-qos at_least_once = refl
same-qos exactly_once = refl

flagged-Whole {ℓ} :
    {A : Type ℓ} (q : QoS) (packet : A → Packet) {w : Result (List ℕ)}
    {read : List ℕ → Result (A × List ℕ)} {a : A}
    → Whole w read a
    → Whole w (decode_flagged q false q false packet read) (packet a)
unfolding decode_flagged
flagged-Whole q packet {w} {read} {a} h = record {
  image = h.image;
  writes = h.writes;
  reads = rw (same-qos q, h.reads) refl;
  are_bytes = h.are_bytes;
}

abbrev Body : Packet → Type 0
Body p =
    Whole (encode_packet_data p)
      (decode_packet_data (packet_type p) (packet_duplicate p) (packet_qos p) (packet_retain p)) p

ping-Whole : Whole {A = Unit {0}} (ok []) (λ bs. ok (tt, bs)) tt
ping-Whole = record { image = []; writes = refl; reads = refl; are_bytes = tt }

encode_packet_data-Whole : (p : Packet) → IsPacket p → Body p
unfolding encode_packet_data decode_packet_data packet_type packet_duplicate packet_qos
    packet_retain
encode_packet_data-Whole (connect p) h =
    flagged-Whole at_most_once connect (Reads-Whole (connect-Reads p h))
encode_packet_data-Whole (connack p) h =
    flagged-Whole at_most_once connack (Reads-Whole (connack-Reads p h))
encode_packet_data-Whole (publish p) h =
    let r = publish-Whole p h.0 h.1 h.2 h.3 h.4 in
    record {
      image = r.image;
      writes = r.writes;
      reads = rw (r.reads) refl;
      are_bytes = r.are_bytes;
    }
encode_packet_data-Whole (puback p) h =
    flagged-Whole at_most_once puback (Reads-Whole (puback-Reads p h.0 h.1))
encode_packet_data-Whole (pubrec p) h =
    flagged-Whole at_most_once pubrec (Reads-Whole (pubrec-Reads p h.0 h.1))
encode_packet_data-Whole (pubrel p) h =
    flagged-Whole at_least_once pubrel (Reads-Whole (pubrel-Reads p h.0 h.1))
encode_packet_data-Whole (pubcomp p) h =
    flagged-Whole at_most_once pubcomp (Reads-Whole (pubcomp-Reads p h.0 h.1))
encode_packet_data-Whole (subscribe p) h =
    flagged-Whole at_least_once subscribe (subscribe-Whole p h.0 h.1 h.2 h.3)
encode_packet_data-Whole (suback p) h =
    flagged-Whole at_most_once suback (suback-Whole p h.0 h.1 h.2)
encode_packet_data-Whole (unsubscribe p) h =
    flagged-Whole at_least_once unsubscribe (unsubscribe-Whole p h.0 h.1 h.2 h.3)
encode_packet_data-Whole (unsuback p) h =
    flagged-Whole at_most_once unsuback (unsuback-Whole p h.0 h.1 h.2)
encode_packet_data-Whole pingreq h = flagged-Whole at_most_once (λ u. pingreq) ping-Whole
encode_packet_data-Whole pingresp h = flagged-Whole at_most_once (λ u. pingresp) ping-Whole
encode_packet_data-Whole (disconnect p) h =
    flagged-Whole at_most_once disconnect (Reads-Whole (disconnect-Reads p h))
encode_packet_data-Whole (auth p) h = flagged-Whole at_most_once auth (Reads-Whole (auth-Reads p h))

-- The bytes of a packet: its header, the length of the rest, and the rest
pub record Packed (p : Packet) : Type 0 where
  pub head : ℕ
  pub size_bytes :
      Reads
        (encode_uintvar (size (encode_packet_data p)))
        decode_uintvar
        (size (encode_packet_data p))
  pub body : List ℕ
  pub body_size : length body ≡ size (encode_packet_data p)
  pub writes : encode_packet p ≡ ok (head ∷ size_bytes.image ++ body)
  pub reads : decode_packet (head ∷ size_bytes.image ++ body) ≡ ok p
  pub are_bytes : All IsByte (head ∷ size_bytes.image ++ body)

no_size : {n : ℕ × List ℕ} → decode_uintvar [] ≢ ok n
unfolding decode_uintvar
no_size e = cc

decode_parts :
    (head : ℕ) (bs body : List ℕ) {t : PacketType} {d : Bool} {q : QoS} {r : Bool} {n : ℕ}
    {p : Packet}
    → Header head t d q r
    → decode_uintvar bs ≡ ok (n, body)
    → length body ≡ n
    → decode_packet_data t d q r body ≡ ok (p, [])
    → decode_packet (head ∷ bs) ≡ ok p
unfolding decode_packet instead is_empty
decode_parts head [] body f e l h = absurd (no_size e)
decode_parts head (b ∷ bs) body {n = n} f e l h =
    rw (f.reads_type, f.reads_qos, e, eq→== (length body) n l, f.reads_duplicate, f.reads_retain, h)
      refl

pub packet-Packed : (p : Packet) → IsPacket p → size (encode_packet_data p) ≤ 0x0fffffff → Packed p
unfolding encode_packet size
packet-Packed p h k =
    let b = encode_packet_data-Whole p h in
    let n = uintvar-Reads (size (encode_packet_data p)) k in
    let f =
      fixed_header-Header (packet_type p) (packet_duplicate p) (packet_qos p) (packet_retain p) in
    let l : length b.image ≡ size (encode_packet_data p) = sym (ap size b.writes) in
    let head = fixed_header (packet_type p) (packet_duplicate p) (packet_qos p) (packet_retain p) in
    record {
      head = head;
      size_bytes = n;
      body = b.image;
      body_size = l;
      writes = rw (b.writes, l, n.writes) refl;
      reads = decode_parts head (n.image ++ b.image) b.image f (n.reads b.image) l b.reads;
      are_bytes =
          (omega (arith, f.is_byte), All-append IsByte n.image b.image n.are_bytes b.are_bytes);
    }

-- `encode_packet` gives bytes that `decode_packet` turns back into the packet. The packet has identifiers
-- and a keep-alive of 16 bits, texts in UTF-8 and binary data of at most 65535 bytes, property values that
-- fit their types (not 0 where the decoder refuses 0), properties and data of at most 0x0fffffff bytes
-- each, a payload of bytes (in UTF-8, for a text), and a list of subscriptions, reasons or topic filters
-- that is not empty. A PUBLISH packet has a packet identifier exactly when its quality of service is not
-- 0, and authentication data in CONNECT come with a method. Left out are subscriptions with `no_local` or
-- `retain_as_published` and PUBLISH packets with subscription identifiers.
pub decode_packet-encode_packet :
    (p : Packet)
    → IsPacket p
    → size (encode_packet_data p) ≤ 0x0fffffff
    → (encode_packet p >>= decode_packet) ≡ ok p
decode_packet-encode_packet p h k = let r = packet-Packed p h k in rw (r.writes) (r.reads)
