-- ===== src/Mqtt/Connection.antt =====
-- `Connection` in src_py/hat/drivers/mqtt/transport/connection.py: packets on a TCP connection.
use hat_drivers.Base.{ℕ, ◌+◌, ◌≤◌, ◌≡◌, refl, arith, List, [], ◌∷◌, ◌++◌, length, length-append}
use hat_drivers.Base.{Result, ok, ◌>>=◌}
use hat_drivers.Base.{stuck, err, ◌≢◌, >>=-ne-stuck}
use hat_drivers.Base.Stream.{read_frame, rounds, read_frame-append, read_frame-ne-stuck}
use hat_drivers.Mqtt.Encoder.Total.{decode_packet-ne-stuck, get_next_packet_size-ne-stuck}
use hat_drivers.Mqtt.Packet.{Packet}
use hat_drivers.Mqtt.Properties.RoundTrip.{size}
use hat_drivers.Mqtt.Primitives.Uintvar.{encode_uintvar_lem}
use hat_drivers.Mqtt.Encoder.{
  encode_packet, decode_packet, encode_packet_data, get_next_packet_size,
}
use hat_drivers.Mqtt.Encoder.RoundTrip.{IsPacket, Packed, packet-Packed}
use hat_drivers.Mqtt.Encoder.Stream.{Sized, front-Asks, size_known}

-- What `send` hands to the TCP connection
unfoldable pub send : Packet → Result (List ℕ)
send packet = encode_packet packet

-- The packet, and what stays in the stream
unfoldable pub receive : List ℕ → Result (Packet × List ℕ)
receive stream = do
  (packet_bytes, rest) ← read_frame get_next_packet_size (rounds stream) [] stream
  packet ← decode_packet packet_bytes
  ok (packet, rest)

Packed-Sized : (p : Packet) (r : Packed p) → Sized r.size_bytes.image (size (encode_packet_data p))
Packed-Sized p r = record {
  is_uintvar =
      encode_uintvar_lem (size (encode_packet_data p)) r.size_bytes.image r.size_bytes.writes;
  reads = r.size_bytes.reads;
}

receive-Packed :
    (p : Packet) (rest : List ℕ) (r : Packed p)
    → receive ((r.head ∷ r.size_bytes.image ++ r.body) ++ rest) ≡ ok (p, rest)
unfolding receive
receive-Packed p rest r =
    let image = r.head ∷ r.size_bytes.image ++ r.body in
    let s = Packed-Sized p r in
    rw
      (read_frame-append get_next_packet_size (λ n. Unit {0}) rest (rounds (image ++ rest)) [] image
        {n = 1 + length r.size_bytes.image + size (encode_packet_data p)}
        (omega (arith, length-append {0} image rest))
        (λ a b e ne t.
          front-Asks r.head (size (encode_packet_data p)) r.size_bytes.image r.body a b s
            r.body_size e ne)
        tt (size_known r.head (size (encode_packet_data p)) r.size_bytes.image r.body s)
        (omega (arith, length-append {0} r.size_bytes.image r.body, r.body_size)))
      (rw (r.reads) refl)

-- What `send` writes for a packet, `receive` takes off the stream as the same packet, whatever follows it,
-- and nothing more. The packet has identifiers and a keep-alive of 16 bits, texts in UTF-8 and binary data
-- of at most 65535 bytes, property values that fit their types (not 0 where the decoder refuses 0),
-- properties and data of at most 0x0fffffff bytes each, a payload of bytes (in UTF-8, for a text), and a
-- list of subscriptions, reasons or topic filters that is not empty. A PUBLISH packet has a packet
-- identifier exactly when its quality of service is not 0, and authentication data in CONNECT come with a
-- method. Left out are subscriptions with `no_local` or `retain_as_published` and PUBLISH packets with
-- subscription identifiers.
pub receive-send_packet :
    (p : Packet) (rest : List ℕ)
    → IsPacket p
    → size (encode_packet_data p) ≤ 0x0fffffff
    → (send p >>= λ bs. receive (bs ++ rest)) ≡ ok (p, rest)
unfolding send
receive-send_packet p rest h k =
    let r = packet-Packed p h k in rw (r.writes) (receive-Packed p rest r)

-- On every stream `receive` ends: neither its own loop nor a loop of the decoders runs out of rounds.
pub receive-ne-stuck_packet : (stream : List ℕ) → receive stream ≢ err stuck
unfolding receive
receive-ne-stuck_packet stream =
    >>=-ne-stuck (read_frame get_next_packet_size (rounds stream) [] stream) _
      (read_frame-ne-stuck get_next_packet_size get_next_packet_size-ne-stuck (rounds stream) []
        stream (omega arith))
      (λ x. >>=-ne-stuck (decode_packet x.0) _ (decode_packet-ne-stuck x.0) (λ p e. cc))
