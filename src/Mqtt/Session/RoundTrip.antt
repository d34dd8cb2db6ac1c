-- ===== src/Mqtt/Session/RoundTrip.antt =====
-- DISCONNECT and AUTH packets come back.
use hat_drivers.Base.{refl}
use hat_drivers.Mqtt.Primitives.RoundTrip.{Reads}
use hat_drivers.Mqtt.Primitives.Sequence.{then-Reads, last-Reads}
use hat_drivers.Mqtt.Properties.{property_value, same_type, mentions}
use hat_drivers.Mqtt.Properties.RoundTrip.{
  Writable, is_listed, lacks, lookup, props-Reads, get-collect,
}
use hat_drivers.Mqtt.Fields.{
  as_number-optional_number, as_text-optional_text, as_binary-optional_binary,
  as_pairs-nonempty_pairs, reason-Reads, required,
}
use hat_drivers.Mqtt.Packet.{DisconnectPacket, AuthPacket}
use hat_drivers.Mqtt.Session.{
  disconnect_types, disconnect_options, encode_disconnect_packet, decode_disconnect_packet,
}
use hat_drivers.Mqtt.Session.{auth_types, auth_options, encode_auth_packet, decode_auth_packet}
use hat_drivers.Mqtt.Fields.{as_text}

pub disconnect-Reads :
    (p : DisconnectPacket)
    → Writable (disconnect_options p)
    → Reads (encode_disconnect_packet p) decode_disconnect_packet p
unfolding encode_disconnect_packet decode_disconnect_packet is_listed lacks lookup mentions
    same_type property_value
disconnect-Reads p h = then-Reads _ (reason-Reads p.reason) (
    last-Reads _ (props-Reads disconnect_types (disconnect_options p) refl h) (λ rest.
      rw
        (
          get-collect disconnect_types (disconnect_options p) refl,
          as_number-optional_number p.session_expiry_interval,
          as_text-optional_text p.reason_string,
          as_text-optional_text p.server_reference,
          as_pairs-nonempty_pairs p.user_properties,
        )
        refl))

pub auth-Reads :
    (p : AuthPacket) → Writable (auth_options p) → Reads (encode_auth_packet p) decode_auth_packet p
unfolding encode_auth_packet decode_auth_packet is_listed lacks lookup mentions same_type
    property_value required as_text
auth-Reads p h = then-Reads _ (reason-Reads p.reason) (
    last-Reads _ (props-Reads auth_types (auth_options p) refl h) (λ rest.
      rw (get-collect auth_types (auth_options p) refl) (
        rw
          (
            as_binary-optional_binary p.authentication_data,
            as_text-optional_text p.reason_string,
            as_pairs-nonempty_pairs p.user_properties,
          )
          refl)))
