-- ===== src/Mqtt/Connect/RoundTrip.antt =====
-- Wills and CONNECT packets come back.
use hat_drivers.Base.{
  ℕ, ◌≤◌, ◌≡◌, refl, List, [], ◌∷◌, Bool, true, false, not, Option, none, some, ok, arith,
}
use hat_drivers.Mqtt.Common.{Text, QoS, at_most_once, qos_value, to_qos}
use hat_drivers.Mqtt.Primitives.{encode_string, decode_string, encode_binary, decode_binary}
use hat_drivers.Mqtt.Primitives.RoundTrip.{
  Reads, uint16-Reads, text-Reads, binary-Reads, IsText, IsBinary,
}
use hat_drivers.Mqtt.Primitives.Sequence.{then-Reads, last-Reads}
use hat_drivers.Mqtt.Properties.{property_value, same_type, mentions}
use hat_drivers.Mqtt.Properties.RoundTrip.{
  Writable, is_listed, lacks, lookup, props-Reads, get-collect,
}
use hat_drivers.Mqtt.Fields.{
  as_number-optional_number, as_text-optional_text, as_binary-optional_binary,
  as_pairs-nonempty_pairs, number_or-unless, flag_or-when, flag_or-when-not, is_some, instead,
  AllOption, optional-Reads,
}
use hat_drivers.Base.{bit_and, ◌==◌, ◌/◌, ◌^◌, ◌||◌}
use hat_drivers.Mqtt.Packet.{Will, ConnectPacket, Payload, text_payload, binary_payload}
use hat_drivers.Mqtt.Publish.{is_text}
use hat_drivers.Mqtt.Primitives.{decode_uint8}
use hat_drivers.Mqtt.Fields.{encode_optional, decode_optional}
use hat_drivers.Base.Utf8.{is_utf8}
use hat_drivers.Mqtt.Connect.{
  will_types, will_options, encode_will_payload, decode_will_payload, encode_will, decode_will,
}
use hat_drivers.Mqtt.Connect.{
  protocol_name, is_protocol_name, connect_flags, will_qos, will_retain, connect_types,
  connect_options,
}
use hat_drivers.Mqtt.Connect.{encode_connect_packet, decode_connect_packet}

abbrev pub FitsWill : Payload → Type 0
FitsWill (text_payload s) = IsText s
FitsWill (binary_payload bs) = IsBinary bs

abbrev pub IsWill : Will → Type 0
IsWill w = Writable (will_options w) × IsText w.topic × FitsWill w.payload

payload-Reads :
    (p : Payload) → FitsWill p → Reads (encode_will_payload p) (decode_will_payload (is_text p)) p
unfolding encode_will_payload decode_will_payload is_text
payload-Reads (text_payload s) h = last-Reads _ (text-Reads s h) (λ rest. refl)
payload-Reads (binary_payload bs) h = last-Reads _ (binary-Reads bs h) (λ rest. refl)

pub will-Reads : (w : Will) → IsWill w → Reads (encode_will w) (decode_will w.qos w.retain) w
unfolding encode_will decode_will is_listed lacks lookup mentions same_type property_value
will-Reads w h = then-Reads _ (props-Reads will_types (will_options w) refl h.0) (
    then-Reads _ (text-Reads w.topic h.1) (
      rw (get-collect will_types (will_options w) refl, flag_or-when (is_text w.payload))
        (last-Reads _ (payload-Reads w.payload h.2) (λ rest.
          rw
            (
              number_or-unless 0 w.delay_interval,
              as_number-optional_number w.message_expiry_interval,
              as_text-optional_text w.content_type,
              as_text-optional_text w.response_topic,
              as_binary-optional_binary w.correlation_data,
              as_pairs-nonempty_pairs w.user_properties,
            )
            refl))))

-- What the decoder reads in a byte of flags
record Flags (n : ℕ) (clean_start will : Bool) (qos : QoS) (retain user_name password : Bool)
    : Type 0 where
  is_byte : n ≤ 255
  reads_qos : to_qos (bit_and (n / 2 ^ 3) 0x03) ≡ ok qos
  reads_clean_start : not (bit_and n 0x02 == 0) ≡ clean_start
  reads_will : not (bit_and n 0x04 == 0) ≡ will
  reads_retain : not (bit_and n 0x20 == 0) ≡ retain
  reads_user_name : not (bit_and n 0x80 == 0) ≡ user_name
  reads_password : not (bit_and n 0x40 == 0) ≡ password

will-Flags :
    (qos : QoS) (clean_start retain user_name password : Bool)
    → Flags
        (connect_flags clean_start true qos retain user_name password)
        clean_start
        true
        qos
        retain
        user_name
        password
unfolding connect_flags qos_value to_qos
will-Flags qos clean_start retain user_name password = record {
  is_byte = ground arith;
  reads_qos = ground arith;
  reads_clean_start = ground arith;
  reads_will = ground arith;
  reads_retain = ground arith;
  reads_user_name = ground arith;
  reads_password = ground arith;
}

no_will-Flags :
    (clean_start user_name password : Bool)
    → Flags
        (connect_flags clean_start false at_most_once false user_name password)
        clean_start
        false
        at_most_once
        false
        user_name
        password
unfolding connect_flags qos_value to_qos
no_will-Flags clean_start user_name password = record {
  is_byte = ground arith;
  reads_qos = ground arith;
  reads_clean_start = ground arith;
  reads_will = ground arith;
  reads_retain = ground arith;
  reads_user_name = ground arith;
  reads_password = ground arith;
}

connect_flags-Flags :
    (clean_start : Bool) (will : Option Will) (user_name password : Bool)
    → Flags
        (connect_flags clean_start
          (is_some will)
          (will_qos will)
          (will_retain will)
          user_name
          password)
        clean_start
        (is_some will)
        (will_qos will)
        (will_retain will)
        user_name
        password
unfolding is_some will_qos will_retain
connect_flags-Flags clean_start none user_name password =
    no_will-Flags clean_start user_name password
connect_flags-Flags clean_start (some w) user_name password =
    will-Flags w.qos clean_start w.retain user_name password

byte-Reads : (n : ℕ) → n ≤ 255 → Reads (ok (n ∷ [])) decode_uint8 n
unfolding decode_uint8
byte-Reads n h = record {
  image = n ∷ [];
  writes = refl;
  reads = λ rest. refl;
  are_bytes = (omega (arith, h), tt);
}

-- An optional will comes back with its quality of service and its retain flag from the byte of flags.
optional_will :
    (will : Option Will)
    → AllOption IsWill will
    → Reads
        (encode_optional encode_will will)
        (decode_optional (is_some will) (decode_will (will_qos will) (will_retain will)))
        will
unfolding will_qos will_retain encode_optional decode_optional is_some
optional_will none h = record { image = []; writes = refl; reads = λ rest. refl; are_bytes = tt }
optional_will (some w) h = last-Reads _ (will-Reads w h) (λ rest. refl)

texts :
    (o : Option Text)
    → AllOption IsText o
    → AllOption (λ s. Reads (encode_string s) decode_string s) o
texts none h = tt
texts (some s) h = text-Reads s h

binaries :
    (o : Option (List ℕ))
    → AllOption IsBinary o
    → AllOption (λ bs. Reads (encode_binary bs) decode_binary bs) o
binaries none h = tt
binaries (some bs) h = binary-Reads bs h

-- Fields in range; authentication data have a method.
pub record IsConnect (p : ConnectPacket) : Type 0 where
  pub keep_alive : p.keep_alive ≤ 0xffff
  pub options : Writable (connect_options p)
  pub method : (is_some p.authentication_method || not (is_some p.authentication_data)) ≡ true
  pub client_identifier : IsText p.client_identifier
  pub will : AllOption IsWill p.will
  pub user_name : AllOption IsText p.user_name
  pub password : AllOption IsBinary p.password

name-IsText : IsText protocol_name
unfolding is_utf8
name-IsText = ((omega arith, (omega arith, (omega arith, (omega arith, (omega arith, tt))))), refl)

pub connect-Reads :
    (p : ConnectPacket) → IsConnect p → Reads (encode_connect_packet p) decode_connect_packet p
unfolding encode_connect_packet decode_connect_packet is_listed lacks lookup mentions same_type
    property_value is_protocol_name instead
connect-Reads p h =
    let f = connect_flags-Flags p.clean_start p.will (is_some p.user_name) (is_some p.password) in
    then-Reads _ (text-Reads protocol_name name-IsText) (
      then-Reads _ (byte-Reads 5 (omega arith)) (
        then-Reads _ (byte-Reads _ f.is_byte) (
          rw (f.reads_qos) (
            then-Reads _ (uint16-Reads p.keep_alive h.keep_alive) (
              then-Reads _ (props-Reads connect_types (connect_options p) refl h.options) (
                rw
                  (
                    get-collect connect_types (connect_options p) refl,
                    as_text-optional_text p.authentication_method,
                    as_binary-optional_binary p.authentication_data,
                    h.method,
                  )
                  (then-Reads _ (text-Reads p.client_identifier h.client_identifier) (
                    rw
                      (
                        f.reads_will, f.reads_retain, f.reads_user_name, f.reads_password,
                        f.reads_clean_start,
                      )
                      (then-Reads _ (optional_will p.will h.will) (
                        then-Reads _
                          (optional-Reads encode_string decode_string p.user_name
                            (texts p.user_name h.user_name))
                          (last-Reads _
                            (optional-Reads encode_binary decode_binary p.password
                              (binaries p.password h.password))
                            (λ rest.
                              rw
                                (
                                  number_or-unless 0 p.session_expiry_interval,
                                  number_or-unless 0xffff p.receive_maximum,
                                  as_number-optional_number p.maximum_packet_size,
                                  number_or-unless 0 p.topic_alias_maximum,
                                  flag_or-when p.request_response_information,
                                  flag_or-when-not p.request_problem_information,
                                  as_pairs-nonempty_pairs p.user_properties,
                                )
                                refl))))))))))))
