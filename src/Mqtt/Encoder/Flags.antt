-- ===== src/Mqtt/Encoder/Flags.antt =====
-- What the first byte of a packet says.
use hat_drivers.Base.{ℕ, ◌≤◌, ◌≡◌, arith, not, ◌==◌, ◌/◌, ◌^◌, bit_and, Bool, ok}
use hat_drivers.Mqtt.Common.{QoS, to_qos, qos_value}
use hat_drivers.Mqtt.Encoder.{PacketType, packet_type_value, to_packet_type, fixed_header}

pub record Header (n : ℕ) (t : PacketType) (duplicate : Bool) (qos : QoS) (retain : Bool)
    : Type 0 where
  pub is_byte : n ≤ 255
  pub reads_type : to_packet_type (n / 2 ^ 4) ≡ ok t
  pub reads_duplicate : not (bit_and n 0x08 == 0) ≡ duplicate
  pub reads_qos : to_qos (bit_and (n / 2) 0x03) ≡ ok qos
  pub reads_retain : not (bit_and n 0x01 == 0) ≡ retain

pub fixed_header-Header :
    (t : PacketType) (duplicate : Bool) (qos : QoS) (retain : Bool)
    → Header (fixed_header t duplicate qos retain) t duplicate qos retain
unfolding fixed_header packet_type_value to_packet_type to_qos qos_value
fixed_header-Header t duplicate qos retain = record {
  is_byte = ground arith;
  reads_type = ground arith;
  reads_duplicate = ground arith;
  reads_qos = ground arith;
  reads_retain = ground arith;
}
