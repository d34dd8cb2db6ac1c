-- ===== src/Mqtt/Packet.antt =====
-- src_py/hat/drivers/mqtt/transport/common.py: the packets.
use hat_drivers.Base.{ℕ, List, Bool, Option}
use hat_drivers.Mqtt.Common.{Text, QoS, Reason, Subscription}

-- The payload of a message: a `str` or bytes
pub data Payload : Type 0 where
  text_payload binary_payload : List ℕ → Payload

pub record Will : Type 0 where
  pub qos : QoS
  pub retain : Bool
  pub delay_interval : ℕ
  pub message_expiry_interval : Option ℕ
  pub content_type : Option Text
  pub response_topic : Option Text
  pub correlation_data : Option (List ℕ)
  pub user_properties : List (Text × Text)
  pub topic : Text
  pub payload : Payload

pub record ConnectPacket : Type 0 where
  pub clean_start : Bool
  pub keep_alive : ℕ
  pub session_expiry_interval : ℕ
  pub receive_maximum : ℕ
  pub maximum_packet_size : Option ℕ
  pub topic_alias_maximum : ℕ
  pub request_response_information : Bool
  pub request_problem_information : Bool
  pub user_properties : List (Text × Text)
  pub authentication_method : Option Text
  pub authentication_data : Option (List ℕ)
  pub client_identifier : Text
  pub will : Option Will
  pub user_name : Option Text
  pub password : Option (List ℕ)

pub record ConnAckPacket : Type 0 where
  pub session_present : Bool
  pub reason : Reason
  pub session_expiry_interval : Option ℕ
  pub receive_maximum : ℕ
  pub maximum_qos : QoS
  pub retain_available : Bool
  pub maximum_packet_size : Option ℕ
  pub assigned_client_identifier : Option Text
  pub topic_alias_maximum : ℕ
  pub reason_string : Option Text
  pub user_properties : List (Text × Text)
  pub wildcard_subscription_available : Bool
  pub subscription_identifier_available : Bool
  pub shared_subscription_available : Bool
  pub server_keep_alive : Option ℕ
  pub response_information : Option Text
  pub server_reference : Option Text
  pub authentication_method : Option Text
  pub authentication_data : Option (List ℕ)

pub record PublishPacket : Type 0 where
  pub duplicate : Bool
  pub qos : QoS
  pub retain : Bool
  pub topic_name : Text
  pub packet_identifier : Option ℕ
  pub message_expiry_interval : Option ℕ
  pub topic_alias : Option ℕ
  pub response_topic : Option Text
  pub correlation_data : Option (List ℕ)
  pub user_properties : List (Text × Text)
  pub subscription_identifiers : List ℕ
  pub content_type : Option Text
  pub payload : Payload

pub record PubAckPacket : Type 0 where
  pub packet_identifier : ℕ
  pub reason : Reason
  pub reason_string : Option Text
  pub user_properties : List (Text × Text)

pub record PubRecPacket : Type 0 where
  pub packet_identifier : ℕ
  pub reason : Reason
  pub reason_string : Option Text
  pub user_properties : List (Text × Text)

pub record PubRelPacket : Type 0 where
  pub packet_identifier : ℕ
  pub reason : Reason
  pub reason_string : Option Text
  pub user_properties : List (Text × Text)

pub record PubCompPacket : Type 0 where
  pub packet_identifier : ℕ
  pub reason : Reason
  pub reason_string : Option Text
  pub user_properties : List (Text × Text)

pub record SubscribePacket : Type 0 where
  pub packet_identifier : ℕ
  pub subscription_identifier : Option ℕ
  pub user_properties : List (Text × Text)
  pub subscriptions : List Subscription

pub record SubAckPacket : Type 0 where
  pub packet_identifier : ℕ
  pub reason_string : Option Text
  pub user_properties : List (Text × Text)
  pub reasons : List Reason

pub record UnsubscribePacket : Type 0 where
  pub packet_identifier : ℕ
  pub user_properties : List (Text × Text)
  pub topic_filters : List Text

pub record UnsubAckPacket : Type 0 where
  pub packet_identifier : ℕ
  pub reason_string : Option Text
  pub user_properties : List (Text × Text)
  pub reasons : List Reason

pub record DisconnectPacket : Type 0 where
  pub reason : Reason
  pub session_expiry_interval : Option ℕ
  pub reason_string : Option Text
  pub user_properties : List (Text × Text)
  pub server_reference : Option Text

pub record AuthPacket : Type 0 where
  pub reason : Reason
  pub authentication_method : Text
  pub authentication_data : Option (List ℕ)
  pub reason_string : Option Text
  pub user_properties : List (Text × Text)

pub data Packet : Type 0 where
  connect : ConnectPacket → Packet
  connack : ConnAckPacket → Packet
  publish : PublishPacket → Packet
  puback : PubAckPacket → Packet
  pubrec : PubRecPacket → Packet
  pubrel : PubRelPacket → Packet
  pubcomp : PubCompPacket → Packet
  subscribe : SubscribePacket → Packet
  suback : SubAckPacket → Packet
  unsubscribe : UnsubscribePacket → Packet
  unsuback : UnsubAckPacket → Packet
  pingreq : Packet
  pingresp : Packet
  disconnect : DisconnectPacket → Packet
  auth : AuthPacket → Packet
