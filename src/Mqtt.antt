-- ===== src/Mqtt.antt =====
-- MQTT 5: the packets and their encoder (src_py/hat/drivers/mqtt).
pub mod Common
pub mod Packet
pub mod Primitives
pub mod Properties
pub mod Fields
pub mod Acks
pub mod Session
pub mod Subscriptions
pub mod Publish
pub mod Connect
pub mod ConnAck
pub mod Encoder
pub mod Connection
mod Examples
