-- ===== src/Modbus/Transport.antt =====
-- src_py/hat/drivers/modbus/transport: protocol data units and their framing.
pub mod Common
pub mod Values
pub mod Checksum
pub mod Encode
pub mod Decode
pub mod Size
pub mod Pdus
pub mod Tcp
pub mod Rtu
pub mod Connection
pub mod RtuSize
pub mod Ascii
pub mod Responses
pub mod Requests
