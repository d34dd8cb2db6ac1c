-- ===== src/Apci.antt =====
-- The APCI layer of IEC 60870-5-104.
pub mod Encoder
pub mod Transport
pub mod Connection
mod Examples
