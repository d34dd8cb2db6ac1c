-- ===== src/Link.antt =====
-- The link layer of IEC 60870-5-101 and 103: src_py/hat/drivers/iec60870/link.
pub mod Common
pub mod Encoder
pub mod Endpoint
mod Examples
