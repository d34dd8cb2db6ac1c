-- ===== src/Cotp.antt =====
-- COTP over TPKT (src_py/hat/drivers/tpkt.py and cotp).
pub mod Tpkt
pub mod Encoder
pub mod Connection
mod Examples
