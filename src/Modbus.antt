-- ===== src/Modbus.antt =====
-- The Modbus protocol: src_py/hat/drivers/modbus.
pub mod Common
pub mod Transport
pub mod Slave
pub mod Master
pub mod Exchange
mod Examples
