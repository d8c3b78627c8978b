-- ===== src/Plc.antt =====
-- src/twin/plc: the PLC twin, its D area, its Modbus TCP server, its links and its bus scanner.
pub mod Memory
pub mod Server
pub mod Link
pub mod Scanner
pub mod Runtime
