-- ===== src/Modbus.antt =====
-- src/twin/common/modbus.py: the Modbus RTU and TCP codecs. A `bytes` object is a list of numbers.
pub mod Outcome
pub mod Crc
pub mod Pdu
pub mod Stream
pub mod Value
