-- ===== src/Examples.antt =====
-- The theorems at concrete inputs, and tests of the definitions that they speak of.
pub mod Modbus
pub mod Plc
pub mod Edge
pub mod Mes
pub mod Config
pub mod Process
pub mod Reader
pub mod Transfer
pub mod Alarms
pub mod Field
