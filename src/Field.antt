-- ===== src/Field.antt =====
-- src/twin/field: the faults that are injected into the simulated devices.
pub mod Faults
pub mod Device
pub mod Server
