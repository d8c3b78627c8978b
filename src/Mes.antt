-- ===== src/Mes.antt =====
-- src/twin/mes: the MES stub, its ledger of received items, its alarms and its tables.
pub mod Ingest
pub mod Alarms
pub mod Tables
pub mod Tanks
pub mod Runs
pub mod Process
pub mod Purge
pub mod Hub
