-- ===== src/Edge.antt =====
-- src/twin/edge: samples, the noise filter, the local buffer and the sender of the Edge collector.
pub mod Sample
pub mod Filter
pub mod Buffer
pub mod Reader
pub mod Driver
pub mod Sender
