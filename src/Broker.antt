-- ===== src/Broker.antt =====
-- The physical-activity broker: its wire protocol and its process.
pub mod Protocol
pub mod Runtime
