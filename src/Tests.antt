-- ===== src/Tests.antt =====
-- The theorems at concrete inputs.
pub mod Wire
pub mod Image
pub mod Gate
pub mod Control
pub mod Broker
pub mod Runtime
pub mod Devices
pub mod Discovery
pub mod Desktop
pub mod Sessions
pub mod Files
pub mod Launch
