-- ===== src/Proto.antt =====
-- The crate agent-seat-proto: bounded wire values, message validation, framing and advertisement.
pub mod Limits
pub mod Bounded
pub mod Order
pub mod Identity
pub mod Capability
pub mod Text
pub mod Hello
pub mod Keyboard
pub mod Requests
pub mod Input
pub mod Region
pub mod Image
pub mod Desktop
pub mod Call
pub mod Failure
pub mod Captures
pub mod Page
pub mod Replies
pub mod Codec
pub mod Advertisement
pub mod Messages
