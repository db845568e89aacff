-- ===== src/Session.antt =====
-- Sessions of the X11 provider: crates/agent-seat-x11/src/session.rs, with the grant of
-- crates/agent-seat-x11/src/config.rs.
pub mod Grants
pub mod Handshake
pub mod Requests
pub mod Run
