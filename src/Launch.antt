-- ===== src/Launch.antt =====
-- Application launch: crates/agent-seat-x11/src/launch.rs, with the launch policy of
-- crates/agent-seat-x11/src/config.rs.
pub mod Exec
pub mod Expand
pub mod Catalog
pub mod Supervisor
pub mod Entry
