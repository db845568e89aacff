-- ===== src/Devices.antt =====
-- The deployment records of the activity broker: its crate's device_set.rs, initial_input_set.rs and
-- inherited_files.rs. A text or a path is its bytes.
pub mod InputSet
pub mod DeviceSet
pub mod Inherited
