-- ===== src/Seat.antt =====
-- The operator's gate of the X11 provider and its control plane.
pub mod Gate
pub mod Control
