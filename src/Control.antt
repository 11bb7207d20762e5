-- ===== src/Control.antt =====
-- The control plane (apps/control-plane-api).
pub mod Presence
mod Tests
