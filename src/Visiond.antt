-- ===== src/Visiond.antt =====
-- The recognition of visitors (apps/door-visiond).
pub mod PurgeOutbox
pub mod Cache
pub mod Pipeline
mod Tests
