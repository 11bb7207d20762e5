-- ===== src/Sync.antt =====
-- The upload of recordings to the archive (apps/door-sync).
pub mod Queue
pub mod Fence
pub mod World
pub mod Archive
pub mod Target
pub mod Engine
pub mod Enqueue
pub mod Reconcile
mod Tests
