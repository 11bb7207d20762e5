-- ===== src/Door.antt =====
-- The door-api service (apps/door-api/src/door_api): its durable store, its
-- session machine and the visitors' guestbook, polls and check-ins.
pub mod Outbox
pub mod Store
pub mod Session
pub mod Social
mod Tests
