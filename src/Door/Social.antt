-- ===== src/Door/Social.antt =====
-- What visitors leave at the door (apps/door-api/src/door_api/social): the guestbook, polls and
-- check-ins.
pub mod RateLimit
pub mod Store
pub mod Service
pub mod Acts
mod Tests
