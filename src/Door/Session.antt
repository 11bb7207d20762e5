-- ===== src/Door/Session.antt =====
-- `class SessionMachine` (apps/door-api/src/door_api/session.py), the visitor session: its data and
-- settings, the outcome of a session, the transition, the event handlers and the restart.
pub mod Types
pub mod Timers
pub mod Outcome
pub mod Transition
pub mod Recipients
pub mod Handlers
pub mod Restore
pub mod Commands
pub mod Invariant
pub mod Effects
pub mod Log
pub mod Expiry
pub mod Answered
pub mod Press
pub mod Rungs
pub mod Offer
pub mod Reset
pub mod Resume
