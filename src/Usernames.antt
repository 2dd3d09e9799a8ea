-- ===== src/Usernames.antt =====
-- core/users: the rules for claiming, changing and reserving @handles.
pub mod Format
pub mod Policy
pub mod Change
pub mod Uniqueness
pub mod Reservations
pub mod Pace
pub mod Grace
pub mod Cooldown
pub mod Accepted
mod Tests
