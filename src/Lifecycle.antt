-- ===== src/Lifecycle.antt =====
-- Account actions, administrators' operations and the purge together: what holds of the tables after
-- any history of them.
pub mod Invariant
pub mod Steps
pub mod Operations
pub mod Keys
pub mod Purging
pub mod History
mod Tests
