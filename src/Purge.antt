-- ===== src/Purge.antt =====
-- core/users/tasks.py: the task that purges accounts whose deletion is due.
pub mod Task
pub mod Requests
pub mod Spared
pub mod Progress
pub mod Settled
pub mod Samples
mod Tests
