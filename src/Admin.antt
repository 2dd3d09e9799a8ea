-- ===== src/Admin.antt =====
-- core/admin_dashboard: what an administrator may do to an account, and does.
pub mod Rules
pub mod Erase
pub mod Users
pub mod Guards
pub mod Anonymous
pub mod Undo
mod Tests
