-- ===== src/Accounts.antt =====
-- core/users and the account parts of core/authentication and core/admin_dashboard.
pub mod User
pub mod Status
pub mod Store
pub mod Actions
pub mod Return
pub mod Table
pub mod Effects
pub mod Recovery
pub mod Counted
pub mod RoundTrip
pub mod Samples
mod Tests
