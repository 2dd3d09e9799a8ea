-- ===== src/Donations.antt =====
-- core/donations: what a successful payment records, and the numbers of early supporters.
pub mod Supporters
pub mod Numbers
mod Tests
