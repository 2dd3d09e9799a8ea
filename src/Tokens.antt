-- ===== src/Tokens.antt =====
-- core/authentication/tokens.py: sessions as refresh tokens that are rotated and revoked.
pub mod State
pub mod Service
pub mod Revocation
pub mod Rotation
mod Tests
