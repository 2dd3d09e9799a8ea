-- ===== src/Otp.antt =====
-- core/authentication/otp_service.py: one-time codes, their counters and their delivery.
pub mod World
pub mod Redis
pub mod Limits
pub mod Send
pub mod Verify
pub mod Service
pub mod Check
pub mod Guessing
pub mod Sending
pub mod Codes
pub mod Sound
pub mod Answer
mod Tests
