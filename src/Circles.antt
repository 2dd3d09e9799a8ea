-- ===== src/Circles.antt =====
-- core/circles: circles, their members, anchors, posts, comments, responses and reports.
pub mod Content
pub mod State
pub mod Members
pub mod Engage
pub mod Comments
pub mod Responses
pub mod Anchors
pub mod Hidden
pub mod Reports
pub mod Samples
mod Tests
