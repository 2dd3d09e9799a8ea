-- ===== src/Engagement.antt =====
-- core/engagement: comments on posts, their threads and their likes.
pub mod State
pub mod Comments
pub mod Depth
pub mod Threads
pub mod Likes
pub mod Deletion
mod Tests
