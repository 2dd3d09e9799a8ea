-- ===== src/Feed.antt =====
-- core/feed/services: how a page of the feed is put together.
pub mod Assembly
