-- ===== src/Media.antt =====
-- core/media and the helpers on URLs of core/shared/utils.py.
pub mod Urls
pub mod Trust
mod Tests
