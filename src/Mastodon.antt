-- ===== src/Mastodon.antt =====
-- The blog's announcements on Mastodon, images/blog-klimlive/internal/mastodon.
pub mod Toot
pub mod Post
pub mod Sync
pub mod Examples
