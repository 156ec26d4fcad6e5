-- ===== src/Feed.antt =====
-- services/feed: posts and timelines.
pub mod Jsonb
pub mod Model
pub mod Repo
pub mod Interleave
pub mod Cache
pub mod Service
pub mod Timeline
