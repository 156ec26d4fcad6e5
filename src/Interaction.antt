-- ===== src/Interaction.antt =====
-- services/interaction: likes, comments and bookmarks.
pub mod Uuid
pub mod LikeRepo
pub mod Redis
pub mod LikeStorage
pub mod Comments
pub mod Service
