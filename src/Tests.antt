-- ===== src/Tests.antt =====
-- Concrete runs of the models.
pub mod Comet
pub mod Feed
pub mod Timeline
pub mod Interaction
pub mod Races
pub mod Load
pub mod Notify
pub mod User
pub mod Gateway
pub mod Deployment
pub mod Server
