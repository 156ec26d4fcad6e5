-- ===== src/User.antt =====
-- services/user: accounts and follows.
pub mod Repo
pub mod Follows
pub mod Service
