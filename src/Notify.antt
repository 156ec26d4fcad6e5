-- ===== src/Notify.antt =====
-- services/notify: stored notifications and their delivery.
pub mod Store
pub mod Service
pub mod Reaching
