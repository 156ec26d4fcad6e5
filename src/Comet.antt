-- ===== src/Comet.antt =====
-- pkg/comet, the long-connection layer.
pub mod Frame
pub mod ConnManager
pub mod Core
pub mod Ws
pub mod Client
pub mod Delivery
pub mod Server
