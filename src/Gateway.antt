-- ===== src/Gateway.antt =====
-- services/gateway: the HTTP gateway before the gRPC services.
pub mod Query
pub mod Http
pub mod Mux
pub mod Routes
pub mod Feeds
pub mod Users
pub mod Interactions
pub mod Upload
pub mod Server
pub mod Starting
