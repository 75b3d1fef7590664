-- ===== src/Gateway.antt =====
-- The API gateway (api-gateway).
pub mod Http
pub mod Mdwr
pub mod Service
pub mod Breaker
pub mod Users
pub mod Clients
pub mod Debug
pub mod Orders
pub mod Routers
pub mod Backend
pub mod Server
