-- ===== src/OrderService.antt =====
-- The order service (order-service/): orders in PostgreSQL.
pub mod Ledger
pub mod Repo
pub mod Server
