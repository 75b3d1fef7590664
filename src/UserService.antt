-- ===== src/UserService.antt =====
-- The user service (user-service/): accounts in PostgreSQL, sessions in Redis, JSON web tokens.
pub mod Crypto
pub mod Repo
pub mod Sessions
pub mod Server
