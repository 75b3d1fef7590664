-- ===== src/Protos.antt =====
-- The messages of the two gRPC services and their generated validation
-- (protos/generated-user, protos/generated-order).
pub mod Violation
pub mod Address
pub mod Rules
pub mod User
pub mod Order
