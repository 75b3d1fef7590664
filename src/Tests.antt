-- ===== src/Tests.antt =====
-- Concrete instances of the parameters, and each theorem applied at a concrete input.
pub mod Store
pub mod Breakers
pub mod Cache
pub mod Tokens
pub mod Users
pub mod Debuggers
pub mod Deletions
pub mod Orders
pub mod Requests
pub mod Gateways
pub mod Routes
pub mod Backends
pub mod Servers
pub mod Sessions
pub mod Losses
pub mod Refusals
pub mod Collectors
pub mod Shutdowns
pub mod Startups
