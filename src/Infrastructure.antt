-- ===== src/Infrastructure.antt =====
-- The services under the modules: src/infrastructure.
pub mod Addresses
pub mod Events
pub mod Registry
pub mod Reads
pub mod RateLimit
pub mod RateGuard
pub mod Cache
pub mod Outbox
pub mod SignInMessage
pub mod WalletAuth
