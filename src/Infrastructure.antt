-- ===== src/Infrastructure.antt =====
-- backend/src/app/infrastructure
pub mod Settings
pub mod Persistence
pub mod Caching
pub mod Auth
pub mod Messaging
pub mod Mail
pub mod Worker
pub mod Observability
