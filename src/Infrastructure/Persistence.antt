-- ===== src/Infrastructure/Persistence.antt =====
-- backend/src/app/infrastructure/persistence: rows, the session, the mapper, the repository, the unit
-- of work and the outbox.
pub mod Models
pub mod Database
pub mod Mapper
pub mod Exec
pub mod OutboxRow
pub mod Repository
pub mod UnitOfWork
pub mod Relay
pub mod Migrations
