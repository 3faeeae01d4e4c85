-- ===== src/Infrastructure/Caching.antt =====
-- backend/src/app/infrastructure/caching: the stores on Redis.
pub mod Redis
pub mod Store
pub mod Cache
pub mod Runs
pub mod Lock
pub mod Replay
