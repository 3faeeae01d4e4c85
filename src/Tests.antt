-- ===== src/Tests.antt =====
-- Concrete surroundings for the development, and its theorems at concrete inputs.
pub mod Surroundings
pub mod Servers
pub mod Samples
pub mod Commands
pub mod Domain
pub mod Store
pub mod Requests
pub mod Retries
pub mod Edges
pub mod Streams
pub mod Worker
pub mod Outbox
pub mod Web
