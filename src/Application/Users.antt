-- ===== src/Application/Users.antt =====
-- backend/src/app/application/users: the use cases.
pub mod Inputs
pub mod Handlers
pub mod Atomicity
pub mod Success
pub mod Changes
pub mod Unique
pub mod Newest
pub mod Listing
pub mod Integration
pub mod Written
pub mod Stale
