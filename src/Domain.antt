-- ===== src/Domain.antt =====
-- backend/src/app/domain: value objects, the reserved-name policy and the `User` aggregate.
pub mod Email
pub mod DisplayName
pub mod Aggregate
pub mod User
pub mod Result
