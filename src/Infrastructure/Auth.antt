-- ===== src/Infrastructure/Auth.antt =====
-- backend/src/app/infrastructure/authentication, backend/src/app/infrastructure/authorization, and
-- the dependency of backend/src/app/presentation/api/dependencies/auth.py.
pub mod Policies
pub mod Tokens
