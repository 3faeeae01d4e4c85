-- ===== src/Presentation.antt =====
-- backend/src/app/presentation
pub mod Exceptions
pub mod Routes
pub mod Health
pub mod Requests
pub mod Middleware
pub mod App
