-- ===== src/Application.antt =====
-- backend/src/app/application: requests, results, the pipeline and the use cases.
pub mod Messages
pub mod Dto
pub mod Users
pub mod Ports
pub mod Context
pub mod Pipeline
