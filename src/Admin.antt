-- ===== src/Admin.antt =====
-- The pages of the administration, web/src/pages/admin, and their shared parts.
pub mod Pagination
pub mod Credentials
pub mod BatchForm
pub mod Badges
pub mod Batches
pub mod BatchList
pub mod Dashboard
pub mod Faq
pub mod Logs
pub mod Session
pub mod Settings
mod Tests
