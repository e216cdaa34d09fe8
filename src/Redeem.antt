-- ===== src/Redeem.antt =====
-- The redeem page, web/src/pages/redeem.tsx.
pub mod Codes
pub mod Email
pub mod Submit
pub mod Archive
pub mod History
pub mod Delivery
pub mod Dialogs
pub mod Notes
mod Tests
