-- ===== src/Convert.antt =====
-- The converter of account files, web/src/lib/converter.ts, and its tab on the redeem page.
pub mod Detect
pub mod Account
pub mod Files
pub mod Tab
mod Tests
