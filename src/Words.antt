-- ===== src/Words.antt =====
-- The sensitive words in the database and the service that changes them.
pub mod Table
pub mod Manage
pub mod Keeps
pub mod Requests
pub mod Outcomes
pub mod Updates
pub mod Failures
pub mod Poll
pub mod Listing
pub mod Export
