-- ===== src/Board.antt =====
-- The announcements of server.py: the checks of their content, the table, and its operations.
pub mod Content
pub mod Notices
pub mod Limit
pub mod Consent
pub mod Listing
