-- ===== src/Reports.antt =====
-- The handlers of src/helpers.c that answer with a list or a number.
pub mod Listing
pub mod Lines
pub mod Account
