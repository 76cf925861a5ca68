-- ===== src/Users.antt =====
-- The functions of src/helpers.c that look users up, `login` and `logout`.
pub mod Find
pub mod Session
pub mod Total
