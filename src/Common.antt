-- ===== src/Common.antt =====
-- common: what the modules of the application share.
pub mod Pagination
mod Examples
