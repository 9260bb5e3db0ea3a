-- ===== src/Backoffice.antt =====
-- modules/backoffice: enforcement actions after a confirmed fraud case, and the appeals against them.
pub mod Enforcement
pub mod Appeals
pub mod Overlap
pub mod Suspension
mod Examples
