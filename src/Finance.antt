-- ===== src/Finance.antt =====
-- modules/finance: the ledger of a building. Schema has the tables, Store the reads and writes that
-- the operations share.
pub mod Schema
pub mod Store
pub mod Payments
pub mod Reversals
pub mod Adjustments
pub mod Batches
pub mod Ledger
pub mod Debt
pub mod Requests
pub mod Split
pub mod Explicit
pub mod Sound
pub mod History
mod Examples
pub mod Expenses
pub mod Funds
