-- ===== src/Governance.antt =====
-- modules/governance: the votes of a building.
pub mod Voting
pub mod Tally
pub mod Result
pub mod Votes
pub mod History
pub mod Turnout
mod Examples
