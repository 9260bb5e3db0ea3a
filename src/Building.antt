-- ===== src/Building.antt =====
-- modules/building: who owns, rents and manages what. Schema holds the tables; Units the owners and the
-- tenants of a unit; Managers the manager of a building.
pub mod Schema
pub mod Units
pub mod Occupants
pub mod Managers
pub mod Sound
pub mod Residents
pub mod Management
pub mod Decisions
pub mod History
pub mod Claims
mod Examples
pub mod Visibility
pub mod Privacy
pub mod Mandate
