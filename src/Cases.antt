-- ===== src/Cases.antt =====
-- modules/cases: requests, complaints and suggestions of a building, from application/cases.service.ts
-- with domain/policies/case.policy.ts and infrastructure/repositories/case.repository.ts. An operation
-- is the guards of the service, then the write of the repository; the roles that a person has in the
-- building are an argument.
pub mod Defs
pub mod Operations
pub mod Life
pub mod Ends
pub mod Merges
pub mod Access
mod Examples
