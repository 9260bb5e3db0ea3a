-- ===== src/Lib.antt =====
-- Verification of the VielHome backend, the server of an application for the buildings of owners'
-- associations: their money (src/modules/finance), their votes (src/modules/governance), who owns, rents
-- and manages what (src/modules/building), requests and complaints (src/modules/cases), measures against
-- fraud (src/modules/backoffice), and signing in (src/modules/foundation/auth).
--
-- How the program works, and how it is modelled. A controller calls a service, which checks a request
-- by the policies of its module and calls a repository; the repository runs one database transaction,
-- which locks, reads, checks again and writes. Here the tables are lists of records, a transaction is
-- a function from the tables to a result, which is the new tables or the error that is thrown (an
-- error leaves the tables as they were), and a run of the program is a sequence of transactions that
-- returned. The transactions of one unit hold its advisory lock, and a state of a vote is claimed by a
-- compare-and-set, so that transactions stand one after another. Ids are numbers, and a column that
-- may be null is an Option. Amounts are natural numbers, of the size that is given: the database's
-- 32-bit column is not modelled. A fund's balance and the amount of an adjustment are signed.
--
-- Base: shared names; Base/Tests (Boolean tests), Base/Lists, Base/Table (rows with a key: findUnique
-- and update), Base/Int (signed integers), Base/Result (src/common/errors/app-error.ts). Query: the
-- results of findMany with a filter and an order, which later updates of other rows leave valid.
--
-- Finance, src/modules/finance. The repository is
-- infrastructure/repositories/finance.repository.ts, the tables are in prisma/schema.prisma:
--   Schema: the tables. Store: the reads and writes that the transactions share.
--   Funds: createFund, setFundActive, getOrCreateDefaultFund, the fund of a write.
--   Batches: createChargeBatch, issueChargeBatch, cancelChargeBatch. Split: allocateEqually of
--     application/finance.service.ts.
--   Debt: computeDebtSnapshot. Requests: createPayment. Explicit: createExplicitPayment.
--   Payments: approvePayment in both selection modes, rejectPayment.
--   Reversals: reversePayment, createRefund.
--   Adjustments: createAdjustment, applyOpeningBalanceCorrection.
--   Expenses: createExpense, voidExpense, with domain/policies/expense.policy.ts.
--   History: the transactions as steps, and the runs from empty tables.
--   Proofs: Ledger and its children (funds against the ledger), Sound and its children (debts against
--     what is paid on them), Payments/Places, Payments/Targets and Payments/Spends (where a payment goes),
--     Batches/SamePaid, Batches/Credit, Explicit/Order, Explicit/Total, Requests/Ceiling,
--     Reversals/Undo, Reversals/Laws, Expenses/Laws.
--     Examples: runs at concrete tables.
--
-- Governance, src/modules/governance:
--   Voting: isQuorumMet and calculateResult of domain/policies/vote.policy.ts.
--   Votes: publishVote, castBallot, closeVote and cancelVote, of application/voting.service.ts with
--     infrastructure/repositories/voting.repository.ts. History: the runs of these on one vote.
--   Proofs: Tally (what is counted), Result (who wins), Turnout. Examples: runs of a vote.
--
-- Building, src/modules/building, application/building.service.ts with
-- infrastructure/repositories/building.repository.ts and domain/policies:
--   Schema: the tables. Units: invitations, claims and automatic links of owners, transfers, tenancies.
--   Managers: founding, membership requests, changeManager, endManagement, and the decision of a
--     manager's verification case (src/modules/backoffice). History: the runs of all of these.
--   Visibility: what a person sees of a unit and of the owners before, domain/policies/unit-visibility.policy.ts.
--   Proofs: Occupants (owners and tenants against memberships), Sound (the invariant), Residents,
--     Management and Decisions (operations on managers), Claims, Privacy (Visibility), Mandate (managers as
--     a map from buildings to persons). Examples.
--
-- Cases, src/modules/cases, application/cases.service.ts with infrastructure/repositories/case.repository.ts
-- and domain/policies/case.policy.ts: Defs (rows, reads, createCase), Operations (the rest), Access (what a
-- person sees). Proofs: Life (the runs and their invariant), Ends, Merges. Examples.
--
-- Accounts, src/modules/foundation/auth, application/auth.service.ts with
-- infrastructure/repositories/auth.repository.ts: Otp (one-time codes), Tokens (refresh tokens). Proofs:
-- Guessing and Guessing/Bound. The hash is an argument. A wrong code is counted although the handler throws, so verifyOtp
-- gives the rows and the result. Its reads, checks and writes stand as one step. Examples.
--
-- Backoffice, src/modules/backoffice, application/fraud-case.service.ts with
-- infrastructure/repositories/backoffice.repository.ts: Enforcement (actions after a confirmed fraud case, their
-- effects, and appeals), Suspension (changePersonSuspensionAtomically). Proofs: Appeals, Overlap (two actions against one person). Examples.
--
-- Common, src/common: Pagination (pagination/pagination.util.ts). Examples.
--
-- Base/Lookup, Base/Count and Base/Unique: reading a table behind a new row, counts and updateMany, and
-- both over unique keys.
--
-- The parts meet in the tables: a charge that is issued becomes debt, which a request's ceiling reads,
-- an approval settles and a reversal opens again; approvals and expenses move a fund and write the
-- ledger.
--
-- Loops run over the rows that a query returned, so they are by recursion on a list, and no fuel is
-- needed. A primary key that the database makes is an argument; where a row is created, its key is
-- one that the table does not have yet.
--
-- Not modelled: the text of messages, titles and reasons, timestamps that no branch reads, the audit
-- trail and events, and reads for display; transactions that overlap, but for two expenses on one fund
-- (Expenses/Race), two merges (Cases/Merges), and a membership request, whose two writes stand apart;
-- createVote; splitting a charge by area, which is floating-point; the deletion of a unit and the
-- settings of a building; the delivery of codes and the signing of access tokens; the other state machines
-- of the back office (subscriptions, verification, fraud cases, support); and the other modules (documents,
-- notifications, gamification, marketplace).
pub mod Accounts
pub mod Backoffice
pub mod Base
pub mod Query
pub mod Finance
pub mod Governance
pub mod Building
pub mod Cases
pub mod Common
