-- ===== src/Finance/History.antt =====
-- The finance module as a state machine: from empty tables, any sequence of its transactions. The
-- database gives a new row an id that is not used yet.
use vielhome_backend.Base.{ℕ, ◌≡◌, Bool, []}
use vielhome_backend.Base.Result.{ok}
use vielhome_backend.Finance.Schema.{Payment, Store}
use vielhome_backend.Finance.Payments.{ApproveParams, approve_payment, reject_payment}
use vielhome_backend.Finance.Reversals.{ReverseParams, reverse_payment, RefundParams, create_refund}
use vielhome_backend.Finance.Expenses.{ExpenseParams, create_expense, VoidParams, void_expense}
use vielhome_backend.Finance.Funds.{
  FundParams, create_fund, set_fund_active, get_or_create_default_fund,
}
use vielhome_backend.Finance.Adjustments.{
  AdjustmentParams, create_adjustment, CorrectionParams, correct_opening_balance,
}
use vielhome_backend.Finance.Batches.{
  BatchParams, create_batch, IssueParams, issue_batch, cancel_batch,
}
use vielhome_backend.Finance.Requests.{PaymentParams, create_payment}
use vielhome_backend.Finance.Explicit.{ExplicitParams, create_explicit_payment}
use vielhome_backend.Finance.Ledger.Payments.{
  Reconciled, approve_payment-Reconciled, reject_payment-Reconciled, reverse_payment-Reconciled,
  create_refund-Reconciled,
}
use vielhome_backend.Finance.Ledger.Funds.{
  IsFreshFund, create_expense-Reconciled, void_expense-Reconciled, create_fund-Reconciled,
  set_fund_active-Reconciled, get_or_create_default_fund-Reconciled,
}
use vielhome_backend.Finance.Ledger.Debts.{
  create_adjustment-Reconciled, correct_opening_balance-Reconciled, create_batch-Reconciled,
  issue_batch-Reconciled, cancel_batch-Reconciled, create_payment-Reconciled,
  create_explicit_payment-Reconciled,
}
use vielhome_backend.Finance.Sound.{IsSound}
use vielhome_backend.Finance.Sound.Settlements.{approve_payment-IsSound, reverse_payment-IsSound}
use vielhome_backend.Finance.Sound.Corrections.{
  IsFreshAdjustment, create_adjustment-IsSound, correct_opening_balance-IsSound,
}
use vielhome_backend.Finance.Sound.Batches.{IsFreshBatch, create_batch-IsSound, issue_batch-IsSound}
use vielhome_backend.Finance.Sound.Others.{
  KeepsDebts-IsSound, create_fund-KeepsDebts, default_fund-KeepsDebts, set_fund_active-KeepsDebts,
  cancel_batch-KeepsDebts, create_payment-KeepsDebts, create_explicit_payment-KeepsDebts,
  reject_payment-KeepsDebts, create_refund-KeepsDebts, create_expense-KeepsDebts,
  void_expense-KeepsDebts,
}

abbrev pub empty_store : Store
empty_store = record {
  funds = [];
  batches = [];
  items = [];
  adjustments = [];
  payments = [];
  allocations = [];
  selections = [];
  credits = [];
  ledger = [];
  refunds = [];
  expenses = [];
  item_payers = [];
}

pub data Step : Store → Store → Type 0 where
  fund_created :
      (p : FundParams) {s t : Store} → IsFreshFund p.fund_id s → create_fund p s ≡ ok t → Step s t
  default_fund :
      (id building_id : ℕ) {s : Store}
      → IsFreshFund id s
      → Step s (get_or_create_default_fund id building_id s).1
  fund_set : (id : ℕ) (b : Bool) {s t : Store} → set_fund_active id b s ≡ ok t → Step s t
  batch_created :
      (p : BatchParams) {s t : Store} → IsFreshBatch p s → create_batch p s ≡ ok t → Step s t
  batch_issued : (p : IssueParams) {s t : Store} → issue_batch p s ≡ ok t → Step s t
  batch_cancelled :
      (id building_id : ℕ) {s t : Store} → cancel_batch id building_id s ≡ ok t → Step s t
  payment_reported :
      (p : PaymentParams) {s t : Store} (q : Payment) → create_payment p s ≡ ok (q, t) → Step s t
  obligations_selected :
      (p : ExplicitParams) {s t : Store} (q : Payment)
      → create_explicit_payment p s ≡ ok (q, t)
      → Step s t
  payment_approved : (p : ApproveParams) {s t : Store} → approve_payment p s ≡ ok t → Step s t
  payment_rejected : (id : ℕ) {s t : Store} → reject_payment id s ≡ ok t → Step s t
  payment_reversed : (p : ReverseParams) {s t : Store} → reverse_payment p s ≡ ok t → Step s t
  payment_refunded : (p : RefundParams) {s t : Store} → create_refund p s ≡ ok t → Step s t
  debt_adjusted :
      (p : AdjustmentParams) {s t : Store}
      → IsFreshAdjustment p.adjustment_id s
      → create_adjustment p s ≡ ok t
      → Step s t
  balance_corrected :
      (p : CorrectionParams) {s t : Store}
      → IsFreshAdjustment p.adjustment_id s
      → correct_opening_balance p s ≡ ok t
      → Step s t
  expense_posted : (p : ExpenseParams) {s t : Store} → create_expense p s ≡ ok t → Step s t
  expense_voided : (p : VoidParams) {s t : Store} → void_expense p s ≡ ok t → Step s t

pub data Reaches (s : Store) : Store → Type 0 where
  here : Reaches s s
  next : {t u : Store} → Reaches s t → Step t u → Reaches s u

pub Step-Reconciled : {s t : Store} → Step s t → Reconciled s → Reconciled t
Step-Reconciled (fund_created p {s = s} fresh e) h = create_fund-Reconciled p s fresh h e
Step-Reconciled (default_fund id building_id {s = s} fresh) h =
    get_or_create_default_fund-Reconciled id building_id s fresh h
Step-Reconciled (fund_set id b {s = s} e) h = set_fund_active-Reconciled id b s h e
Step-Reconciled (batch_created p {s = s} fresh e) h = create_batch-Reconciled p s h e
Step-Reconciled (batch_issued p {s = s} e) h = issue_batch-Reconciled p s h e
Step-Reconciled (batch_cancelled id building_id {s = s} e) h =
    cancel_batch-Reconciled id building_id s h e
Step-Reconciled (payment_reported p {s = s} q e) h = create_payment-Reconciled p s h e
Step-Reconciled (obligations_selected p {s = s} q e) h = create_explicit_payment-Reconciled p s h e
Step-Reconciled (payment_approved p {s = s} e) h = approve_payment-Reconciled p s h e
Step-Reconciled (payment_rejected id {s = s} e) h = reject_payment-Reconciled id s h e
Step-Reconciled (payment_reversed p {s = s} e) h = reverse_payment-Reconciled p s h e
Step-Reconciled (payment_refunded p {s = s} e) h = create_refund-Reconciled p s h e
Step-Reconciled (debt_adjusted p {s = s} fresh e) h = create_adjustment-Reconciled p s h e
Step-Reconciled (balance_corrected p {s = s} fresh e) h = correct_opening_balance-Reconciled p s h e
Step-Reconciled (expense_posted p {s = s} e) h = create_expense-Reconciled p s h e
Step-Reconciled (expense_voided p {s = s} e) h = void_expense-Reconciled p s h e

Reaches-Reconciled : {s t : Store} → Reconciled s → Reaches s t → Reconciled t
Reaches-Reconciled h here = h
Reaches-Reconciled h (next r st) = Step-Reconciled st (Reaches-Reconciled h r)

-- After any sequence of transactions from empty tables, the balance of every fund is what its cash
-- entries in the ledger add up to, and no two funds share an id.
pub history-Reconciled : {t : Store} → Reaches empty_store t → Reconciled t
history-Reconciled r = Reaches-Reconciled (record { keyed = tt; balanced = tt }) r

pub Step-IsSound : {s t : Store} → Step s t → IsSound s → IsSound t
Step-IsSound (fund_created p {s = s} fresh e) h =
    KeepsDebts-IsSound (create_fund-KeepsDebts p s e) h
Step-IsSound (default_fund id building_id {s = s} fresh) h =
    KeepsDebts-IsSound (default_fund-KeepsDebts id building_id s) h
Step-IsSound (fund_set id b {s = s} e) h =
    KeepsDebts-IsSound (set_fund_active-KeepsDebts id b s e) h
Step-IsSound (batch_created p {s = s} fresh e) h = create_batch-IsSound p s fresh h e
Step-IsSound (batch_issued p {s = s} e) h = issue_batch-IsSound p s h e
Step-IsSound (batch_cancelled id building_id {s = s} e) h =
    KeepsDebts-IsSound (cancel_batch-KeepsDebts id building_id s e) h
Step-IsSound (payment_reported p {s = s} q e) h =
    KeepsDebts-IsSound (create_payment-KeepsDebts p s e) h
Step-IsSound (obligations_selected p {s = s} q e) h =
    KeepsDebts-IsSound (create_explicit_payment-KeepsDebts p s e) h
Step-IsSound (payment_approved p {s = s} e) h = approve_payment-IsSound p s h e
Step-IsSound (payment_rejected id {s = s} e) h =
    KeepsDebts-IsSound (reject_payment-KeepsDebts id s e) h
Step-IsSound (payment_reversed p {s = s} e) h = reverse_payment-IsSound p s h e
Step-IsSound (payment_refunded p {s = s} e) h =
    KeepsDebts-IsSound (create_refund-KeepsDebts p s e) h
Step-IsSound (debt_adjusted p {s = s} fresh e) h = create_adjustment-IsSound p s fresh h e
Step-IsSound (balance_corrected p {s = s} fresh e) h = correct_opening_balance-IsSound p s fresh h e
Step-IsSound (expense_posted p {s = s} e) h = KeepsDebts-IsSound (create_expense-KeepsDebts p s e) h
Step-IsSound (expense_voided p {s = s} e) h = KeepsDebts-IsSound (void_expense-KeepsDebts p s e) h

empty-IsSound : IsSound empty_store
empty-IsSound = record {
  items = record { keyed = tt; rows = tt };
  adjustments = record { keyed = tt; rows = tt };
}

-- After any sequence of transactions from empty tables, no charge item is paid beyond its amount, its
-- status is the one that `computeItemStatus` gives, no adjustment is paid beyond the debt that it
-- adds, and the ids of each of the two tables are unique.
pub history-IsSound : {t : Store} → Reaches empty_store t → IsSound t
history-IsSound here = empty-IsSound
history-IsSound (next r st) = Step-IsSound st (history-IsSound r)
