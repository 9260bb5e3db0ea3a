-- ===== src/Finance/Sound/Others.antt =====
-- The transactions that write no charge item and no adjustment.
use vielhome_backend.Base.{ℕ, ◌≡◌, refl, inl, inr, Bool, arith, ◌==◌, Bool-cases}
use vielhome_backend.Base.Result.{ok, forbid-eq-ok, ok-injective}
use vielhome_backend.Finance.Schema.{EntryType, Direction, Reference, Payment, Store}
use vielhome_backend.Finance.Store.{post_cash}
use vielhome_backend.Finance.Payments.{reject_payment}
use vielhome_backend.Finance.Payments.Spends.{post_cash-Posts}
use vielhome_backend.Finance.Reversals.{RefundParams, create_refund, record_refund}
use vielhome_backend.Finance.Expenses.{
  ExpenseParams, key_taken, create_expense, record_expense, VoidParams, void_expense, record_void,
}
use vielhome_backend.Finance.Funds.{
  FundParams, create_fund, new_fund, add_fund, set_fund_active, get_or_create_default_fund,
}
use vielhome_backend.Finance.Batches.{cancel_batch}
use vielhome_backend.Finance.Requests.{PaymentParams, create_payment}
use vielhome_backend.Finance.Explicit.{ExplicitParams, create_explicit_payment, record_explicit}
use vielhome_backend.Finance.Sound.{IsSound}
use vielhome_backend.Finance.Sound.Settlements.{IsSound-same}

pub record KeepsDebts (s t : Store) : Type 0 where
  pub items : t.items ≡ s.items
  pub adjustments : t.adjustments ≡ s.adjustments

pub KeepsDebts-IsSound : {s t : Store} → KeepsDebts s t → IsSound s → IsSound t
KeepsDebts-IsSound k h = IsSound-same k.items k.adjustments h

pub post_cash-KeepsDebts :
    (kind : EntryType) (d : Direction) (fund_id n : ℕ) (r : Reference) (s : Store) {t : Store}
    → post_cash kind d fund_id n r s ≡ ok t
    → KeepsDebts s t
post_cash-KeepsDebts kind d fund_id n r s e =
    rw ((post_cash-Posts kind d fund_id n r s e).same) (record { items = refl; adjustments = refl })

pub create_fund-KeepsDebts :
    (p : FundParams) (s : Store) {t : Store} → create_fund p s ≡ ok t → KeepsDebts s t
unfolding create_fund
create_fund-KeepsDebts p s e = elim (Bool-cases (p.initial_balance == 0)) [
  | inl empty ↦ rw (← ok-injective (rw empty at e)) (record { items = refl; adjustments = refl })
  | inr funded ↦
      let k =
        post_cash-KeepsDebts EntryType.opening_balance Direction.credit p.fund_id p.initial_balance
          (Reference.of_fund p.fund_id) (add_fund (new_fund p) s) (rw funded at e) in
      record { items = k.items; adjustments = k.adjustments }
]

pub default_fund-KeepsDebts :
    (id building_id : ℕ) (s : Store) → KeepsDebts s (get_or_create_default_fund id building_id s).1
unfolding get_or_create_default_fund
default_fund-KeepsDebts id building_id s = ground arith

pub set_fund_active-KeepsDebts :
    (id : ℕ) (b : Bool) (s : Store) {t : Store} → set_fund_active id b s ≡ ok t → KeepsDebts s t
unfolding set_fund_active
set_fund_active-KeepsDebts id b s e = ground arith

pub cancel_batch-KeepsDebts :
    (id building_id : ℕ) (s : Store) {t : Store}
    → cancel_batch id building_id s ≡ ok t
    → KeepsDebts s t
unfolding cancel_batch
cancel_batch-KeepsDebts id building_id s e = ground arith

pub create_payment-KeepsDebts :
    (p : PaymentParams) (s : Store) {q : Payment} {t : Store}
    → create_payment p s ≡ ok (q, t)
    → KeepsDebts s t
unfolding create_payment
create_payment-KeepsDebts p s e = ground arith

pub create_explicit_payment-KeepsDebts :
    (p : ExplicitParams) (s : Store) {q : Payment} {t : Store}
    → create_explicit_payment p s ≡ ok (q, t)
    → KeepsDebts s t
unfolding create_explicit_payment record_explicit
create_explicit_payment-KeepsDebts p s e = ground arith

pub reject_payment-KeepsDebts :
    (id : ℕ) (s : Store) {t : Store} → reject_payment id s ≡ ok t → KeepsDebts s t
unfolding reject_payment
reject_payment-KeepsDebts id s e = ground arith

record_refund-KeepsDebts :
    (p : RefundParams) (s : Store) {t : Store} → record_refund p s ≡ ok t → KeepsDebts s t
unfolding record_refund
record_refund-KeepsDebts p s e =
    let k =
      post_cash-KeepsDebts EntryType.refund Direction.debit p.fund_id p.amount
        (Reference.of_refund p.refund_id) _ e in
    ground (arith, k.items, k.adjustments)

pub create_refund-KeepsDebts :
    (p : RefundParams) (s : Store) {t : Store} → create_refund p s ≡ ok t → KeepsDebts s t
unfolding create_refund
create_refund-KeepsDebts p s {t} e =
    let done : record_refund p s ≡ ok t = ground arith in record_refund-KeepsDebts p s done

record_expense-KeepsDebts :
    (p : ExpenseParams) (s : Store) {t : Store} → record_expense p s ≡ ok t → KeepsDebts s t
unfolding record_expense
record_expense-KeepsDebts p s e =
    let (_, e1) = forbid-eq-ok (key_taken p.idempotency_key s.expenses) _ _ e in
    let k =
      post_cash-KeepsDebts EntryType.expense Direction.debit p.fund_id p.amount
        (Reference.of_expense p.expense_id) _ e1 in
    record { items = k.items; adjustments = k.adjustments }

pub create_expense-KeepsDebts :
    (p : ExpenseParams) (s : Store) {t : Store} → create_expense p s ≡ ok t → KeepsDebts s t
unfolding create_expense
create_expense-KeepsDebts p s {t} e =
    let done : record_expense p s ≡ ok t = ground arith in record_expense-KeepsDebts p s done

record_void-KeepsDebts :
    (p : VoidParams) (s : Store) {t : Store} → record_void p s ≡ ok t → KeepsDebts s t
unfolding record_void
record_void-KeepsDebts p s e =
    let k =
      post_cash-KeepsDebts EntryType.expense Direction.credit p.fund_id p.amount
        (Reference.of_expense p.expense_id) _ e in
    record { items = k.items; adjustments = k.adjustments }

pub void_expense-KeepsDebts :
    (p : VoidParams) (s : Store) {t : Store} → void_expense p s ≡ ok t → KeepsDebts s t
unfolding void_expense
void_expense-KeepsDebts p s {t} e =
    let done : record_void p s ≡ ok t = ground arith in record_void-KeepsDebts p s done
