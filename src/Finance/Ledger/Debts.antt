-- ===== src/Finance/Ledger/Debts.antt =====
-- Corrections of debt, charge batches and reported payments keep every fund's balance equal to what
-- its ledger adds up to.
use vielhome_backend.Base.{
  ℕ, ◌+◌, ◌-◌, ◌≡◌, refl, inl, inr, min, Bool, true, false, ◌||◌, List, [], ◌∷◌, arith, ◌==◌,
  Bool-cases, if◌then◌else◌,
}
use vielhome_backend.Base.Int.{ℤ, pos_part, abs, ◌-ℤ◌}
use vielhome_backend.Base.Result.{ok}
use vielhome_backend.Finance.Schema.{ChargeItem, Adjustment, Payment, Store, issued}
use vielhome_backend.Finance.Store.{outstanding_items, write_item, write_adjustment, find_credit}
use vielhome_backend.Finance.Adjustments.{
  AdjustmentParams, create_adjustment, is_negative, post_adjustment, waive, waive_items,
  add_adjustment, new_adjustment, CorrectionParams, correct_opening_balance, waive_corrections,
  settle_correction, bank_waiver, prior_corrections, correction_row, opening_balance,
}
use vielhome_backend.Finance.Batches.{
  issue_batch-record, BatchParams, create_batch, IssueParams, issue_batch, record_issue,
  write_payers, PayerResolution, apply_credits, use_credit, cancel_batch, items_of, write_batch,
  credit_balance,
}
use vielhome_backend.Finance.Requests.{PaymentParams, create_payment}
use vielhome_backend.Finance.Explicit.{ExplicitParams, create_explicit_payment, record_explicit}
use vielhome_backend.Finance.Ledger.Reconciled.{
  KeepsCash, KeepsCash-trans, KeepsCash-IsReconciled, post-IsReconciled,
}
use vielhome_backend.Finance.Ledger.Payments.{Reconciled, upsert_credit-KeepsCash}

waive_items-KeepsCash :
    (n : ℕ) (rows : List ChargeItem) (s : Store) → KeepsCash s (waive_items n rows s).0
unfolding waive_items
waive_items-KeepsCash n [] s = record { funds = refl; ledger = refl }
waive_items-KeepsCash n (i ∷ rest) s = ground (
  arith,
  waive_items-KeepsCash n rest s,
  waive_items-KeepsCash (n - m) rest (write_item i.id (i.paid_amount + m) s),
)
  where
    m : ℕ
    m = min n (i.amount - i.paid_amount)

waive-KeepsCash : (unit_id : ℕ) (amount : ℤ) (s : Store) → KeepsCash s (waive unit_id amount s)
unfolding waive
waive-KeepsCash unit_id amount s =
    ground (arith, waive_items-KeepsCash (abs amount) (outstanding_items unit_id s) s)

pub create_adjustment-Reconciled :
    (p : AdjustmentParams) (s : Store) {t : Store}
    → Reconciled s
    → create_adjustment p s ≡ ok t
    → Reconciled t
unfolding create_adjustment
create_adjustment-Reconciled p s {t} h e =
    let added = add_adjustment (new_adjustment p) s in
    let done : post_adjustment p.adjustment_id p.fund_id p.amount (waive p.unit_id p.amount added)
        ≡ t =
      ground arith in
    let kept = waive-KeepsCash p.unit_id p.amount added in
    rw (← done) (post-IsReconciled _ refl (rw (kept.funds, kept.ledger) h))

waive_corrections-KeepsCash :
    (n : ℕ) (rows : List Adjustment) (s : Store) → KeepsCash s (waive_corrections n rows s).0
unfolding waive_corrections
waive_corrections-KeepsCash n [] s = record { funds = refl; ledger = refl }
waive_corrections-KeepsCash n (a ∷ rest) s = ground (
  arith,
  waive_corrections-KeepsCash n rest s,
  waive_corrections-KeepsCash (n - m) rest (write_adjustment a.id (a.paid_amount + m) s),
)
  where
    m : ℕ
    m = min n (pos_part a.amount - a.paid_amount)

bank_waiver-KeepsCash : (unit_id n : ℕ) (s : Store) → KeepsCash s (bank_waiver unit_id (s, n))
bank_waiver-KeepsCash unit_id n s = ground (arith, upsert_credit-KeepsCash unit_id n s)

settle_correction-KeepsCash :
    (p : CorrectionParams) (delta : ℤ) (s : Store) → KeepsCash s (settle_correction p delta s)
unfolding settle_correction
settle_correction-KeepsCash p delta s = elim (Bool-cases (is_negative delta)) [
  | inl down ↦ rw down (
      let (t, left) = waive_corrections (abs delta) (prior_corrections p s) s in
      KeepsCash-trans (waive_corrections-KeepsCash (abs delta) (prior_corrections p s) s)
        (bank_waiver-KeepsCash p.unit_id left t))
  | inr up ↦ rw up (record { funds = refl; ledger = refl })
]

pub correct_opening_balance-Reconciled :
    (p : CorrectionParams) (s : Store) {t : Store}
    → Reconciled s
    → correct_opening_balance p s ≡ ok t
    → Reconciled t
unfolding correct_opening_balance
correct_opening_balance-Reconciled p s {t} h e =
    let delta = p.target_balance -ℤ opening_balance p.unit_id s in
    let added = add_adjustment (correction_row p delta) s in
    let done : post_adjustment p.adjustment_id p.fund_id delta (settle_correction p delta added)
        ≡ t =
      ground arith in
    let kept = settle_correction-KeepsCash p delta added in
    rw (← done) (post-IsReconciled _ refl (rw (kept.funds, kept.ledger) h))

pub create_batch-Reconciled :
    (p : BatchParams) (s : Store) {t : Store}
    → Reconciled s
    → create_batch p s ≡ ok t
    → Reconciled t
unfolding create_batch
create_batch-Reconciled p s {t} h e =
    let kept : KeepsCash s t = ground arith in KeepsCash-IsReconciled kept h

write_payers-KeepsCash :
    (rows : List PayerResolution) (s : Store) → KeepsCash s (write_payers rows s)
unfolding write_payers
write_payers-KeepsCash [] s = record { funds = refl; ledger = refl }
write_payers-KeepsCash (r ∷ rest) s =
    let k = write_payers-KeepsCash rest _ in record { funds = k.funds; ledger = k.ledger }

apply_credits-Reconciled :
    (fund_id : ℕ) (rows : List ChargeItem) (s : Store)
    → Reconciled s
    → Reconciled (apply_credits fund_id rows s)
unfolding apply_credits
apply_credits-Reconciled fund_id [] s h = h
apply_credits-Reconciled fund_id (i ∷ rest) s h =
    apply_credits-Reconciled fund_id rest _ (go (test))
  where
    credit : ℕ
    credit = credit_balance (find_credit i.unit_id s)

    test : Bool
    test = credit == 0 || i.amount - i.paid_amount == 0

    go :
        (b : Bool)
        → Reconciled
            (if b then s else use_credit fund_id i (min credit (i.amount - i.paid_amount)) s)
    go true = h
    go false = post-IsReconciled _ refl h

pub issue_batch-Reconciled :
    (p : IssueParams) (s : Store) {t : Store} → Reconciled s → issue_batch p s ≡ ok t → Reconciled t
unfolding issue_batch record_issue
issue_batch-Reconciled p s {t} h e =
    let (b, done) = issue_batch-record p s e in
    let kept = write_payers-KeepsCash p.payers (write_batch p.batch_id issued s) in
    rw (← done) (
      post-IsReconciled _ refl (
        apply_credits-Reconciled b.fund_id (items_of p.batch_id s) _
          (rw (kept.funds, kept.ledger) h)))

pub cancel_batch-Reconciled :
    (batch_id building_id : ℕ) (s : Store) {t : Store}
    → Reconciled s
    → cancel_batch batch_id building_id s ≡ ok t
    → Reconciled t
unfolding cancel_batch
cancel_batch-Reconciled batch_id building_id s {t} h e =
    let kept : KeepsCash s t = ground arith in KeepsCash-IsReconciled kept h

pub create_payment-Reconciled :
    (p : PaymentParams) (s : Store) {q : Payment} {t : Store}
    → Reconciled s
    → create_payment p s ≡ ok (q, t)
    → Reconciled t
unfolding create_payment
create_payment-Reconciled p s {q} {t} h e =
    let kept : KeepsCash s t = ground arith in KeepsCash-IsReconciled kept h

pub create_explicit_payment-Reconciled :
    (p : ExplicitParams) (s : Store) {q : Payment} {t : Store}
    → Reconciled s
    → create_explicit_payment p s ≡ ok (q, t)
    → Reconciled t
unfolding create_explicit_payment record_explicit
create_explicit_payment-Reconciled p s {q} {t} h e =
    let kept : KeepsCash s t = ground arith in KeepsCash-IsReconciled kept h
