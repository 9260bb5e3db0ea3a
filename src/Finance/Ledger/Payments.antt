-- ===== src/Finance/Ledger/Payments.antt =====
-- Payments keep every fund's balance equal to what its ledger adds up to.
use vielhome_backend.Base.{ℕ, ◌-◌, ◌≡◌, refl, inl, inr, min, List, [], ◌∷◌, arith, Bool-cases}
use vielhome_backend.Base.Int.{pos_part}
use vielhome_backend.Base.Result.{
  ok, conflict, business_rule, guard, ◌>>=◌, ◌>>◌, expect-eq-ok, guard-eq-ok, forbid-eq-ok,
  >>=-eq-ok, ok-injective,
}
use vielhome_backend.Finance.Schema.{
  approved, applied, ChargeItem, Adjustment, Payment, Target, to_item, to_adjustment, DebtSelection,
  Allocation, EntryType, Direction, Reference, Store, reversed,
}
use vielhome_backend.Finance.Store.{
  find_payment, upsert_credit, outstanding_items, positive_adjustments, write_payment,
}
use vielhome_backend.Finance.Payments.{
  ApproveParams, apply_items, apply_adjustments, pay_item, pay_adjustment, settle_adjustments,
  bank_rest, approve_automatic, approve_explicit, post_approval, close_explicit, approve_by_mode,
  approve_payment, apply_target, apply_selections, is_explicit, is_pending, have_lapsed, is_total,
  selections_of, write_reservations, reject_payment,
}
use vielhome_backend.Finance.Reversals.{
  undo_target, undo_allocation, undo_allocations, reverse_payment, undo_approval, ReverseParams,
  allocations_of, create_refund, record_refund, RefundParams,
}
use vielhome_backend.Finance.Ledger.Reconciled.{
  IsReconciled, KeepsCash, KeepsCash-trans, KeepsCash-IsReconciled, post_cash-IsReconciled,
}

abbrev pub Reconciled : Store → Type 0
Reconciled s = IsReconciled s.funds s.ledger

apply_items-KeepsCash :
    (id remaining : ℕ) (rows : List ChargeItem) (s : Store)
    → KeepsCash s (apply_items id remaining rows s).0
unfolding apply_items
apply_items-KeepsCash id remaining [] s = ground arith
apply_items-KeepsCash id remaining (i ∷ rest) s = ground (
  arith,
  apply_items-KeepsCash id remaining rest s,
  apply_items-KeepsCash id (remaining - n) rest (pay_item id i n s),
)
  where
    n : ℕ
    n = min remaining (i.amount - i.paid_amount)

apply_adjustments-KeepsCash :
    (id remaining : ℕ) (rows : List Adjustment) (s : Store)
    → KeepsCash s (apply_adjustments id remaining rows s).0
unfolding apply_adjustments
apply_adjustments-KeepsCash id remaining [] s = ground arith
apply_adjustments-KeepsCash id remaining (a ∷ rest) s = ground (
  arith,
  apply_adjustments-KeepsCash id remaining rest s,
  apply_adjustments-KeepsCash id (remaining - n) rest (pay_adjustment id a n s),
)
  where
    n : ℕ
    n = min remaining (pos_part a.amount - a.paid_amount)

settle_adjustments-KeepsCash :
    (p : ApproveParams) (s : Store) (n : ℕ) → KeepsCash s (settle_adjustments p (s, n)).0
unfolding settle_adjustments
settle_adjustments-KeepsCash p s n =
    ground (arith, apply_adjustments-KeepsCash p.payment_id n (positive_adjustments p.unit_id s) s)

pub upsert_credit-KeepsCash : (unit_id n : ℕ) (s : Store) → KeepsCash s (upsert_credit unit_id n s)
unfolding upsert_credit
upsert_credit-KeepsCash unit_id n s = ground arith

bank_rest-KeepsCash : (unit_id n : ℕ) (s : Store) → KeepsCash s (bank_rest unit_id (s, n))
unfolding bank_rest
bank_rest-KeepsCash unit_id n s = ground (arith, upsert_credit-KeepsCash unit_id n s)

post_approval-Reconciled :
    (p : ApproveParams) (s : Store) {t : Store}
    → Reconciled s
    → post_approval p s ≡ ok t
    → Reconciled t
unfolding post_approval
post_approval-Reconciled p s h e =
    post_cash-IsReconciled EntryType.payment Direction.credit p.fund_id p.amount
      (Reference.of_payment p.payment_id) s refl h e

approve_automatic-Reconciled :
    (p : ApproveParams) (s : Store) {t : Store}
    → Reconciled s
    → approve_automatic p s ≡ ok t
    → Reconciled t
unfolding approve_automatic
approve_automatic-Reconciled p s h e =
    let paid = write_payment p.payment_id approved s in
    let rows = outstanding_items p.unit_id paid in
    let (u, left) = apply_items p.payment_id p.amount rows paid in
    let (v, rest) = settle_adjustments p (u, left) in
    let kept = KeepsCash-trans (apply_items-KeepsCash p.payment_id p.amount rows paid) (
      KeepsCash-trans (settle_adjustments-KeepsCash p u left)
        (bank_rest-KeepsCash p.unit_id rest v)) in
    post_approval-Reconciled p (bank_rest p.unit_id (v, rest)) (rw (kept.funds, kept.ledger) h) e

apply_target-KeepsCash :
    (p : ApproveParams) (x : Target) (n : ℕ) (s : Store) {t : Store}
    → apply_target p x n s ≡ ok t
    → KeepsCash s t
unfolding apply_target
apply_target-KeepsCash p (to_item id) n s e = ground arith
apply_target-KeepsCash p (to_adjustment id) n s e = ground arith

apply_selections-KeepsCash :
    (p : ApproveParams) (rows : List DebtSelection) (s : Store) {t : Store}
    → apply_selections p rows s ≡ ok t
    → KeepsCash s t
unfolding apply_selections
apply_selections-KeepsCash p [] s e = rw (← ok-injective e) (record { funds = refl; ledger = refl })
apply_selections-KeepsCash p (x ∷ rest) s e =
    let (u, first, e') = >>=-eq-ok _ _ e in
    KeepsCash-trans (apply_target-KeepsCash p x.target x.selected_amount s first)
      (apply_selections-KeepsCash p rest u e')

approve_explicit-Reconciled :
    (p : ApproveParams) (current : Payment) (s : Store) {t : Store}
    → Reconciled s
    → approve_explicit p current s ≡ ok t
    → Reconciled t
unfolding approve_explicit close_explicit
approve_explicit-Reconciled p current s h e =
    let chosen = selections_of p.payment_id s in
    let (_, e1) =
      forbid-eq-ok (have_lapsed chosen) conflict
        (guard (is_total p current chosen) business_rule
          >> (apply_selections p chosen s >>= close_explicit p))
        e in
    let (_, e2) =
      guard-eq-ok (is_total p current chosen) business_rule
        (apply_selections p chosen s >>= close_explicit p) e1 in
    let (u, applied_all, e3) = >>=-eq-ok (apply_selections p chosen s) (close_explicit p) e2 in
    let kept = apply_selections-KeepsCash p chosen s applied_all in
    post_approval-Reconciled p
      (write_payment p.payment_id approved (write_reservations p.payment_id applied u))
      (rw (kept.funds, kept.ledger) h) e3

pub approve_payment-Reconciled :
    (p : ApproveParams) (s : Store) {t : Store}
    → Reconciled s
    → approve_payment p s ≡ ok t
    → Reconciled t
unfolding approve_payment
approve_payment-Reconciled p s h e =
    let (current, _, e1) =
      expect-eq-ok (find_payment p.payment_id s) business_rule
        (λ current. guard (is_pending current.status) business_rule >> approve_by_mode p current s)
        e in
    let (_, e2) =
      guard-eq-ok (is_pending current.status) business_rule (approve_by_mode p current s) e1 in
    elim (Bool-cases (is_explicit current.selection_mode)) [
      | inl explicit ↦ approve_explicit-Reconciled p current s h (rw explicit at e2)
      | inr automatic ↦ approve_automatic-Reconciled p s h (rw automatic at e2)
    ]

pub reject_payment-Reconciled :
    (id : ℕ) (s : Store) {t : Store} → Reconciled s → reject_payment id s ≡ ok t → Reconciled t
unfolding reject_payment
reject_payment-Reconciled id s {t} h e =
    let kept : KeepsCash s t = ground arith in KeepsCash-IsReconciled kept h

undo_target-KeepsCash : (n : ℕ) (x : Target) (s : Store) → KeepsCash s (undo_target n x s)
undo_target-KeepsCash n (to_item id) s = ground arith
undo_target-KeepsCash n (to_adjustment id) s = ground arith

undo_allocation-KeepsCash : (x : Allocation) (s : Store) → KeepsCash s (undo_allocation x s)
unfolding undo_allocation
undo_allocation-KeepsCash x s = undo_target-KeepsCash x.amount x.target s

undo_allocations-KeepsCash :
    (rows : List Allocation) (s : Store) → KeepsCash s (undo_allocations rows s)
unfolding undo_allocations
undo_allocations-KeepsCash [] s = record { funds = refl; ledger = refl }
undo_allocations-KeepsCash (x ∷ rest) s =
    KeepsCash-trans (undo_allocation-KeepsCash x s)
      (undo_allocations-KeepsCash rest (undo_allocation x s))

undo_approval-Reconciled :
    (p : ReverseParams) (s : Store) {t : Store}
    → Reconciled s
    → undo_approval p s ≡ ok t
    → Reconciled t
unfolding undo_approval
undo_approval-Reconciled p s h e =
    let t = write_payment p.payment_id reversed s in
    let kept = undo_allocations-KeepsCash (allocations_of p.payment_id s) t in
    post_cash-IsReconciled EntryType.reversal Direction.debit p.fund_id p.amount
      (Reference.of_payment p.payment_id) (undo_allocations (allocations_of p.payment_id s) t) refl
      (rw (kept.funds, kept.ledger) h) e

pub reverse_payment-Reconciled :
    (p : ReverseParams) (s : Store) {t : Store}
    → Reconciled s
    → reverse_payment p s ≡ ok t
    → Reconciled t
unfolding reverse_payment
reverse_payment-Reconciled p s {t} h e =
    let done : undo_approval p s ≡ ok t = ground arith in undo_approval-Reconciled p s h done

record_refund-Reconciled :
    (p : RefundParams) (s : Store) {t : Store}
    → Reconciled s
    → record_refund p s ≡ ok t
    → Reconciled t
unfolding record_refund
record_refund-Reconciled p s h e =
    post_cash-IsReconciled EntryType.refund Direction.debit p.fund_id p.amount
      (Reference.of_refund p.refund_id) _ refl (ground (arith, h)) e

pub create_refund-Reconciled :
    (p : RefundParams) (s : Store) {t : Store}
    → Reconciled s
    → create_refund p s ≡ ok t
    → Reconciled t
unfolding create_refund
create_refund-Reconciled p s {t} h e =
    let done : record_refund p s ≡ ok t = ground arith in record_refund-Reconciled p s h done
