-- ===== src/Finance/Reversals.antt =====
-- finance.repository.ts, `reversePayment` and `createRefund`: undoing an approved payment.
pub mod Undo
pub mod Laws
use vielhome_backend.Base.{
  ℕ, ◌-◌, Bool, true, false, Option, none, some, List, [], ◌∷◌, ◌==◌, ltb, leb, if◌then◌else◌,
  filter, length,
}
use vielhome_backend.Base.Result.{Result, business_rule, expect, guard, forbid, ◌>>=◌, ◌>>◌}
use vielhome_backend.Finance.Schema.{
  PaymentStatus, approved, reversed, refunded, Target, to_item, to_adjustment, Allocation,
  ChargeItem, Adjustment, Refund, EntryType, Direction, Reference, Store,
}
use vielhome_backend.Finance.Store.{
  allocated, find_item, find_adjustment, find_payment, write_item, write_adjustment, write_payment,
  post_cash,
}

abbrev pub is_approved : PaymentStatus → Bool
is_approved approved = true
is_approved _ = false

-- What is taken back; `Math.max(0, x - y)` is the truncated difference.
abbrev pub undo_item : ℕ → Option ChargeItem → Store → Store
undo_item n none s = s
undo_item n (some i) s = write_item i.id (i.paid_amount - n) s

abbrev pub undo_adjustment : ℕ → Option Adjustment → Store → Store
undo_adjustment n none s = s
undo_adjustment n (some a) s = write_adjustment a.id (a.paid_amount - n) s

abbrev pub undo_target : ℕ → Target → Store → Store
undo_target n (to_item id) s = undo_item n (find_item id s) s
undo_target n (to_adjustment id) s = undo_adjustment n (find_adjustment id s) s

-- One round of the loop over the allocations.
unfoldable pub undo_allocation : Allocation → Store → Store
undo_allocation x s = undo_target x.amount x.target s

unfoldable pub undo_allocations : List Allocation → Store → Store
undo_allocations [] s = s
undo_allocations (x ∷ rest) s = undo_allocations rest (undo_allocation x s)

abbrev pub allocations_of : ℕ → Store → List Allocation
allocations_of id s = filter (λ (x : Allocation). x.payment_id == id) s.allocations

pub record ReverseParams : Type 0 where
  pub payment_id : ℕ
  pub fund_id : ℕ
  pub amount : ℕ

unfoldable pub undo_approval : ReverseParams → Store → Result Store
undo_approval p s =
    let t = write_payment p.payment_id reversed s in
    post_cash EntryType.reversal Direction.debit p.fund_id p.amount
      (Reference.of_payment p.payment_id) (undo_allocations (allocations_of p.payment_id s) t)

unfoldable pub reverse_payment : ReverseParams → Store → Result Store
reverse_payment p s = do
  current ← expect (find_payment p.payment_id s) business_rule
  guard (is_approved current.status) business_rule
  forbid (ltb current.amount (allocated p.payment_id s.allocations)) business_rule
  forbid (ltb 0 (current.amount - allocated p.payment_id s.allocations)) business_rule
  undo_approval p s

pub record RefundParams : Type 0 where
  pub refund_id : ℕ
  pub payment_id : ℕ
  pub fund_id : ℕ
  pub amount : ℕ
  pub payment_amount : ℕ

abbrev pub refunds_of : ℕ → Store → List Refund
refunds_of payment_id s = filter (λ (r : Refund). r.payment_id == payment_id) s.refunds

unfoldable pub record_refund : RefundParams → Store → Result Store
record_refund p s =
    let t = record s {
      refunds =
          record { id = p.refund_id; payment_id = p.payment_id; amount = p.amount } ∷ s.refunds;
    } in
    let u = if leb p.payment_amount p.amount then write_payment p.payment_id refunded t else t in
    post_cash EntryType.refund Direction.debit p.fund_id p.amount (Reference.of_refund p.refund_id)
      u

unfoldable pub create_refund : RefundParams → Store → Result Store
create_refund p s = do
  current ← expect (find_payment p.payment_id s) business_rule
  guard (is_approved current.status) business_rule
  forbid (ltb current.amount (allocated p.payment_id s.allocations)) business_rule
  forbid (ltb 0 (current.amount - allocated p.payment_id s.allocations)) business_rule
  forbid (ltb 0 (allocated p.payment_id s.allocations)) business_rule
  forbid (ltb 0 (length (refunds_of p.payment_id s))) business_rule
  record_refund p s
