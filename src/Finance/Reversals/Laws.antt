-- ===== src/Finance/Reversals/Laws.antt =====
-- What a reversal does on each of its branches, and the refusals of a refund.
use vielhome_backend.Base.{
  ◌-◌, ◌&&◌, ◌<◌, ◌≡◌, refl, ap, ◌∙◌, ◌⊎◌, inl, inr, some, ◌∷◌, arith, ◌==◌, ==_refl, true, false,
  Bool-cases, if◌then◌else◌,
}
use vielhome_backend.Base.Result.{ok, err, business_rule}
use vielhome_backend.Base.Table.{update, find-update}
use vielhome_backend.Finance.Schema.{
  reversed, Target, Fund, Payment, EntryType, Direction, Reference, Store,
}
use vielhome_backend.Finance.Store.{
  allocated, find_payment, find_fund, set_status, move_row, move_fund, post_cash, write_payment,
}
use vielhome_backend.Finance.Payments.Targets.{paid_on, paid_on-same, allocated_to}
use vielhome_backend.Finance.Reversals.{
  is_approved, undo_allocations, allocations_of, ReverseParams, reverse_payment, undo_approval,
  RefundParams, create_refund,
}
use vielhome_backend.Finance.Reversals.Undo.{
  sum_to-allocations_of, undo_allocations-paid_on, undo_allocations-keeps,
}

-- A refund of a payment that is there and has a positive amount is refused, whatever its state.
pub create_refund_refused :
    (p : RefundParams) (s : Store) {current : Payment}
    → find_payment p.payment_id s ≡ some current
    → 0 < current.amount
    → create_refund p s ≡ err business_rule
unfolding create_refund
create_refund_refused p s found positive = ground arith

-- What a reversal leaves: the payment is reversed, its fund has its amount less, and the money that its
-- allocation rows set against a debt is taken from that debt.
pub record Undone (p : ReverseParams) (current : Payment) (fund : Fund) (s t : Store) : Type 0 where
  pub payment : find_payment p.payment_id t ≡ some (set_status reversed current)
  pub balance : find_fund p.fund_id t ≡ some (move_row Direction.debit p.amount fund)
  pub debts : (x : Target) → paid_on x t ≡ paid_on x s - allocated_to p.payment_id x s.allocations

-- The tables after the reversal's cash movement.
abbrev reversal_posted : ReverseParams → Store → Store
reversal_posted p s = record s {
  funds = update Fund.id p.fund_id (move_row Direction.debit p.amount) s.funds;
  ledger =
      record {
        fund_id = p.fund_id;
        entry_type = EntryType.reversal;
        direction = Direction.debit;
        amount = p.amount;
        reference = Reference.of_payment p.payment_id;
      }
      ∷ s.ledger;
}

posts :
    (p : ReverseParams) (s : Store) {fund : Fund}
    → find_fund p.fund_id s ≡ some fund
    → post_cash EntryType.reversal Direction.debit p.fund_id p.amount
        (Reference.of_payment p.payment_id)
        s
      ≡ ok (reversal_posted p s)
unfolding post_cash move_fund
posts p s there = rw there refl

undo_approval-Undone :
    (p : ReverseParams) (s : Store) {current : Payment} {fund : Fund}
    → find_payment p.payment_id s ≡ some current
    → find_fund p.fund_id s ≡ some fund
    → (t : Store) × (undo_approval p s ≡ ok t) × Undone p current fund s t
unfolding undo_approval
undo_approval-Undone p s {current} {fund} found has =
    let rows = allocations_of p.payment_id s in
    let written = write_payment p.payment_id reversed s in
    let u = undo_allocations rows written in
    let (payments, funds) = undo_allocations-keeps rows written in
    let there : find_fund p.fund_id u ≡ some fund = rw funds has in
    let t = reversal_posted p u in
    (
      t,
      posts p u there,
      record {
        payment =
            rw
              (
                payments,
                find-update Payment.id p.payment_id p.payment_id (set_status reversed) s.payments
                    (λ y. refl),
                ==_refl p.payment_id,
                found,
              )
              refl;
        balance =
            rw
              (
                find-update Fund.id p.fund_id p.fund_id (move_row Direction.debit p.amount) u.funds
                    (λ y. refl),
                ==_refl p.fund_id,
                there,
              )
              refl;
        debts = λ x.
            paid_on-same x u t refl refl
            ∙ undo_allocations-paid_on x rows written
            ∙ ap (λ n. paid_on x written - n) (sum_to-allocations_of p.payment_id x s.allocations)
            ∙ ap (λ n. n - allocated_to p.payment_id x s.allocations)
                (paid_on-same x s written refl refl);
      },
    )

reverse_payment-undo :
    (p : ReverseParams) (s : Store) {current : Payment}
    → find_payment p.payment_id s ≡ some current
    → reverse_payment p s ≡ (
        if is_approved current.status && (allocated p.payment_id s.allocations == current.amount)
        then undo_approval p s
        else err business_rule)
unfolding reverse_payment
reverse_payment-undo p s found = ground arith

-- A payment that is there, with a fund that is there, is reversed exactly if it is approved and its allocations
-- add up to its amount: then the reversal returns, the payment is reversed, the fund has the amount less, and
-- each charge item and adjustment has that much less paid on it as the payment's allocation rows set against
-- it (and nothing, where it has less). Otherwise the request is refused.
pub reverse_payment_cases :
    (p : ReverseParams) (s : Store) {current : Payment} {fund : Fund}
    → find_payment p.payment_id s ≡ some current
    → find_fund p.fund_id s ≡ some fund
    → ((is_approved current.status && (allocated p.payment_id s.allocations == current.amount)
          ≡ true)
        × (t : Store) × (reverse_payment p s ≡ ok t)
        × Undone p current fund s t)
      ⊎ ((is_approved current.status && (allocated p.payment_id s.allocations == current.amount)
            ≡ false)
          × (reverse_payment p s ≡ err business_rule))
reverse_payment_cases p s {current} found has =
    let test =
      is_approved current.status && (allocated p.payment_id s.allocations == current.amount) in
    let same = reverse_payment-undo p s found in
    elim (Bool-cases test) [
      | inl e ↦
          let (t, done, undone) = undo_approval-Undone p s found has in
          inl (e, t, rw (same, e) done, undone)
      | inr e ↦ inr (e, rw (same, e) refl)
    ]
