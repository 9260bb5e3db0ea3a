-- ===== src/Finance/Debt.antt =====
-- finance.repository.ts, `buildDebtSnapshot` and `computeDebtSnapshot`: what a unit owes, and what may
-- still be paid of it.
use vielhome_backend.Base.{
  ℕ, ◌+◌, Bool, ◌&&◌, Option, none, some, List, [], ◌∷◌, ◌==◌, filter, sum_by,
}
use vielhome_backend.Base.Int.{ℤ, pos, ◌+ℤ◌, ◌-ℤ◌, max_zero}
use vielhome_backend.Finance.Schema.{ChargeItem, Adjustment, CreditBalance, Payment, Store}
use vielhome_backend.Finance.Store.{is_outstanding, is_positive, find_credit}
use vielhome_backend.Finance.Payments.{is_pending}

-- `reduce((sum, i) => sum + (i.amount - i.paidAmount), 0)`
unfoldable pub items_debt : List ChargeItem → ℤ
items_debt [] = pos 0
items_debt (i ∷ rest) = (pos i.amount -ℤ pos i.paid_amount) +ℤ items_debt rest

-- `reduce((sum, a) => sum + Math.max(0, a.amount - a.paidAmount), 0)`
unfoldable pub adjustments_debt : List Adjustment → ℕ
adjustments_debt [] = 0
adjustments_debt (a ∷ rest) = max_zero (a.amount -ℤ pos a.paid_amount) + adjustments_debt rest

pub record DebtSnapshot : Type 0 where
  pub charge_item_debt : ℤ
  pub adjustment_debt : ℕ
  pub total_debt : ℤ
  pub credit_balance : ℕ
  pub pending_payment_amount : ℕ
  pub remaining_payable : ℕ

unfoldable pub build_debt_snapshot :
    List ChargeItem → List Adjustment → ℕ → List Payment → DebtSnapshot
build_debt_snapshot items adjustments credit pending =
    let of_items = items_debt items in
    let of_adjustments = adjustments_debt adjustments in
    let total = of_items +ℤ pos of_adjustments in
    let waiting = sum_by Payment.amount pending in
    record {
      charge_item_debt = of_items;
      adjustment_debt = of_adjustments;
      total_debt = total;
      credit_balance = credit;
      pending_payment_amount = waiting;
      remaining_payable = max_zero (total -ℤ pos credit -ℤ pos waiting);
    }

abbrev pub is_waiting : ℕ → Payment → Bool
is_waiting unit_id p = p.unit_id == unit_id && is_pending p.status

abbrev balance_or_zero : Option CreditBalance → ℕ
balance_or_zero none = 0
balance_or_zero (some c) = c.balance

unfoldable pub compute_debt_snapshot : ℕ → Store → DebtSnapshot
unfolding build_debt_snapshot
compute_debt_snapshot unit_id s =
    build_debt_snapshot (filter (is_outstanding unit_id s) s.items)
      (filter (λ a. a.unit_id == unit_id && is_positive a.amount) s.adjustments)
      (balance_or_zero (find_credit unit_id s)) (filter (is_waiting unit_id) s.payments)
