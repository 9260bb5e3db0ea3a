-- ===== src/Finance/Examples.antt =====
-- A building's first weeks: a fund with 1000, a charge of 60 and 40 to unit 7, a payment of 120.
-- Tests of the operations on it, and the theorems at it.
mod Money
mod Months
use vielhome_backend.Base.{
  ℕ, ◌+◌, ◌≤◌, ◌&&◌, ◌==◌, if◌then◌else◌, List, map, sum_by, All, ◌≡◌, refl, true, false, Option,
  none, some, [], ◌∷◌, arith,
}
use vielhome_backend.Base.Int.{pos, ◌-ℤ◌, ◌≤ℤ◌, ◌+ℤ◌}
use vielhome_backend.Base.Result.{Result, ok, err, conflict, business_rule}
use vielhome_backend.Base.Table.{find, update}
use vielhome_backend.Query.{sort, insert}
use vielhome_backend.Finance.Schema.{current, approved, Direction, Fund, Payment, Store}
use mathlib.Core.Option
use vielhome_backend.Finance.Store.{
  move_row, find_fund, allocated, outstanding_items, positive_adjustments, due_before,
  upsert_credit, move_fund, post_cash,
}
use vielhome_backend.Finance.Payments.{
  ApproveParams, apply_items, apply_adjustments, settle_adjustments, bank_rest, post_approval,
  approve_automatic, approve_by_mode, approve_payment,
}
use vielhome_backend.Finance.Payments.Places.{HasKeys}
use vielhome_backend.Finance.Payments.Spends.{Spends, approve_payment-Spends}
use vielhome_backend.Finance.Funds.{FundParams, create_fund}
use vielhome_backend.Finance.Batches.{
  BatchParams, create_batch, IssueParams, issue_batch, record_issue, write_payers, apply_credits,
  use_credit,
}
use vielhome_backend.Finance.Requests.{
  PaymentParams, new_payment, create_payment, find_by_key, report_payment, check_ceiling,
}
use vielhome_backend.Finance.Ledger.Payments.{Reconciled}
use vielhome_backend.Finance.Sound.{IsSound}
use vielhome_backend.Finance.Debt.{items_debt, adjustments_debt, compute_debt_snapshot}
use vielhome_backend.Finance.Requests.Ceiling.{
  remaining, create_payment_reserves, create_payment_replay,
}
use vielhome_backend.Finance.Expenses.{ExpenseParams, create_expense, record_expense, void_expense}
use vielhome_backend.Finance.Expenses.Laws.{void_of, create_expense_covered, void_expense_restores}
use vielhome_backend.Finance.Reversals.{
  is_approved, ReverseParams, reverse_payment, undo_approval, RefundParams, create_refund,
}
use vielhome_backend.Finance.Reversals.Laws.{reverse_payment_cases, create_refund_refused}
use vielhome_backend.Finance.Split.{Share, allocate_equally, IsNear, allocate_equally_whole}
use vielhome_backend.Finance.History.{
  Reaches, here, next, fund_created, batch_created, batch_issued, payment_reported,
  payment_approved, empty_store, history-Reconciled, history-IsSound,
}

abbrev pub or_empty : Result Store → Store
or_empty (ok s) = s
or_empty (err _) = empty_store

abbrev fund_params : FundParams
fund_params = record {
  fund_id = 1;
  building_id = 5;
  fund_type = current;
  is_default = true;
  initial_balance = 1000;
}

abbrev pub batch_params : BatchParams
batch_params = record {
  batch_id = 2;
  building_id = 5;
  fund_id = 1;
  kind = none;
  expected_fund_type = none;
  series_id = none;
  period_start = none;
  due_date = some 30;
  created_at = 10;
  items =
      record { id = 3; unit_id = 7; amount = 60 }
      ∷ record { id = 4; unit_id = 7; amount = 40 }
      ∷ [];
}

abbrev issue_params : IssueParams
issue_params = record { batch_id = 2; building_id = 5; payers = [] }

abbrev pub payment_params : PaymentParams
payment_params = record {
  payment_id = 8;
  building_id = 5;
  unit_id = 7;
  fund_id = 1;
  payer_id = 9;
  amount = 120;
  method = 0;
  idempotency_key = 77;
  reference = none;
  note = none;
  is_manual_amount = true;
}

abbrev approve_params : ApproveParams
approve_params = record { payment_id = 8; unit_id = 7; fund_id = 1; amount = 120 }

abbrev pub funded : Store
funded = or_empty (create_fund fund_params empty_store)

abbrev charged : Store
charged = or_empty (create_batch batch_params funded)

abbrev pub due : Store
due = or_empty (issue_batch issue_params charged)

abbrev pub paid_in : Result (Payment × Store) → Store
paid_in (ok (_, s)) = s
paid_in (err _) = empty_store

abbrev first_of : Result (Payment × Store) → Option Payment
first_of (ok (p, _)) = some p
first_of (err _) = none

abbrev reported : Store
reported = paid_in (create_payment payment_params due)

abbrev pub approved_store : Store
approved_store = or_empty (approve_payment approve_params reported)

-- All that the runs below compute with.
pub trace : Unit {0}
unfolding find update sort insert outstanding_items positive_adjustments due_before upsert_credit
    move_fund post_cash apply_items apply_adjustments settle_adjustments bank_rest post_approval
    approve_automatic approve_by_mode approve_payment create_fund create_batch issue_batch
    record_issue write_payers apply_credits use_credit create_payment find_by_key report_payment
    check_ceiling ◌+ℤ◌ ◌-ℤ◌ compute_debt_snapshot items_debt adjustments_debt create_expense
    record_expense
trace = tt

-- The debts are settled, 20 is banked, and the fund has 1120.
approved_run :
    (Option.map (λ (f : Fund). f.balance) (find Fund.id 1 approved_store.funds) ≡ some (pos 1120))
    × (approved_store.credits ≡ record { unit_id = 7; balance = 20 } ∷ [])
unfolding trace
approved_run = (refl, refl)

history : Reaches empty_store approved_store
unfolding trace
history =
    next
      (next
        (next
          (next (next here (fund_created fund_params (tt, tt) refl)) (
            batch_created batch_params (record { distinct = omega arith; unused = (tt, (tt, tt)) })
              refl))
          (batch_issued issue_params refl))
        (payment_reported payment_params (new_payment payment_params) refl))
      (payment_approved approve_params refl)

history-Reconciled_example : Reconciled approved_store
history-Reconciled_example = history-Reconciled history

history-IsSound_example : IsSound approved_store
history-IsSound_example = history-IsSound history

reported-HasKeys : HasKeys reported
unfolding trace
reported-HasKeys = record { items = omega arith; adjustments = tt }

approve_payment-Spends_example : Spends 8 120 reported approved_store
unfolding trace
approve_payment-Spends_example =
    approve_payment-Spends approve_params reported reported-HasKeys refl
