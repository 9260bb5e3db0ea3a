-- ===== src/Finance/Examples/Money.antt =====
-- Single operations on the tables of Finance/Examples, and the theorems at them.
use vielhome_backend.Base.{
  ℕ, ◌+◌, ◌≤◌, ◌&&◌, ◌==◌, ◌⊎◌, List, map, sum_by, All, ◌≡◌, refl, true, false, some, [], ◌∷◌,
  arith,
}
use vielhome_backend.Base.Int.{pos, ◌-ℤ◌, ◌≤ℤ◌}
use vielhome_backend.Base.Result.{ok, err, conflict, business_rule}
use vielhome_backend.Finance.Schema.{current, approved, Direction, Fund, Payment, Store}
use vielhome_backend.Finance.Store.{move_row, find_fund, allocated}
use vielhome_backend.Finance.Batches.{BatchParams, create_batch, IssueParams, issue_batch}
use vielhome_backend.Finance.Requests.{PaymentParams, new_payment, create_payment}
use vielhome_backend.Finance.Requests.Ceiling.{
  remaining, create_payment_reserves, create_payment_replay,
}
use vielhome_backend.Finance.Expenses.{ExpenseParams, create_expense, void_expense}
use vielhome_backend.Finance.Expenses.Laws.{void_of, create_expense_covered, void_expense_restores}
use vielhome_backend.Finance.Reversals.{
  is_approved, ReverseParams, reverse_payment, RefundParams, create_refund,
}
use vielhome_backend.Finance.Reversals.Laws.{Undone, reverse_payment_cases, create_refund_refused}
use vielhome_backend.Finance.Split.{Share, allocate_equally, IsNear, allocate_equally_whole}
use vielhome_backend.Finance.Examples.{
  or_empty, payment_params, paid_in, due, funded, approved_store, trace, batch_params,
}
use vielhome_backend.Finance.Batches.Credit.{unit_money, issue_batch_conserves}
use vielhome_backend.Finance.Payments.Places.{settled}
use vielhome_backend.Finance.Expenses.Race.{record_expense_race}
use vielhome_backend.Base.Int.{ltb_ℤ}
use vielhome_backend.Base.Result.{◌>>=◌}
use vielhome_backend.Finance.Expenses.{record_expense}
use vielhome_backend.Base.{true}
use vielhome_backend.Finance.Schema.{Fund}

abbrev small_payment : PaymentParams
small_payment = record payment_params { amount = 80; is_manual_amount = false }

abbrev after_small : Store
after_small = paid_in (create_payment small_payment due)

create_payment_reserves_example :
    (80 ≤ remaining 7 due) × (remaining 7 after_small + 80 ≡ remaining 7 due)
unfolding trace
create_payment_reserves_example = create_payment_reserves small_payment due refl refl refl

create_payment_replay_example :
    create_payment small_payment after_small ≡ ok (new_payment small_payment, after_small)
unfolding trace
create_payment_replay_example = create_payment_replay small_payment due refl refl

abbrev expense_params : ExpenseParams
expense_params = record { expense_id = 20; fund_id = 1; amount = 300; idempotency_key = some 5 }

abbrev spent : Store
spent = or_empty (create_expense expense_params funded)

abbrev main_fund : Fund
main_fund = record {
  id = 1;
  building_id = 5;
  fund_type = current;
  is_default = true;
  is_active = true;
  balance = pos 1000;
}

create_expense_covered_example :
    (pos 300 ≤ℤ pos 1000)
    × (find_fund 1 spent ≡ some (move_row Direction.debit 300 main_fund))
    × (pos 0 ≤ℤ pos 1000 -ℤ pos 300)
unfolding trace
create_expense_covered_example =
    create_expense_covered expense_params funded {f = main_fund} refl refl

void_expense_restores_example :
    (u : Store) × (void_expense (void_of expense_params) spent ≡ ok u)
    × (find_fund 1 u ≡ some main_fund)
    × (void_expense (void_of expense_params) u ≡ err conflict)
unfolding trace
void_expense_restores_example =
    void_expense_restores expense_params funded {f = main_fund} refl refl

abbrev settled_payment : Payment
settled_payment = record (new_payment payment_params) { status = approved }

abbrev reverse_params : ReverseParams
reverse_params = record { payment_id = 8; fund_id = 1; amount = 120 }

abbrev settled_fund : Fund
settled_fund = move_row Direction.credit 120 main_fund

reverse_payment_cases_example :
    ((is_approved settled_payment.status && (allocated 8 approved_store.allocations == 120) ≡ true)
      × (t : Store) × (reverse_payment reverse_params approved_store ≡ ok t)
      × Undone reverse_params settled_payment settled_fund approved_store t)
    ⊎ ((is_approved settled_payment.status && (allocated 8 approved_store.allocations == 120)
          ≡ false)
        × (reverse_payment reverse_params approved_store ≡ err business_rule))
unfolding trace
reverse_payment_cases_example =
    reverse_payment_cases reverse_params approved_store {current = settled_payment}
      {fund = settled_fund} refl refl

abbrev refund_params : RefundParams
refund_params = record {
  refund_id = 30;
  payment_id = 8;
  fund_id = 1;
  amount = 20;
  payment_amount = 120;
}

create_refund_refused_example : create_refund refund_params approved_store ≡ err business_rule
unfolding trace
create_refund_refused_example =
    create_refund_refused refund_params approved_store {current = settled_payment} refl
      (omega arith)

abbrev three_units : List ℕ
three_units = 7 ∷ 8 ∷ 9 ∷ []

allocate_equally_whole_example :
    (map Share.unit_id (allocate_equally 100 three_units) ≡ three_units)
    × (sum_by Share.amount (allocate_equally 100 three_units) ≡ 100)
    × All (IsNear 33) (allocate_equally 100 three_units)
allocate_equally_whole_example = allocate_equally_whole 100 three_units (omega arith)

abbrev second_batch : BatchParams
second_batch = record batch_params {
  batch_id = 12;
  items = record { id = 13; unit_id = 7; amount = 50 } ∷ [];
}

abbrev owing : Store
owing = or_empty (create_batch second_batch approved_store)

abbrev second_issue : IssueParams
second_issue = record { batch_id = 12; building_id = 5; payers = [] }

abbrev credited : Store
credited = or_empty (issue_batch second_issue owing)

-- The credit of 20 is used on the new item.
credited_run : credited.credits ≡ record { unit_id = 7; balance = 0 } ∷ []
unfolding trace
credited_run = refl

issue_batch_conserves_example :
    (settled credited ≡ settled owing)
    × ((unit_id : ℕ) → unit_money unit_id credited ≡ unit_money unit_id owing)
    × (credited.funds ≡ owing.funds)
unfolding trace
issue_batch_conserves_example = issue_batch_conserves second_issue owing (omega arith) refl

abbrev large_expense : ExpenseParams
large_expense = record { expense_id = 21; fund_id = 1; amount = 600; idempotency_key = some 41 }

abbrev other_expense : ExpenseParams
other_expense = record large_expense { expense_id = 22; idempotency_key = some 42 }

record_expense_race_example :
    (create_expense other_expense (or_empty (create_expense large_expense funded))
      ≡ err business_rule)
    × (u : Store) × (g : Fund) × ((record_expense large_expense funded
          >>= record_expense other_expense)
        ≡ ok u)
    × (find_fund 1 u ≡ some g)
    × (ltb_ℤ g.balance (pos 0) ≡ true)
unfolding trace
record_expense_race_example =
    record_expense_race large_expense other_expense funded {f = main_fund}
      {t = or_empty (create_expense large_expense funded)}
      {t' = or_empty (create_expense other_expense funded)} refl refl refl refl refl refl
