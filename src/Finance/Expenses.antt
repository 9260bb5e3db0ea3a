-- ===== src/Finance/Expenses.antt =====
-- finance.repository.ts, `createExpense` and `voidExpense`, with domain/policies/expense.policy.ts.
pub mod Laws
pub mod Race
use vielhome_backend.Base.{ℕ, Bool, true, false, Option, none, some, List, ◌∷◌, same, any}
use vielhome_backend.Base.Int.{ℤ, pos, ltb_ℤ}
use vielhome_backend.Base.Result.{
  Result, business_rule, conflict, duplicate, unexpected, expect, guard, forbid, ◌>>=◌, ◌>>◌,
}
use vielhome_backend.Base.Table.{find, update}
use vielhome_backend.Finance.Schema.{
  ExpenseStatus, posted, voided, Expense, EntryType, Direction, Reference, Store,
}
use vielhome_backend.Finance.Store.{find_fund, post_cash}

abbrev pub is_posted : ExpenseStatus → Bool
is_posted posted = true
is_posted voided = false

-- `assertValidAmount`, of an amount that is an integer.
abbrev pub assert_valid_amount : ℤ → Result (Unit {0})
assert_valid_amount amount = guard (ltb_ℤ (pos 0) amount) business_rule

-- `assertSufficientFundBalance`
abbrev pub assert_sufficient : ℤ → ℕ → Result (Unit {0})
assert_sufficient balance amount = forbid (ltb_ℤ balance (pos amount)) business_rule

-- `assertVoidable`
abbrev pub assert_voidable : ExpenseStatus → Result (Unit {0})
assert_voidable status = guard (is_posted status) business_rule

pub record ExpenseParams : Type 0 where
  pub expense_id : ℕ
  pub fund_id : ℕ
  pub amount : ℕ
  pub idempotency_key : Option ℕ

-- `@unique` on `idempotencyKey`: a second row with the key is a P2002 error; nulls do not collide.
abbrev pub key_taken : Option ℕ → List Expense → Bool
key_taken none rows = false
key_taken (some k) rows = any (λ (e : Expense). same e.idempotency_key (some k)) rows

-- The writes of `createExpense`, which the unique key may refuse.
unfoldable pub record_expense : ExpenseParams → Store → Result Store
record_expense p s = do
  forbid (key_taken p.idempotency_key s.expenses) duplicate
  post_cash EntryType.expense Direction.debit p.fund_id p.amount (Reference.of_expense p.expense_id)
      (record s {
        expenses =
            record {
              id = p.expense_id;
              fund_id = p.fund_id;
              amount = p.amount;
              status = posted;
              idempotency_key = p.idempotency_key;
            }
            ∷ s.expenses;
      })

unfoldable pub create_expense : ExpenseParams → Store → Result Store
create_expense p s = do
  fund ← expect (find_fund p.fund_id s) unexpected
  assert_sufficient fund.balance p.amount
  record_expense p s

abbrev pub void_row : Expense → Expense
void_row e = record e { status = voided }

pub record VoidParams : Type 0 where
  pub expense_id : ℕ
  pub fund_id : ℕ
  pub amount : ℕ

abbrev pub find_expense : ℕ → Store → Option Expense
find_expense id s = find Expense.id id s.expenses

-- `updateMany({ where: { id, status: 'POSTED' } })` claims one row, or none.
abbrev pub can_claim : Option Expense → Bool
can_claim none = false
can_claim (some e) = is_posted e.status

unfoldable pub record_void : VoidParams → Store → Result Store
record_void p s =
    post_cash EntryType.expense Direction.credit p.fund_id p.amount
      (Reference.of_expense p.expense_id)
      (record s { expenses = update Expense.id p.expense_id void_row s.expenses })

unfoldable pub void_expense : VoidParams → Store → Result Store
void_expense p s = do guard (can_claim (find_expense p.expense_id s)) conflict; record_void p s
