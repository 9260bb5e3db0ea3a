-- ===== src/Finance/Expenses/Laws.antt =====
-- An expense and its void, and what two expenses at once can do.
use vielhome_backend.Base.{ℕ, ◌≡◌, refl, some, ◌∷◌, arith, ==_refl}
use vielhome_backend.Base.Int.{pos, ◌+ℤ◌, ◌-ℤ◌, ◌≤ℤ◌, int_laws}
use vielhome_backend.Base.Result.{ok, err, conflict}
use vielhome_backend.Base.Table.{find, update, find-update}
use vielhome_backend.Finance.Schema.{posted, Fund, Expense, EntryType, Direction, Reference, Store}
use vielhome_backend.Finance.Store.{find_fund, move_row, post_cash, move_fund}
use vielhome_backend.Finance.Payments.Spends.{post_cash-Posts}
use vielhome_backend.Finance.Expenses.{
  ExpenseParams, create_expense, record_expense, VoidParams, void_row, void_expense, record_void,
}

abbrev pub new_expense : ExpenseParams → Expense
new_expense p = record {
  id = p.expense_id;
  fund_id = p.fund_id;
  amount = p.amount;
  status = posted;
  idempotency_key = p.idempotency_key;
}

-- The store after an expense that is posted.
unfoldable pub posted_store : ExpenseParams → Store → Store
posted_store p s = record s {
  expenses = new_expense p ∷ s.expenses;
  funds = update Fund.id p.fund_id (move_row Direction.debit p.amount) s.funds;
  ledger =
      record {
        fund_id = p.fund_id;
        entry_type = EntryType.expense;
        direction = Direction.debit;
        amount = p.amount;
        reference = Reference.of_expense p.expense_id;
      }
      ∷ s.ledger;
}

pub create_expense_store :
    (p : ExpenseParams) (s : Store) {t : Store} → create_expense p s ≡ ok t → t ≡ posted_store p s
unfolding create_expense record_expense posted_store
create_expense_store p s {t} e =
    (post_cash-Posts EntryType.expense Direction.debit p.fund_id p.amount
      (Reference.of_expense p.expense_id) (record s { expenses = new_expense p ∷ s.expenses })
      {t = t} (ground arith)).same

pub posted_fund :
    (p : ExpenseParams) (s : Store) {f : Fund}
    → find_fund p.fund_id s ≡ some f
    → find_fund p.fund_id (posted_store p s) ≡ some (move_row Direction.debit p.amount f)
unfolding posted_store
posted_fund p s found =
    let seen =
      find-update Fund.id p.fund_id p.fund_id (move_row Direction.debit p.amount) s.funds
        (λ _. refl) in
    rw (seen, ==_refl p.fund_id, found) refl

-- An expense that is posted was covered: its fund had at least its amount, has that much less after
-- it, and is not overdrawn.
pub create_expense_covered :
    (p : ExpenseParams) (s : Store) {f : Fund} {t : Store}
    → find_fund p.fund_id s ≡ some f
    → create_expense p s ≡ ok t
    → (pos p.amount ≤ℤ f.balance)
      × (find_fund p.fund_id t ≡ some (move_row Direction.debit p.amount f))
      × (pos 0 ≤ℤ f.balance -ℤ pos p.amount)
unfolding create_expense
create_expense_covered p s {f} {t} found e =
    let covered : pos p.amount ≤ℤ f.balance = ground arith in
    (covered, rw (create_expense_store p s e) (posted_fund p s found), omega int_laws)

abbrev pub void_of : ExpenseParams → VoidParams
void_of p = record { expense_id = p.expense_id; fund_id = p.fund_id; amount = p.amount }

debit_credit : (n : ℕ) (f : Fund) → move_row Direction.credit n (move_row Direction.debit n f) ≡ f
debit_credit n f =
    let back : f.balance -ℤ pos n +ℤ pos n ≡ f.balance = omega int_laws in rw back refl

-- The store after its void.
voided_store : ExpenseParams → Store → Store
voided_store p s = record (posted_store p s) {
  expenses = update Expense.id p.expense_id void_row (posted_store p s).expenses;
  funds = update Fund.id p.fund_id (move_row Direction.credit p.amount) (posted_store p s).funds;
  ledger =
      record {
        fund_id = p.fund_id;
        entry_type = EntryType.expense;
        direction = Direction.credit;
        amount = p.amount;
        reference = Reference.of_expense p.expense_id;
      }
      ∷ (posted_store p s).ledger;
}

void_posted :
    (p : ExpenseParams) (s : Store) {f : Fund}
    → find_fund p.fund_id s ≡ some f
    → void_expense (void_of p) (posted_store p s) ≡ ok (voided_store p s)
unfolding void_expense record_void post_cash move_fund posted_store voided_store find
void_posted p s found = rw (==_refl p.expense_id, posted_fund p s found) refl

voided_fund :
    (p : ExpenseParams) (s : Store) {f : Fund}
    → find_fund p.fund_id s ≡ some f
    → find_fund p.fund_id (voided_store p s) ≡ some f
unfolding voided_store
voided_fund p s {f} found =
    let seen =
      find-update Fund.id p.fund_id p.fund_id (move_row Direction.credit p.amount)
        (posted_store p s).funds (λ _. refl) in
    rw (seen, ==_refl p.fund_id, posted_fund p s found, debit_credit p.amount f) refl

void_again :
    (p : ExpenseParams) (s : Store) → void_expense (void_of p) (voided_store p s) ≡ err conflict
unfolding void_expense voided_store posted_store find update
void_again p s = rw (==_refl p.expense_id, ==_refl p.expense_id) refl

-- The void of an expense that was just posted goes through and gives its fund back as it was; a second
-- void of it is refused as a conflict.
pub void_expense_restores :
    (p : ExpenseParams) (s : Store) {f : Fund} {t : Store}
    → find_fund p.fund_id s ≡ some f
    → create_expense p s ≡ ok t
    → (u : Store) × (void_expense (void_of p) t ≡ ok u)
      × (find_fund p.fund_id u ≡ some f)
      × (void_expense (void_of p) u ≡ err conflict)
void_expense_restores p s {f} {t} found e =
    rw (create_expense_store p s e)
      (voided_store p s, void_posted p s found, voided_fund p s found, void_again p s)
