-- ===== src/Finance/Ledger/Funds.antt =====
-- Expenses and funds keep every fund's balance equal to what its ledger adds up to.
use vielhome_backend.Base.{
  ℕ, ◌≡◌, refl, ◌≢◌, inl, inr, Bool, true, List, [], ◌∷◌, arith, ◌==◌, All, Bool-cases,
  Option-cases,
}
use vielhome_backend.Base.Int.{pos}
use vielhome_backend.Base.Result.{ok, unexpected, expect-eq-ok, forbid-eq-ok, ok-injective}
use vielhome_backend.Base.Table.{Unused, update, All-update}
use vielhome_backend.Query.{update-Keyed}
use vielhome_backend.Finance.Schema.{
  Fund, EntryType, Direction, Reference, LedgerEntry, Store, current,
}
use vielhome_backend.Finance.Store.{find_fund}
use vielhome_backend.Finance.Expenses.{
  ExpenseParams, key_taken, create_expense, record_expense, VoidParams, void_expense, record_void,
}
use vielhome_backend.Finance.Funds.{
  FundParams, create_fund, new_fund, add_fund, set_fund_active, active_row,
  get_or_create_default_fund, find_default,
}
use vielhome_backend.Finance.Ledger.{ledger_balance}
use vielhome_backend.Finance.Ledger.Reconciled.{Balances, post_cash-IsReconciled}
use vielhome_backend.Finance.Ledger.Payments.{Reconciled}

record_expense-Reconciled :
    (p : ExpenseParams) (s : Store) {t : Store}
    → Reconciled s
    → record_expense p s ≡ ok t
    → Reconciled t
unfolding record_expense
record_expense-Reconciled p s h e =
    let (_, e1) = forbid-eq-ok (key_taken p.idempotency_key s.expenses) _ _ e in
    post_cash-IsReconciled EntryType.expense Direction.debit p.fund_id p.amount
      (Reference.of_expense p.expense_id) _ refl h e1

pub create_expense-Reconciled :
    (p : ExpenseParams) (s : Store) {t : Store}
    → Reconciled s
    → create_expense p s ≡ ok t
    → Reconciled t
unfolding create_expense
create_expense-Reconciled p s {t} h e =
    let done : record_expense p s ≡ ok t = ground arith in record_expense-Reconciled p s h done

record_void-Reconciled :
    (p : VoidParams) (s : Store) {t : Store} → Reconciled s → record_void p s ≡ ok t → Reconciled t
unfolding record_void
record_void-Reconciled p s h e =
    post_cash-IsReconciled EntryType.expense Direction.credit p.fund_id p.amount
      (Reference.of_expense p.expense_id) _ refl h e

pub void_expense-Reconciled :
    (p : VoidParams) (s : Store) {t : Store} → Reconciled s → void_expense p s ≡ ok t → Reconciled t
unfolding void_expense
void_expense-Reconciled p s {t} h e =
    let done : record_void p s ≡ ok t = ground arith in record_void-Reconciled p s h done

-- The database gives a new fund an id that no fund and no ledger entry has.
abbrev pub IsFreshFund : ℕ → Store → Type 0
IsFreshFund id s = Unused Fund.id id s.funds × All (λ (e : LedgerEntry). e.fund_id ≢ id) s.ledger

no_entries :
    (id : ℕ) (ledger : List LedgerEntry)
    → All (λ (e : LedgerEntry). e.fund_id ≢ id) ledger
    → ledger_balance id ledger ≡ pos 0
unfolding ledger_balance
no_entries id [] h = refl
no_entries id (e ∷ rest) (n, h) = ground (arith, no_entries id rest h)

add_fund-Reconciled :
    (p : FundParams) (s : Store)
    → IsFreshFund p.fund_id s
    → Reconciled s
    → Reconciled (add_fund (new_fund p) s)
add_fund-Reconciled p s (new, clear) h = record {
  keyed = (new, h.keyed);
  balanced = (ground (arith, no_entries p.fund_id s.ledger clear), h.balanced);
}

pub create_fund-Reconciled :
    (p : FundParams) (s : Store) {t : Store}
    → IsFreshFund p.fund_id s
    → Reconciled s
    → create_fund p s ≡ ok t
    → Reconciled t
unfolding create_fund
create_fund-Reconciled p s fresh h e = elim (Bool-cases (p.initial_balance == 0)) [
  | inl empty ↦ rw (← ok-injective (rw empty at e)) (add_fund-Reconciled p s fresh h)
  | inr funded ↦
      post_cash-IsReconciled EntryType.opening_balance Direction.credit p.fund_id p.initial_balance
        (Reference.of_fund p.fund_id) (add_fund (new_fund p) s) refl
        (add_fund-Reconciled p s fresh h) (rw funded at e)
]

active_rows-balanced :
    (id : ℕ) (b : Bool) (ledger : List LedgerEntry) (fs : List Fund)
    → All (Balances ledger) fs
    → All (Balances ledger) (update Fund.id id (active_row b) fs)
active_rows-balanced id b ledger fs h =
    All-update Fund.id (Balances ledger) id (active_row b) fs (λ f found same. same) h

pub set_fund_active-Reconciled :
    (id : ℕ) (b : Bool) (s : Store) {t : Store}
    → Reconciled s
    → set_fund_active id b s ≡ ok t
    → Reconciled t
unfolding set_fund_active
set_fund_active-Reconciled id b s h e =
    let (_, _, same) =
      expect-eq-ok (find_fund id s) unexpected
        (λ _. ok (record s { funds = update Fund.id id (active_row b) s.funds })) e in
    rw (← ok-injective same) (record {
      keyed = update-Keyed Fund.id id (active_row b) s.funds (λ y. refl) h.keyed;
      balanced = active_rows-balanced id b s.ledger s.funds h.balanced;
    })

pub get_or_create_default_fund-Reconciled :
    (id building_id : ℕ) (s : Store)
    → IsFreshFund id s
    → Reconciled s
    → Reconciled (get_or_create_default_fund id building_id s).1
unfolding get_or_create_default_fund
get_or_create_default_fund-Reconciled id building_id s fresh h =
    elim (Option-cases (find_default building_id s.funds)) [
      | inl missing ↦
          rw (missing, get_or_create_default_fund)
            (add_fund-Reconciled
              (record {
                fund_id = id;
                building_id = building_id;
                fund_type = current;
                is_default = true;
                initial_balance = 0;
              })
              s fresh h)
      | inr (f, found) ↦ rw (found, get_or_create_default_fund) h
    ]
