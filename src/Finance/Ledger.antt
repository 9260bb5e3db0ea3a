-- ===== src/Finance/Ledger.antt =====
-- finance.repository.ts, `affectsFundBalance` and `FUND_STATEMENT_ENTRY_TYPES`: which entries of the
-- ledger are cash, and the balance that they add up to.
pub mod Reconciled
pub mod Payments
pub mod Funds
pub mod Debts
use vielhome_backend.Base.{ℕ, Bool, true, false, ◌&&◌, List, [], ◌∷◌, ◌==◌, if◌then◌else◌}
use vielhome_backend.Base.Int.{ℤ, pos}
use vielhome_backend.Finance.Schema.{EntryType, LedgerEntry}
use vielhome_backend.Finance.Store.{move}

abbrev pub affects_fund_balance : EntryType → Bool
affects_fund_balance EntryType.payment = true
affects_fund_balance EntryType.refund = true
affects_fund_balance EntryType.reversal = true
affects_fund_balance EntryType.expense = true
affects_fund_balance _ = false

abbrev pub is_statement_type : EntryType → Bool
is_statement_type EntryType.opening_balance = true
is_statement_type EntryType.payment = true
is_statement_type EntryType.expense = true
is_statement_type EntryType.refund = true
is_statement_type EntryType.reversal = true
is_statement_type _ = false

abbrev pub is_cash_of : ℕ → LedgerEntry → Bool
is_cash_of fund_id e = e.fund_id == fund_id && is_statement_type e.entry_type

-- The balance that the cash entries of a fund add up to, the newest entry first.
unfoldable pub ledger_balance : ℕ → List LedgerEntry → ℤ
ledger_balance fund_id [] = pos 0
ledger_balance fund_id (e ∷ rest) =
    if is_cash_of fund_id e
    then move e.direction e.amount (ledger_balance fund_id rest)
    else ledger_balance fund_id rest
