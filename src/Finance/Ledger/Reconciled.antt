-- ===== src/Finance/Ledger/Reconciled.antt =====
-- The balance of each fund is what its cash entries in the ledger add up to.
use vielhome_backend.Base.{
  ℕ, ◌≡◌, refl, inl, inr, true, false, List, [], ◌∷◌, arith, ◌==◌, All, Bool-cases, ==_iff, ◌∙◌,
}
use vielhome_backend.Base.Result.{ok}
use vielhome_backend.Base.Table.{update, Keyed, Unused}
use vielhome_backend.Query.{update-Keyed}
use vielhome_backend.Finance.Schema.{Fund, EntryType, Direction, Reference, LedgerEntry, Store}
use vielhome_backend.Finance.Store.{move_row, post_cash}
use vielhome_backend.Finance.Payments.Spends.{post_cash-Posts}
use vielhome_backend.Finance.Ledger.{ledger_balance, is_statement_type}

abbrev pub Balances : List LedgerEntry → Fund → Type 0
Balances ledger f = f.balance ≡ ledger_balance f.id ledger

pub record IsReconciled (funds : List Fund) (ledger : List LedgerEntry) : Type 0 where
  pub keyed : Keyed Fund.id funds
  pub balanced : All (Balances ledger) funds

-- An entry of another fund, or one that is not cash, changes no balance.
other_entry :
    (e : LedgerEntry) (ledger : List LedgerEntry) (fs : List Fund)
    → Unused Fund.id e.fund_id fs
    → All (Balances ledger) fs
    → All (Balances (e ∷ ledger)) fs
unfolding ledger_balance
other_entry e ledger [] n h = tt
other_entry e ledger (f ∷ fs) (n, ns) (b, h) = (ground (arith, b), other_entry e ledger fs ns h)

no_cash_entry :
    (e : LedgerEntry) (ledger : List LedgerEntry) (fs : List Fund)
    → is_statement_type e.entry_type ≡ false
    → All (Balances ledger) fs
    → All (Balances (e ∷ ledger)) fs
unfolding ledger_balance
no_cash_entry e ledger [] n h = tt
no_cash_entry e ledger (f ∷ fs) n (b, h) = (ground (arith, b), no_cash_entry e ledger fs n h)

cash_entry :
    (e : LedgerEntry) (ledger : List LedgerEntry) (fs : List Fund)
    → is_statement_type e.entry_type ≡ true
    → Keyed Fund.id fs
    → All (Balances ledger) fs
    → All (Balances (e ∷ ledger)) (update Fund.id e.fund_id (move_row e.direction e.amount) fs)
unfolding update ledger_balance
cash_entry e ledger [] c k h = tt
cash_entry e ledger (f ∷ fs) c (n, k) (b, h) = elim (Bool-cases (f.id == e.fund_id)) [
  | inl same ↦
      let at = (==_iff f.id e.fund_id).0 same in
      rw same (ground (arith, b), other_entry e ledger fs (rw (← at) n) h)
  | inr other ↦ rw other (ground (arith, b), cash_entry e ledger fs c k h)
]

-- Posting cash keeps the balances.
pub post_cash-IsReconciled :
    (kind : EntryType) (d : Direction) (fund_id n : ℕ) (r : Reference) (s : Store) {t : Store}
    → is_statement_type kind ≡ true
    → IsReconciled s.funds s.ledger
    → post_cash kind d fund_id n r s ≡ ok t
    → IsReconciled t.funds t.ledger
post_cash-IsReconciled kind d fund_id n r s cash h e =
    let posts = post_cash-Posts kind d fund_id n r s e in
    rw (posts.same) (record {
      keyed = update-Keyed Fund.id fund_id (move_row d n) s.funds (λ y. refl) h.keyed;
      balanced =
          cash_entry
            (record {
              fund_id = fund_id;
              entry_type = kind;
              direction = d;
              amount = n;
              reference = r;
            })
            s.ledger s.funds cash h.keyed h.balanced;
    })

-- So does any entry that is not cash.
pub post-IsReconciled :
    (e : LedgerEntry) {funds : List Fund} {ledger : List LedgerEntry}
    → is_statement_type e.entry_type ≡ false
    → IsReconciled funds ledger
    → IsReconciled funds (e ∷ ledger)
post-IsReconciled e {funds} {ledger} n h = record {
  keyed = h.keyed;
  balanced = no_cash_entry e ledger funds n h.balanced;
}

-- The tables that cash goes through are as they were.
pub record KeepsCash (s t : Store) : Type 0 where
  pub funds : t.funds ≡ s.funds
  pub ledger : t.ledger ≡ s.ledger

pub KeepsCash-IsReconciled :
    {s t : Store} → KeepsCash s t → IsReconciled s.funds s.ledger → IsReconciled t.funds t.ledger
KeepsCash-IsReconciled k h = rw (k.funds, k.ledger) h

pub KeepsCash-trans : {s t u : Store} → KeepsCash s t → KeepsCash t u → KeepsCash s u
KeepsCash-trans k j = record { funds = j.funds ∙ k.funds; ledger = j.ledger ∙ k.ledger }
