-- ===== src/Finance/Expenses/Race.antt =====
-- Two expenses at once. `createExpense` reads the fund, checks it and writes in one transaction, without
-- a lock on the fund; under the database's default isolation level two of them may both read before
-- either writes. Each is then its check on the tables that were read, and later its write.
use vielhome_backend.Base.{
  ℕ, ◌≡◌, refl, true, false, Option, none, some, [], ◌∷◌, arith, sym, subst,
}
use vielhome_backend.Base.Int.{pos, ltb_ℤ, ◌-ℤ◌, -ℤ_parts}
use vielhome_backend.Base.Result.{ok, err, business_rule, ◌>>=◌, forbid-eq-ok}
use vielhome_backend.Finance.Schema.{Fund, Direction, Store}
use vielhome_backend.Finance.Store.{find_fund, move_row, post_cash, move_fund}
use vielhome_backend.Finance.Expenses.{ExpenseParams, key_taken, create_expense, record_expense}
use vielhome_backend.Finance.Expenses.Laws.{
  new_expense, create_expense_store, posted_store, posted_fund,
}

record_expense_store :
    (p : ExpenseParams) (s : Store) {f : Fund}
    → find_fund p.fund_id s ≡ some f
    → key_taken p.idempotency_key s.expenses ≡ false
    → record_expense p s ≡ ok (posted_store p s)
unfolding record_expense post_cash move_fund posted_store
record_expense_store p s found fresh = rw (fresh, found) refl

-- An expense that is posted had a new key and was covered.
create_expense-checks :
    (p : ExpenseParams) (s : Store) {f : Fund} {t : Store}
    → find_fund p.fund_id s ≡ some f
    → create_expense p s ≡ ok t
    → (ltb_ℤ f.balance (pos p.amount) ≡ false) × (key_taken p.idempotency_key s.expenses ≡ false)
unfolding create_expense record_expense
create_expense-checks p s {f} found e =
    let e1 = rw found at e in
    let (covered, e2) = forbid-eq-ok (ltb_ℤ f.balance (pos p.amount)) _ _ e1 in
    let (fresh, _) = forbid-eq-ok (key_taken p.idempotency_key s.expenses) _ _ e2 in
    (covered, fresh)

uncovered :
    (q : ExpenseParams) (s : Store) {f : Fund}
    → find_fund q.fund_id s ≡ some f
    → ltb_ℤ f.balance (pos q.amount) ≡ true
    → create_expense q s ≡ err business_rule
unfolding create_expense
uncovered q s found short = rw (found, short) refl

-- A key that is new stays new when another expense, of another key, is posted.
fresh_after :
    (key : Option ℕ) (p : ExpenseParams) (s : Store)
    → key_taken key s.expenses ≡ false
    → key_taken key (new_expense p ∷ []) ≡ false
    → key_taken key (posted_store p s).expenses ≡ false
unfolding posted_store
fresh_after none p s fresh apart = refl
fresh_after (some k) p s fresh apart = ground arith

-- Where two expenses on one fund, with different keys or without one, would each be posted alone and the fund
-- does not cover both: one after the other, the second is refused; when the checks of both run before either
-- writes, both are posted and the fund is overdrawn.
pub record_expense_race :
    (p q : ExpenseParams) (s : Store) {f : Fund} {t t' : Store}
    → q.fund_id ≡ p.fund_id
    → find_fund p.fund_id s ≡ some f
    → create_expense p s ≡ ok t
    → create_expense q s ≡ ok t'
    → key_taken q.idempotency_key (new_expense p ∷ []) ≡ false
    → ltb_ℤ (f.balance -ℤ pos p.amount) (pos q.amount) ≡ true
    → (create_expense q t ≡ err business_rule)
      × (u : Store) × (g : Fund) × ((record_expense p s >>= record_expense q) ≡ ok u)
      × (find_fund p.fund_id u ≡ some g)
      × (ltb_ℤ g.balance (pos 0) ≡ true)
record_expense_race p q s {f} {t} one found alone_p alone_q apart together =
    let first = move_row Direction.debit p.amount f in
    let at_p = posted_fund p s found in
    let at_q : find_fund q.fund_id (posted_store p s) ≡ some first =
      subst (λ k. find_fund k (posted_store p s) ≡ some first) (sym one) at_p in
    let (_, fresh_p) = create_expense-checks p s found alone_p in
    let found_q : find_fund q.fund_id s ≡ some f =
      subst (λ k. find_fund k s ≡ some f) (sym one) found in
    let (_, fresh_q) = create_expense-checks q s found_q alone_q in
    let done : (record_expense p s >>= record_expense q) ≡ ok (posted_store q (posted_store p s)) =
      rw
        (
          record_expense_store p s found fresh_p,
          record_expense_store q (posted_store p s) at_q
              (fresh_after q.idempotency_key p s fresh_q apart),
        )
        refl in
    (
      rw (create_expense_store p s alone_p) (uncovered q (posted_store p s) at_q together),
      posted_store q (posted_store p s),
      move_row Direction.debit q.amount first,
      done,
      subst
          (λ k.
            find_fund k (posted_store q (posted_store p s))
            ≡ some (move_row Direction.debit q.amount first))
          one (posted_fund q (posted_store p s) at_q),
      ground (arith, -ℤ_parts first.balance (pos q.amount)),
    )
