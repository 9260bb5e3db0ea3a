-- ===== src/Finance/Batches/Credit.antt =====
-- What issuing a charge does to the money of its units.
use vielhome_backend.Base.{
  ℕ, ◌+◌, ◌-◌, ◌≤◌, min, ◌≡◌, ◌≢◌, refl, ◌∙◌, inl, inr, Option, none, some, List, [], ◌∷◌, arith,
  ◌==◌, ◌||◌, ==_iff, subst, if◌then◌else◌, sum_by, Bool, false, Bool-cases, All-map, All-filter,
  filter,
}
use vielhome_backend.Base.Result.{ok}
use vielhome_backend.Base.Table.{find, find-update, Keyed, sum_by-update}
use vielhome_backend.Query.{filter-held}
use vielhome_backend.Finance.Schema.{issued, ChargeItem, CreditBalance, Store}
use vielhome_backend.Finance.Store.{find_credit, pay_row}
use vielhome_backend.Finance.Payments.Places.{settled}
use vielhome_backend.Finance.Batches.{
  issue_batch-record, write_payers, payer_row, PayerResolution, apply_credits, use_credit,
  debit_row, credit_balance, items_of, write_batch, IssueParams, record_issue, issue_batch,
}
use vielhome_backend.Finance.Batches.SamePaid.{
  SamePaid, sum_by-unchanged, write_payers-settled, write_payers-SamePaid, use_credit-SamePaid,
}

-- One item: what it is paid with leaves the credit of its unit.
use_credit-settled :
    (fund_id : ℕ) (i : ChargeItem) (m : ℕ) (s : Store) {x : ChargeItem} {c : CreditBalance}
    → find ChargeItem.id i.id s.items ≡ some x
    → x.paid_amount ≡ i.paid_amount
    → find_credit i.unit_id s ≡ some c
    → m ≤ c.balance
    → settled (use_credit fund_id i m s) ≡ settled s
unfolding use_credit
use_credit-settled fund_id i m s found same has enough =
    let paid =
      sum_by-update ChargeItem.id ChargeItem.paid_amount i.id (pay_row (i.paid_amount + m)) s.items
        found in
    let used =
      sum_by-update CreditBalance.unit_id CreditBalance.balance i.unit_id (debit_row m) s.credits
        has in
    omega (arith, paid, used)

has_credit :
    (o : Option CreditBalance) (n : ℕ)
    → (credit_balance o == 0 || n == 0) ≡ false
    → (c : CreditBalance) × (o ≡ some c) × (credit_balance o ≡ c.balance)
has_credit none n e = cc
has_credit (some c) n e = (c, refl, refl)

apply_credits-settled :
    (fund_id : ℕ) (rows : List ChargeItem) (s : Store)
    → Keyed ChargeItem.id rows
    → SamePaid rows s.items
    → settled (apply_credits fund_id rows s) ≡ settled s
unfolding apply_credits
apply_credits-settled fund_id [] s k h = refl
apply_credits-settled fund_id (i ∷ rest) s (u, k) ((x, found, same, same_unit), h) =
    elim (Bool-cases (credit == 0 || i.amount - i.paid_amount == 0)) [
      | inl nothing ↦ rw (nothing, apply_credits) (apply_credits-settled fund_id rest s k h)
      | inr some_credit ↦
          let (c, has, balance) =
            has_credit (find_credit i.unit_id s) (i.amount - i.paid_amount) some_credit in
          rw (some_credit, apply_credits)
            (apply_credits-settled fund_id rest (use_credit fund_id i m s) k
                (use_credit-SamePaid fund_id i m rest s u h)
              ∙ use_credit-settled fund_id i m s found same has (omega (arith, balance)))
    ]
  where
    credit : ℕ
    credit = credit_balance (find_credit i.unit_id s)

    m : ℕ
    m = min credit (i.amount - i.paid_amount)

-- What one unit has paid and has as credit.
abbrev pub unit_paid : ℕ → ChargeItem → ℕ
unit_paid unit_id i = if i.unit_id == unit_id then i.paid_amount else 0

abbrev pub unit_money : ℕ → Store → ℕ
unit_money unit_id s = sum_by (unit_paid unit_id) s.items + credit_balance (find_credit unit_id s)

write_payers-unit :
    (u : ℕ) (rows : List PayerResolution) (s : Store)
    → unit_money u (write_payers rows s) ≡ unit_money u s
unfolding write_payers
write_payers-unit u [] s = refl
write_payers-unit u (r ∷ rest) s =
    write_payers-unit u rest _
    ∙ rw (sum_by-unchanged (unit_paid u) r.item_id (payer_row r.payer_type) s.items (λ y. refl))
        refl

use_credit-unit :
    (u fund_id : ℕ) (i : ChargeItem) (m : ℕ) (s : Store) {x : ChargeItem} {c : CreditBalance}
    → find ChargeItem.id i.id s.items ≡ some x
    → x.paid_amount ≡ i.paid_amount
    → x.unit_id ≡ i.unit_id
    → find_credit i.unit_id s ≡ some c
    → m ≤ c.balance
    → unit_money u (use_credit fund_id i m s) ≡ unit_money u s
unfolding use_credit
use_credit-unit u fund_id i m s {x} {c} found same same_unit has enough =
    let paid =
      sum_by-update ChargeItem.id (unit_paid u) i.id (pay_row (i.paid_amount + m)) s.items found in
    let used = find-update CreditBalance.unit_id i.unit_id u (debit_row m) s.credits (λ y. refl) in
    elim (Bool-cases (i.unit_id == u)) [
      | inl e ↦
          let here : find_credit u s ≡ some c =
            subst (λ k. find_credit k s ≡ some c) ((==_iff i.unit_id u).0 e) has in
          let paid_here = rw (same_unit, e) at paid in
          rw (used, e, here) (omega (arith, paid_here, same, enough))
      | inr e ↦
          let paid_elsewhere = rw (same_unit, e) at paid in
          rw (used, e) (omega (arith, paid_elsewhere))
    ]

apply_credits-unit :
    (u fund_id : ℕ) (rows : List ChargeItem) (s : Store)
    → Keyed ChargeItem.id rows
    → SamePaid rows s.items
    → unit_money u (apply_credits fund_id rows s) ≡ unit_money u s
unfolding apply_credits
apply_credits-unit u fund_id [] s k h = refl
apply_credits-unit u fund_id (i ∷ rest) s (unused, k) ((x, found, same, same_unit), h) =
    elim (Bool-cases (credit == 0 || i.amount - i.paid_amount == 0)) [
      | inl nothing ↦ rw (nothing, apply_credits) (apply_credits-unit u fund_id rest s k h)
      | inr some_credit ↦
          let (c, has, balance) =
            has_credit (find_credit i.unit_id s) (i.amount - i.paid_amount) some_credit in
          rw (some_credit, apply_credits)
            (apply_credits-unit u fund_id rest (use_credit fund_id i m s) k
                (use_credit-SamePaid fund_id i m rest s unused h)
              ∙ use_credit-unit u fund_id i m s found same same_unit has (omega (arith, balance)))
    ]
  where
    credit : ℕ
    credit = credit_balance (find_credit i.unit_id s)

    m : ℕ
    m = min credit (i.amount - i.paid_amount)

apply_credits-funds :
    (fund_id : ℕ) (rows : List ChargeItem) (s : Store)
    → (apply_credits fund_id rows s).funds ≡ s.funds
unfolding apply_credits use_credit
apply_credits-funds fund_id [] s = refl
apply_credits-funds fund_id (i ∷ rest) s = apply_credits-funds fund_id rest _ ∙ ground arith

write_payers-funds :
    (rows : List PayerResolution) (s : Store) → (write_payers rows s).funds ≡ s.funds
unfolding write_payers
write_payers-funds [] s = refl
write_payers-funds (r ∷ rest) s = write_payers-funds rest _

filter-Keyed :
    (test : ChargeItem → Bool) (t : List ChargeItem)
    → Keyed ChargeItem.id t
    → Keyed ChargeItem.id (filter test t)
filter-Keyed test [] k = tt
filter-Keyed test (x ∷ t) (u, k) = elim (Bool-cases (test x)) [
  | inl kept ↦ rw kept (All-filter (λ y. y.id ≢ x.id) test t u, filter-Keyed test t k)
  | inr dropped ↦ rw dropped (filter-Keyed test t k)
]

-- Where the ids of charge items are unique, issuing a batch makes and loses no money: for every unit, what its
-- items are paid with is what leaves the unit's own credit, and no fund changes.
pub issue_batch_conserves :
    (p : IssueParams) (s : Store) {t : Store}
    → Keyed ChargeItem.id s.items
    → issue_batch p s ≡ ok t
    → (settled t ≡ settled s)
      × ((unit_id : ℕ) → unit_money unit_id t ≡ unit_money unit_id s)
      × (t.funds ≡ s.funds)
unfolding issue_batch record_issue
issue_batch_conserves p s {t} k e =
    let (b, done) = issue_batch-record p s e in
    let u = write_batch p.batch_id issued s in
    let rows = items_of p.batch_id s in
    let held = filter-held ChargeItem.id (λ i. i.batch_id == p.batch_id) s.items k in
    let same =
      write_payers-SamePaid p.payers rows u
        (All-map _ _ rows (λ i found. (i, found, refl, refl)) held) in
    let distinct = filter-Keyed (λ i. i.batch_id == p.batch_id) s.items k in
    rw (← done) (
      apply_credits-settled b.fund_id rows (write_payers p.payers u) distinct same
          ∙ write_payers-settled p.payers u,
      λ unit_id.
          apply_credits-unit unit_id b.fund_id rows (write_payers p.payers u) distinct same
          ∙ write_payers-unit unit_id p.payers u,
      apply_credits-funds b.fund_id rows (write_payers p.payers u) ∙ write_payers-funds p.payers u,
    )
