-- ===== src/Finance/Payments/Spends.antt =====
-- An approved payment is spent whole: on debts, then on the credit of its unit; and its fund grows.
use vielhome_backend.Base.{
  ℕ, ◌+◌, ◌≡◌, refl, inl, inr, Option, none, some, ◌∷◌, arith, ◌==◌, sum_by, Bool-cases, ==_iff, ap,
}
use vielhome_backend.Base.Result.{
  ok, guard, ◌>>◌, unexpected, conflict, business_rule, ◌>>=◌, expect-eq-ok, guard-eq-ok,
  forbid-eq-ok, >>=-eq-ok,
}
use vielhome_backend.Base.Table.{find, update, sum_by-update}
use vielhome_backend.Query.{query-Current}
use vielhome_backend.Finance.Schema.{
  ChargeItem, Payment, CreditBalance, approved, applied, DebtSelection, EntryType, Direction,
  Reference, Store, Fund, LedgerEntry,
}
use vielhome_backend.Finance.Store.{
  allocated, outstanding_items, upsert_credit, post_cash, write_payment, is_outstanding, find_fund,
  find_payment, credit_row, move_row, due_before,
}
use vielhome_backend.Finance.Payments.Places.{
  settled, HasKeys, Places, Places-trans, apply_items-Places, apply_items-adjustments,
  settle_adjustments-Places, apply_selections-Places,
}
use vielhome_backend.Finance.Payments.Targets.{Agrees, Agrees-after, Agrees-before}
use vielhome_backend.Finance.Payments.{
  is_explicit, have_lapsed, is_total, close_explicit, post_approval, write_reservations, is_pending,
  approve_by_mode, selections_of, apply_items, settle_adjustments, bank_rest, approve_automatic,
  approve_explicit, approve_payment, apply_selections, ApproveParams,
}

upsert_credit-sum :
    (unit_id n : ℕ) (s : Store)
    → sum_by CreditBalance.balance (upsert_credit unit_id n s).credits
      ≡ sum_by CreditBalance.balance s.credits + n
unfolding upsert_credit
upsert_credit-sum unit_id n s = go (find CreditBalance.unit_id unit_id s.credits) refl
  where
    go :
        (o : Option CreditBalance)
        → find CreditBalance.unit_id unit_id s.credits ≡ o
        → sum_by CreditBalance.balance (upsert_credit unit_id n s).credits
          ≡ sum_by CreditBalance.balance s.credits + n
    go none e = ground arith
    go (some c) e = ground (
      arith,
      sum_by-update CreditBalance.unit_id CreditBalance.balance unit_id (credit_row n) s.credits e,
    )

-- Banking what is left completes the placing.
pub record Spends (id n : ℕ) (s t : Store) : Type 0 where
  pub money : settled t ≡ settled s + n
  pub rows :
      allocated id t.allocations + sum_by CreditBalance.balance t.credits
      ≡ allocated id s.allocations + sum_by CreditBalance.balance s.credits + n
  pub targets : Agrees id s t

pub upsert_credit-keeps :
    (unit_id n : ℕ) (s : Store)
    → ((upsert_credit unit_id n s).items ≡ s.items)
      × ((upsert_credit unit_id n s).adjustments ≡ s.adjustments)
      × ((upsert_credit unit_id n s).allocations ≡ s.allocations)
unfolding upsert_credit
upsert_credit-keeps unit_id n s = ground arith

bank_rest-Spends :
    (id unit_id n left : ℕ) (s t : Store)
    → Places id s n t left
    → Spends id n s (bank_rest unit_id (t, left))
unfolding bank_rest
bank_rest-Spends id unit_id n left s t p = elim (Bool-cases (left == 0)) [
  | inl nothing ↦ rw nothing (record {
    money = omega (arith, p.money, (==_iff left 0).0 nothing);
    rows = rw (p.credits) (omega (arith, p.rows, (==_iff left 0).0 nothing));
    targets = p.targets;
  })
  | inr more ↦ rw more (
      let (same_items, same_adjustments, same_rows) = upsert_credit-keeps unit_id left t in
      record {
        money =
            rw (same_items, same_adjustments)
              (omega (arith, p.money, upsert_credit-sum unit_id left t));
        rows = rw same_rows (
            omega (
              arith,
              p.rows,
              upsert_credit-sum unit_id left t,
              ap (sum_by CreditBalance.balance) p.credits,
            ));
        targets =
            Agrees-after id s t (upsert_credit unit_id left t) same_items same_adjustments same_rows
              p.targets;
      })
]

-- A cash movement touches the balance of its fund and the ledger only.
pub record Posts (fund_id : ℕ) (direction : Direction) (n : ℕ) (entry : LedgerEntry) (s t : Store)
    : Type 0 where
  pub fund : Fund
  pub found : find_fund fund_id s ≡ some fund
  pub same : t ≡ record s {
    funds = update Fund.id fund_id (move_row direction n) s.funds;
    ledger = entry ∷ s.ledger;
  }

pub post_cash-Posts :
    (kind : EntryType) (direction : Direction) (fund_id n : ℕ) (r : Reference) (s : Store)
    {t : Store}
    → post_cash kind direction fund_id n r s ≡ ok t
    → Posts fund_id direction n
        (record {
          fund_id = fund_id;
          entry_type = kind;
          direction = direction;
          amount = n;
          reference = r;
        })
        s
        t
unfolding post_cash
post_cash-Posts kind direction fund_id n r s e =
    let (f, found, same) = expect-eq-ok _ unexpected _ e in
    record { fund = f; found = found; same = cc }

Spends-Posts :
    {id n fund_id m : ℕ} {d : Direction} {entry : LedgerEntry} {s t u : Store}
    → Spends id n s t
    → Posts fund_id d m entry t u
    → Spends id n s u
Spends-Posts {id} {n} {fund_id} {m} {d} {entry} {s} {t} spends posts = rw (posts.same) (record {
  money = spends.money;
  rows = spends.rows;
  targets =
      Agrees-after id s t
        (record t {
          funds = update Fund.id fund_id (move_row d m) t.funds;
          ledger = entry ∷ t.ledger;
        })
        refl refl refl spends.targets;
})

approve_automatic-Spends :
    (p : ApproveParams) (s : Store) {t : Store}
    → HasKeys s
    → approve_automatic p s ≡ ok t
    → Spends p.payment_id p.amount s t
unfolding approve_automatic outstanding_items post_approval
approve_automatic-Spends p s k e =
    let paid = write_payment p.payment_id approved s in
    let rows = outstanding_items p.unit_id paid in
    let (u, left) = apply_items p.payment_id p.amount rows paid in
    let on_items = apply_items-Places p.payment_id p.amount rows paid (
      query-Current ChargeItem.id (is_outstanding p.unit_id paid) (due_before paid) s.items
        k.items) in
    let adjustments_kept = apply_items-adjustments p.payment_id p.amount rows paid in
    let on_adjustments = settle_adjustments-Places p u left (rw adjustments_kept k.adjustments) in
    let (v, rest) = settle_adjustments p (u, left) in
    let spends =
      bank_rest-Spends p.payment_id p.unit_id p.amount rest paid v
        (Places-trans on_items on_adjustments) in
    Spends-Posts
      (record {
        money = spends.money;
        rows = spends.rows;
        targets =
            Agrees-before p.payment_id s paid (bank_rest p.unit_id (v, rest)) refl refl refl
              spends.targets;
      })
      (post_cash-Posts EntryType.payment Direction.credit p.fund_id p.amount
        (Reference.of_payment p.payment_id) (bank_rest p.unit_id (v, rest)) e)

approve_explicit-Spends :
    (p : ApproveParams) (current : Payment) (s : Store) {t : Store}
    → approve_explicit p current s ≡ ok t
    → Spends p.payment_id p.amount s t
unfolding approve_explicit close_explicit post_approval
approve_explicit-Spends p current s e =
    let chosen = selections_of p.payment_id s in
    let (_, e1) =
      forbid-eq-ok (have_lapsed chosen) conflict
        (guard (is_total p current chosen) business_rule
          >> (apply_selections p chosen s >>= close_explicit p))
        e in
    let (total, e2) =
      guard-eq-ok (is_total p current chosen) business_rule
        (apply_selections p chosen s >>= close_explicit p) e1 in
    let (u, applied_all, e3) = >>=-eq-ok (apply_selections p chosen s) (close_explicit p) e2 in
    let whole : sum_by DebtSelection.selected_amount chosen ≡ p.amount = ground (arith, total) in
    let places = apply_selections-Places p chosen p.amount s (omega arith) applied_all in
    let credits_kept = ap (sum_by CreditBalance.balance) places.credits in
    Spends-Posts
      (record {
        money = omega (arith, places.money);
        rows = omega (arith, places.rows, credits_kept);
        targets =
            Agrees-after p.payment_id s u
              (write_payment p.payment_id approved (write_reservations p.payment_id applied u)) refl
              refl refl places.targets;
      })
      (post_cash-Posts EntryType.payment Direction.credit p.fund_id p.amount
        (Reference.of_payment p.payment_id)
        (write_payment p.payment_id approved (write_reservations p.payment_id applied u)) e3)

-- Where the ids of charge items and of adjustments are unique, a payment that is approved, automatic
-- or explicit, is spent whole: the debts settled and the credit banked grow by exactly its amount, and
-- so do the allocation rows of the payment together with the credit. What is paid on each charge item and
-- each adjustment grows by exactly what the payment's allocation rows for that debt grow by.
pub approve_payment-Spends :
    (p : ApproveParams) (s : Store) {t : Store}
    → HasKeys s
    → approve_payment p s ≡ ok t
    → Spends p.payment_id p.amount s t
unfolding approve_payment
approve_payment-Spends p s {t} k e =
    let (current, _, e1) =
      expect-eq-ok (find_payment p.payment_id s) business_rule
        (λ current. guard (is_pending current.status) business_rule >> approve_by_mode p current s)
        e in
    let (_, e2) =
      guard-eq-ok (is_pending current.status) business_rule (approve_by_mode p current s) e1 in
    elim (Bool-cases (is_explicit current.selection_mode)) [
      | inl explicit ↦ approve_explicit-Spends p current s (rw explicit at e2)
      | inr automatic ↦ approve_automatic-Spends p s k (rw automatic at e2)
    ]
