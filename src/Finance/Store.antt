-- ===== src/Finance/Store.antt =====
-- modules/finance/infrastructure/repositories/finance.repository.ts: the reads and writes that its
-- transactions share. A transaction returns the new tables, or throws and leaves none: it is
-- `Store → Result Store`. The advisory lock of a unit makes the transactions of that unit run one
-- after another, which is how they are composed here.
use vielhome_backend.Base.{
  ℕ, ◌+◌, Bool, true, false, ◌&&◌, ◌||◌, not, Option, none, some, List, ◌∷◌, ltb, leb, ◌==◌,
  if◌then◌else◌, filter, sum_by,
}
use vielhome_backend.Base.Int.{ℤ, pos, ◌+ℤ◌, ◌-ℤ◌, ltb_ℤ}
use vielhome_backend.Base.Result.{Result, ok, unexpected, expect, ◌>>=◌}
use vielhome_backend.Base.Table.{find, update}
use vielhome_backend.Query.{sort}
use vielhome_backend.Finance.Schema.{
  BatchStatus, issued, closed, ItemStatus, unpaid, partially_paid, paid, PaymentStatus, Target,
  Reference, Fund, ChargeBatch, ChargeItem, Adjustment, Payment, Allocation, CreditBalance,
  EntryType, Direction, LedgerEntry, Store,
}

-- `computeItemStatus`
abbrev pub compute_item_status : ℕ → ℕ → ItemStatus
compute_item_status paid_amount amount =
    if paid_amount == 0 then unpaid else if leb amount paid_amount then paid else partially_paid

abbrev pub is_paid : ItemStatus → Bool
is_paid paid = true
is_paid _ = false

-- `['ISSUED', 'CLOSED'].includes(status)`
abbrev pub is_live : BatchStatus → Bool
is_live issued = true
is_live closed = true
is_live _ = false

abbrev pub find_fund : ℕ → Store → Option Fund
find_fund id s = find Fund.id id s.funds

abbrev pub find_batch : ℕ → Store → Option ChargeBatch
find_batch id s = find ChargeBatch.id id s.batches

abbrev pub find_item : ℕ → Store → Option ChargeItem
find_item id s = find ChargeItem.id id s.items

abbrev pub find_adjustment : ℕ → Store → Option Adjustment
find_adjustment id s = find Adjustment.id id s.adjustments

abbrev pub find_payment : ℕ → Store → Option Payment
find_payment id s = find Payment.id id s.payments

abbrev pub find_credit : ℕ → Store → Option CreditBalance
find_credit unit_id s = find CreditBalance.unit_id unit_id s.credits

-- `chargeBatch: { status: { in: ['ISSUED', 'CLOSED'] } }`
abbrev pub batch_live : Option ChargeBatch → Bool
batch_live none = false
batch_live (some b) = is_live b.status

abbrev due_of : Option ChargeBatch → Option ℕ
due_of none = none
due_of (some b) = b.due_date

-- `asc` on a column that may be null: nulls come last.
abbrev pub date_before : Option ℕ → Option ℕ → Bool
date_before (some a) (some b) = ltb a b
date_before (some a) none = true
date_before none b = false

-- `orderBy: [{ chargeBatch: { dueDate: 'asc' } }, { createdAt: 'asc' }]`
unfoldable pub due_before : Store → ChargeItem → ChargeItem → Bool
due_before s a b =
    let due_a = due_of (find_batch a.batch_id s) in
    let due_b = due_of (find_batch b.batch_id s) in
    date_before due_a due_b || (not (date_before due_b due_a) && ltb a.created_at b.created_at)

abbrev pub is_outstanding : ℕ → Store → ChargeItem → Bool
is_outstanding unit_id s i =
    i.unit_id == unit_id && not (is_paid i.status) && batch_live (find_batch i.batch_id s)

-- The charge items of a unit that are not paid, oldest debt first.
unfoldable pub outstanding_items : ℕ → Store → List ChargeItem
unfolding due_before
outstanding_items unit_id s = sort (due_before s) (filter (is_outstanding unit_id s) s.items)

abbrev pub is_positive : ℤ → Bool
is_positive a = ltb_ℤ (pos 0) a

abbrev pub created_before : Adjustment → Adjustment → Bool
created_before a b = ltb a.created_at b.created_at

-- The debt-adding adjustments of a unit, oldest first.
unfoldable pub positive_adjustments : ℕ → Store → List Adjustment
positive_adjustments unit_id s =
    sort created_before (filter (λ a. a.unit_id == unit_id && is_positive a.amount) s.adjustments)

abbrev pub pay_row : ℕ → ChargeItem → ChargeItem
pay_row new_paid i = record i {
  paid_amount = new_paid;
  status = compute_item_status new_paid i.amount;
}

-- `tx.chargeItem.update({ data: { paidAmount, status: computeItemStatus(paidAmount, amount) } })`
abbrev pub write_item : ℕ → ℕ → Store → Store
write_item id new_paid s = record s { items = update ChargeItem.id id (pay_row new_paid) s.items }

abbrev pub pay_adjustment_row : ℕ → Adjustment → Adjustment
pay_adjustment_row new_paid a = record a { paid_amount = new_paid }

-- `tx.adjustment.update({ data: { paidAmount } })`
abbrev pub write_adjustment : ℕ → ℕ → Store → Store
write_adjustment id new_paid s = record s {
  adjustments = update Adjustment.id id (pay_adjustment_row new_paid) s.adjustments;
}

-- `tx.paymentAllocation.create`
abbrev pub allocate : ℕ → Target → ℕ → Store → Store
allocate payment_id target amount s = record s {
  allocations =
      record { payment_id = payment_id; target = target; amount = amount } ∷ s.allocations;
}

abbrev pub set_status : PaymentStatus → Payment → Payment
set_status status p = record p { status = status }

-- `tx.payment.update({ data: { status } })`
abbrev pub write_payment : ℕ → PaymentStatus → Store → Store
write_payment id status s = record s {
  payments = update Payment.id id (set_status status) s.payments;
}

abbrev pub credit_row : ℕ → CreditBalance → CreditBalance
credit_row amount c = record c { balance = c.balance + amount }

-- `tx.paymentAllocation.aggregate({ where: { paymentId }, _sum: { amount } })`
abbrev pub allocated : ℕ → List Allocation → ℕ
allocated id = sum_by (λ (x : Allocation). if x.payment_id == id then x.amount else 0)

-- `tx.creditBalance.upsert`: create with the amount, or increment by it.
unfoldable pub upsert_credit : ℕ → ℕ → Store → Store
upsert_credit unit_id amount s = elim (find_credit unit_id s) [
  | none ↦ record s { credits = record { unit_id = unit_id; balance = amount } ∷ s.credits }
  | some _ ↦ record s {
    credits = update CreditBalance.unit_id unit_id (credit_row amount) s.credits;
  }
]

-- `tx.ledgerEntry.create`
abbrev pub post : LedgerEntry → Store → Store
post e s = record s { ledger = e ∷ s.ledger }

abbrev pub move : Direction → ℕ → ℤ → ℤ
move Direction.credit amount balance = balance +ℤ pos amount
move Direction.debit amount balance = balance -ℤ pos amount

abbrev pub move_row : Direction → ℕ → Fund → Fund
move_row direction amount f = record f { balance = move direction amount f.balance }

-- `tx.fund.update({ data: { balance: { increment | decrement } } })`, which throws if the fund is
-- not there.
unfoldable pub move_fund : ℕ → Direction → ℕ → Store → Result Store
move_fund id direction amount s = do
  _ ← expect (find_fund id s) unexpected
  ok (record s { funds = update Fund.id id (move_row direction amount) s.funds })

-- A cash movement: its ledger entry, then the balance of its fund.
unfoldable pub post_cash : EntryType → Direction → ℕ → ℕ → Reference → Store → Result Store
unfolding move_fund
post_cash entry_type direction fund_id amount reference s = move_fund fund_id direction amount (
    post
      (record {
        fund_id = fund_id;
        entry_type = entry_type;
        direction = direction;
        amount = amount;
        reference = reference;
      })
      s)
