-- ===== src/Finance/Batches.antt =====
-- finance.repository.ts, `createChargeBatch`, `issueChargeBatch` and `cancelChargeBatch`: the life of
-- a charge batch, from DRAFT to ISSUED or CANCELLED.
pub mod SamePaid
pub mod Credit
use vielhome_backend.Base.{
  is_some, arith, ◌≡◌, ℕ, ◌+◌, ◌-◌, min, Bool, true, false, ◌&&◌, ◌||◌, Option, none, some, List,
  [], ◌∷◌, ◌++◌, map, ◌==◌, ltb, if◌then◌else◌, filter, any, length, sum_by,
}
use vielhome_backend.Base.Result.{
  unexpected, expect-eq-ok, Result, ok, business_rule, conflict, expect, guard, forbid, ◌>>=◌, ◌>>◌,
}
use vielhome_backend.Base.Table.{update}
use vielhome_backend.Finance.Schema.{
  BatchStatus, draft, issued, closed, cancelled, unpaid, ChargeKind, FundType, PayerType, Fund,
  ChargeBatch, ChargeItem, CreditBalance, ItemPayer, EntryType, Direction, Reference, Store,
}
use vielhome_backend.Finance.Store.{find_item, find_batch, find_fund, find_credit, write_item, post}

pub record NewItem : Type 0 where
  pub id : ℕ
  pub unit_id : ℕ
  pub amount : ℕ

pub record BatchParams : Type 0 where
  pub batch_id : ℕ
  pub building_id : ℕ
  pub fund_id : ℕ
  pub kind : Option ChargeKind
  pub expected_fund_type : Option FundType
  pub series_id : Option ℕ
  pub period_start : Option ℕ
  pub due_date : Option ℕ
  pub created_at : ℕ
  pub items : List NewItem

pub FundType-discrete : Discrete FundType
FundType-discrete = hlevel

abbrev pub same_type : FundType → FundType → Bool
same_type a b = elim (FundType-discrete a b) [ yes _ ↦ true | no _ ↦ false ]

-- The row that `SELECT … FOR UPDATE` finds.
abbrev pub is_compatible : ℕ → FundType → Option Fund → Bool
is_compatible building_id t none = false
is_compatible building_id t (some f) =
    f.building_id == building_id && f.is_active && same_type f.fund_type t

abbrev pub check_fund : BatchParams → Store → Result (Unit {0})
check_fund p s = elim p.kind [
  | none ↦ ok tt
  | some _ ↦ elim p.expected_fund_type [
    | none ↦ ok tt
    | some t ↦ guard (is_compatible p.building_id t (find_fund p.fund_id s)) conflict
  ]
]

abbrev pub new_batch : BatchParams → ChargeBatch
new_batch p = record {
  id = p.batch_id;
  building_id = p.building_id;
  fund_id = p.fund_id;
  total_amount = sum_by NewItem.amount p.items;
  status = draft;
  kind = p.kind;
  series_id = p.series_id;
  period_start = p.period_start;
  due_date = p.due_date;
}

abbrev pub new_item : ℕ → ℕ → NewItem → ChargeItem
new_item batch_id created_at i = record {
  id = i.id;
  batch_id = batch_id;
  unit_id = i.unit_id;
  amount = i.amount;
  paid_amount = 0;
  status = unpaid;
  resolved_payer_type = none;
  created_at = created_at;
}

unfoldable pub create_batch : BatchParams → Store → Result Store
create_batch p s = do
  check_fund p s
  ok (record s {
    batches = new_batch p ∷ s.batches;
    items = map (new_item p.batch_id p.created_at) p.items ++ s.items;
  })

abbrev pub items_of : ℕ → Store → List ChargeItem
items_of batch_id s = filter (λ (i : ChargeItem). i.batch_id == batch_id) s.items

pub record PayerResolution : Type 0 where
  pub item_id : ℕ
  pub payer_type : PayerType
  pub person_ids : List ℕ

abbrev pub payer_row : PayerType → ChargeItem → ChargeItem
payer_row t i = record i { resolved_payer_type = some t }

unfoldable pub new_payers : ℕ → List ℕ → List ItemPayer
new_payers item_id [] = []
new_payers item_id (person ∷ rest) =
    record { item_id = item_id; person_id = person } ∷ new_payers item_id rest

-- The update of an item that is not there throws; no item goes away in the loop.
abbrev pub payers_known : List PayerResolution → Store → Bool
payers_known [] s = true
payers_known (r ∷ rest) s = is_some (find_item r.item_id s) && payers_known rest s

-- The loop over the payer snapshot.
unfoldable pub write_payers : List PayerResolution → Store → Store
unfolding new_payers
write_payers [] s = s
write_payers (r ∷ rest) s = write_payers rest (record s {
  items = update ChargeItem.id r.item_id (payer_row r.payer_type) s.items;
  item_payers = new_payers r.item_id r.person_ids ++ s.item_payers;
})

abbrev pub debit_row : ℕ → CreditBalance → CreditBalance
debit_row amount c = record c { balance = c.balance - amount }

-- What is applied of a unit's credit to one of its new items; the credit row was read before.
unfoldable pub use_credit : ℕ → ChargeItem → ℕ → Store → Store
use_credit fund_id item amount s =
    let t = write_item item.id (item.paid_amount + amount) s in
    post
      (record {
        fund_id = fund_id;
        entry_type = EntryType.credit_applied;
        direction = Direction.credit;
        amount = amount;
        reference = Reference.of_item item.id;
      })
      (record t {
        credits = update CreditBalance.unit_id item.unit_id (debit_row amount) t.credits;
      })

abbrev pub credit_balance : Option CreditBalance → ℕ
credit_balance none = 0
credit_balance (some c) = c.balance

-- `for (const item of items)`. The conditional decrement finds a balance of at least what is applied,
-- since that is at most the balance just read.
unfoldable pub apply_credits : ℕ → List ChargeItem → Store → Store
unfolding use_credit
apply_credits fund_id [] s = s
apply_credits fund_id (item ∷ rest) s =
    let credit = credit_balance (find_credit item.unit_id s) in
    let outstanding = item.amount - item.paid_amount in
    apply_credits fund_id rest (
      if credit == 0 || outstanding == 0
      then s
      else use_credit fund_id item (min credit outstanding) s)

abbrev pub batch_row : BatchStatus → ChargeBatch → ChargeBatch
batch_row status b = record b { status = status }

abbrev pub write_batch : ℕ → BatchStatus → Store → Store
write_batch id status s = record s {
  batches = update ChargeBatch.id id (batch_row status) s.batches;
}

abbrev pub is_draft : BatchStatus → Bool
is_draft draft = true
is_draft _ = false

pub record IssueParams : Type 0 where
  pub batch_id : ℕ
  pub building_id : ℕ
  pub payers : List PayerResolution

-- All writes of an issue, once the batch has passed its checks.
unfoldable pub record_issue : IssueParams → ChargeBatch → Store → Store
unfolding write_payers apply_credits
record_issue p b s =
    let t = write_payers p.payers (write_batch p.batch_id issued s) in
    post
      (record {
        fund_id = b.fund_id;
        entry_type = EntryType.charge;
        direction = Direction.debit;
        amount = b.total_amount;
        reference = Reference.of_batch p.batch_id;
      })
      (apply_credits b.fund_id (items_of p.batch_id s) t)

unfoldable pub issue_batch : IssueParams → Store → Result Store
issue_batch p s = do
  b ← expect (find_batch p.batch_id s) business_rule
  guard (b.building_id == p.building_id) business_rule
  guard (is_draft b.status) business_rule
  forbid (b.total_amount == 0 || length (items_of p.batch_id s) == 0) business_rule
  guard (payers_known p.payers s) unexpected
  ok (record_issue p b s)

-- An issue that returns has done all its writes, for the batch that it found.
pub issue_batch-record :
    (p : IssueParams) (s : Store) {t : Store}
    → issue_batch p s ≡ ok t
    → (b : ChargeBatch) × (record_issue p b s ≡ t)
unfolding issue_batch
issue_batch-record p s {t} e =
    let (b, _, e1) =
      expect-eq-ok (find_batch p.batch_id s) business_rule
        (λ b.
          guard (b.building_id == p.building_id) business_rule
          >> (guard (is_draft b.status) business_rule
              >> (forbid (b.total_amount == 0 || length (items_of p.batch_id s) == 0) business_rule
                  >> (guard (payers_known p.payers s) unexpected >> ok (record_issue p b s)))))
        e in
    let done : record_issue p b s ≡ t = ground arith in (b, done)

abbrev pub is_final : BatchStatus → Bool
is_final closed = true
is_final cancelled = true
is_final _ = false

abbrev pub has_paid : ChargeItem → Bool
has_paid i = ltb 0 i.paid_amount

unfoldable pub cancel_batch : ℕ → ℕ → Store → Result Store
cancel_batch batch_id building_id s = do
  b ← expect (find_batch batch_id s) business_rule
  guard (b.building_id == building_id) business_rule
  forbid (is_final b.status) business_rule
  forbid (any has_paid (items_of batch_id s)) business_rule
  ok (write_batch batch_id cancelled s)
