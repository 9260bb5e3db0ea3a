-- ===== src/Finance/Adjustments.antt =====
-- finance.repository.ts, `createAdjustment` and `applyOpeningBalanceCorrection`: corrections of what
-- a unit owes. Neither moves the balance of a fund.
use vielhome_backend.Base.{
  ℕ, ◌+◌, ◌-◌, min, Bool, true, false, not, ◌&&◌, Option, none, some, List, [], ◌∷◌, ◌==◌, same,
  if◌then◌else◌, filter, any,
}
use vielhome_backend.Base.Int.{ℤ, pos, ◌+ℤ◌, ◌-ℤ◌, pos_part, abs, ltb_ℤ}
use vielhome_backend.Base.Result.{
  Result, ok, business_rule, duplicate, expect, guard, forbid, ◌>>=◌, ◌>>◌,
}
use vielhome_backend.Query.{sort}
use vielhome_backend.Finance.Schema.{
  SourceType, late_fee, opening_balance_correction, ChargeItem, Adjustment, EntryType, Direction,
  Reference, Store,
}
use vielhome_backend.Finance.Store.{
  is_live, is_positive, created_before, find_item, find_batch, outstanding_items, write_item,
  write_adjustment, upsert_credit, post,
}

pub record AdjustmentParams : Type 0 where
  pub adjustment_id : ℕ
  pub unit_id : ℕ
  pub building_id : ℕ
  pub fund_id : ℕ
  pub amount : ℤ
  pub source_type : Option SourceType
  pub source_id : Option ℕ
  pub created_at : ℕ

abbrev pub is_negative : ℤ → Bool
is_negative a = ltb_ℤ a (pos 0)

-- A late fee is for an item of the unit, in an issued or closed batch.
unfoldable pub check_source : ℕ → Option SourceType → Option ℕ → Store → Result (Unit {0})
check_source unit_id (some late_fee) (some id) s = do
  item ← expect (find_item id s) business_rule
  guard (item.unit_id == unit_id) business_rule
  batch ← expect (find_batch item.batch_id s) business_rule
  guard (is_live batch.status) business_rule
check_source unit_id source_type source_id s = ok tt

abbrev pub same_source : SourceType → SourceType → Bool
same_source late_fee late_fee = true
same_source opening_balance_correction opening_balance_correction = true
same_source late_fee opening_balance_correction = false
same_source opening_balance_correction late_fee = false

abbrev pub has_source_type : SourceType → Option SourceType → Bool
has_source_type k none = false
has_source_type k (some j) = same_source k j

-- `@@unique([sourceType, sourceId])`; a null in either column collides with nothing.
abbrev pub source_taken : Option SourceType → Option ℕ → List Adjustment → Bool
source_taken (some k) (some id) rows =
    any (λ (a : Adjustment). has_source_type k a.source_type && same a.source_id (some id)) rows
source_taken (some _) none rows = false
source_taken none _ rows = false

abbrev pub new_adjustment : AdjustmentParams → Adjustment
new_adjustment p = record {
  id = p.adjustment_id;
  unit_id = p.unit_id;
  building_id = p.building_id;
  fund_id = p.fund_id;
  amount = p.amount;
  paid_amount = 0;
  source_type = p.source_type;
  source_id = p.source_id;
  created_at = p.created_at;
}

abbrev pub add_adjustment : Adjustment → Store → Store
add_adjustment a s = record s { adjustments = a ∷ s.adjustments }

-- The loop of a waiver: as for a payment, with no allocation rows.
unfoldable pub waive_items : ℕ → List ChargeItem → Store → Store × ℕ
waive_items remaining [] s = (s, remaining)
waive_items remaining (item ∷ rest) s =
    let outstanding = item.amount - item.paid_amount in
    let amount = min remaining outstanding in
    let skipped = waive_items remaining rest s in
    let waived_rest =
      waive_items (remaining - amount) rest (write_item item.id (item.paid_amount + amount) s) in
    if remaining == 0 then (s, remaining) else if outstanding == 0 then skipped else waived_rest

-- A waiver beyond all outstanding debt is not applied any further.
unfoldable pub waive : ℕ → ℤ → Store → Store
unfolding waive_items
waive unit_id amount s =
    if is_negative amount then (waive_items (abs amount) (outstanding_items unit_id s) s).0 else s

-- The ledger entry of a correction: a negative one is a credit.
abbrev pub post_adjustment : ℕ → ℕ → ℤ → Store → Store
post_adjustment adjustment_id fund_id amount s =
    post
      (record {
        fund_id = fund_id;
        entry_type = EntryType.adjustment;
        direction = if is_negative amount then Direction.credit else Direction.debit;
        amount = abs amount;
        reference = Reference.of_adjustment adjustment_id;
      })
      s

unfoldable pub create_adjustment : AdjustmentParams → Store → Result Store
unfolding waive
create_adjustment p s = do
  check_source p.unit_id p.source_type p.source_id s
  forbid (source_taken p.source_type p.source_id s.adjustments) duplicate
  ok (
      post_adjustment p.adjustment_id p.fund_id p.amount
        (waive p.unit_id p.amount (add_adjustment (new_adjustment p) s)))

-- The corrections of a unit's opening balance.
abbrev pub is_correction : ℕ → Adjustment → Bool
is_correction unit_id a =
    a.unit_id == unit_id && has_source_type opening_balance_correction a.source_type

unfoldable pub sum_amounts : List Adjustment → ℤ
sum_amounts [] = pos 0
sum_amounts (a ∷ rest) = a.amount +ℤ sum_amounts rest

-- `getUnitOpeningBalanceCorrectionTotal`
unfoldable pub opening_balance : ℕ → Store → ℤ
unfolding sum_amounts
opening_balance unit_id s = sum_amounts (filter (is_correction unit_id) s.adjustments)

unfoldable pub waive_corrections : ℕ → List Adjustment → Store → Store × ℕ
waive_corrections remaining [] s = (s, remaining)
waive_corrections remaining (a ∷ rest) s =
    let outstanding = pos_part a.amount - a.paid_amount in
    let amount = min remaining outstanding in
    let skipped = waive_corrections remaining rest s in
    let waived_rest =
      waive_corrections (remaining - amount) rest
        (write_adjustment a.id (a.paid_amount + amount) s) in
    if remaining == 0 then (s, remaining) else if outstanding == 0 then skipped else waived_rest

pub record CorrectionParams : Type 0 where
  pub adjustment_id : ℕ
  pub unit_id : ℕ
  pub building_id : ℕ
  pub fund_id : ℕ
  pub target_balance : ℤ
  pub created_at : ℕ

abbrev pub prior_corrections : CorrectionParams → Store → List Adjustment
prior_corrections p s = sort created_before (
    filter (λ a. is_correction p.unit_id a && is_positive a.amount && not (a.id == p.adjustment_id))
      s.adjustments)

abbrev pub bank_waiver : ℕ → Store × ℕ → Store
bank_waiver unit_id (s, remaining) = if remaining == 0 then s else upsert_credit unit_id remaining s

-- A downward correction waives earlier upward ones; what is left becomes credit of the unit.
unfoldable pub settle_correction : CorrectionParams → ℤ → Store → Store
unfolding waive_corrections
settle_correction p delta s =
    if is_negative delta
    then bank_waiver p.unit_id (waive_corrections (abs delta) (prior_corrections p s) s)
    else s

abbrev pub correction_row : CorrectionParams → ℤ → Adjustment
correction_row p delta = record {
  id = p.adjustment_id;
  unit_id = p.unit_id;
  building_id = p.building_id;
  fund_id = p.fund_id;
  amount = delta;
  paid_amount = 0;
  source_type = some opening_balance_correction;
  source_id = none;
  created_at = p.created_at;
}

unfoldable pub correct_opening_balance : CorrectionParams → Store → Result Store
unfolding settle_correction
correct_opening_balance p s =
    let delta = p.target_balance -ℤ opening_balance p.unit_id s in
    do
      forbid (abs delta == 0) business_rule
      ok (
          post_adjustment p.adjustment_id p.fund_id delta
            (settle_correction p delta (add_adjustment (correction_row p delta) s)))
