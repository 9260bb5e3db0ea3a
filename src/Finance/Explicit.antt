-- ===== src/Finance/Explicit.antt =====
-- finance.repository.ts, `createExplicitPayment`: a payment of selected obligations, which it reserves
-- until it is approved or rejected.
pub mod Order
pub mod Total
use vielhome_backend.Base.{
  ℕ, zero, suc, ◌+◌, ◌-◌, Bool, true, false, not, ◌&&◌, ◌||◌, Option, none, some, List, [], ◌∷◌,
  ◌++◌, map, ◌==◌, ltb, leb, same, if◌then◌else◌, filter, any, length, includes, sum_by,
}
use vielhome_backend.Base.Int.{pos_part}
use vielhome_backend.Base.Result.{
  Result, ok, business_rule, conflict, expect, guard, forbid, ◌>>=◌, ◌>>◌,
}
use vielhome_backend.Query.{sort}
use vielhome_backend.Finance.Schema.{
  ChargeKind, monthly, pending_approval, explicit_selection, active, Target, to_item, to_adjustment,
  Fund, ChargeBatch, ChargeItem, Adjustment, Payment, DebtSelection, Store,
}
use vielhome_backend.Finance.Store.{
  is_live, is_paid, find_batch, find_fund, date_before, batch_live,
}
use vielhome_backend.Finance.Payments.{is_active, is_explicit, selections_of}
use vielhome_backend.Finance.Requests.{find_by_key, add_payment}

pub record ExplicitParams : Type 0 where
  pub payment_id : ℕ
  pub building_id : ℕ
  pub unit_id : ℕ
  pub payer_id : ℕ
  pub method : ℕ
  pub idempotency_key : ℕ
  pub reference : Option ℕ
  pub note : Option ℕ
  pub targets : List Target

abbrev pub item_ids : List Target → List ℕ
item_ids [] = []
item_ids (to_item id ∷ rest) = id ∷ item_ids rest
item_ids (to_adjustment _ ∷ rest) = item_ids rest

abbrev pub adjustment_ids : List Target → List ℕ
adjustment_ids [] = []
adjustment_ids (to_item _ ∷ rest) = adjustment_ids rest
adjustment_ids (to_adjustment id ∷ rest) = id ∷ adjustment_ids rest

abbrev pub target_before : Target → Target → Bool
target_before (to_item a) (to_item b) = ltb a b
target_before (to_item _) (to_adjustment _) = true
target_before (to_adjustment _) (to_item _) = false
target_before (to_adjustment a) (to_adjustment b) = ltb a b

abbrev pub same_target : Target → Target → Bool
same_target (to_item a) (to_item b) = a == b
same_target (to_item _) (to_adjustment _) = false
same_target (to_adjustment _) (to_item _) = false
same_target (to_adjustment a) (to_adjustment b) = a == b

unfoldable pub same_targets : List Target → List Target → Bool
same_targets [] [] = true
same_targets (a ∷ xs) (b ∷ ys) = same_target a b && same_targets xs ys
same_targets _ _ = false

-- A replay names the same obligations, in any order.
abbrev pub is_replay : ExplicitParams → Payment → Store → Bool
is_replay p e s =
    is_explicit e.selection_mode
    && e.unit_id == p.unit_id
    && e.method == p.method
    && same e.reference p.reference
    && same e.note p.note
    && same_targets (sort target_before (map DebtSelection.target (selections_of e.id s)))
        (sort target_before p.targets)

-- `debtSelections: { where: { reservationState: 'ACTIVE' } }` is not empty.
abbrev pub is_reserved : Target → Store → Bool
is_reserved t s = any (λ x. same_target x.target t && is_active x.reservation_state) s.selections

abbrev pub chosen_items : ExplicitParams → Store → List ChargeItem
chosen_items p s = filter (λ i. includes (item_ids p.targets) i.id) s.items

abbrev pub chosen_adjustments : ExplicitParams → Store → List Adjustment
chosen_adjustments p s = filter (λ a. includes (adjustment_ids p.targets) a.id) s.adjustments

abbrev pub batch_ok : ℕ → Option ChargeBatch → Bool
batch_ok building_id none = false
batch_ok building_id (some b) = b.building_id == building_id && is_live b.status

abbrev pub item_foreign : ExplicitParams → Store → ChargeItem → Bool
item_foreign p s i =
    not (i.unit_id == p.unit_id) || not (batch_ok p.building_id (find_batch i.batch_id s))

abbrev pub adjustment_foreign : ExplicitParams → Adjustment → Bool
adjustment_foreign p a = not (a.unit_id == p.unit_id) || not (a.building_id == p.building_id)

abbrev pub item_closed : Store → ChargeItem → Bool
item_closed s i = leb i.amount i.paid_amount || is_reserved (to_item i.id) s

abbrev pub adjustment_closed : Store → Adjustment → Bool
adjustment_closed s a = leb (pos_part a.amount) a.paid_amount || is_reserved (to_adjustment a.id) s

abbrev pub is_monthly : Option ChargeKind → Bool
is_monthly none = false
is_monthly (some monthly) = true
is_monthly (some _) = false

abbrev pub monthly_series : Option ChargeBatch → Option ℕ
monthly_series none = none
monthly_series (some b) = if is_monthly b.kind then b.series_id else none

abbrev pub in_series : ℕ → ℕ → Store → ChargeItem → Bool
in_series unit_id series s i =
    i.unit_id == unit_id
    && not (is_paid i.status)
    && same (monthly_series (find_batch i.batch_id s)) (some series)
    && batch_live (find_batch i.batch_id s)

abbrev period_of : Option ChargeBatch → Option ℕ
period_of none = none
period_of (some b) = b.period_start

abbrev pub period_before : Store → ChargeItem → ChargeItem → Bool
period_before s a b =
    date_before (period_of (find_batch a.batch_id s)) (period_of (find_batch b.batch_id s))

-- `slice(0, n)`
abbrev pub take {ℓ} : {A : Type ℓ} → ℕ → List A → List A
take zero xs = []
take (suc n) [] = []
take (suc n) (x ∷ xs) = x ∷ take n xs

-- The selected ones are the oldest of the series.
unfoldable pub has_gap : List ℕ → List ChargeItem → Bool
has_gap chosen outstanding =
    let count = length (filter (λ i. includes chosen i.id) outstanding) in
    any (λ i. not (includes chosen i.id)) (take count outstanding)

abbrev pub outstanding_series : ℕ → ℕ → Store → List ChargeItem
outstanding_series unit_id series s =
    sort (period_before s) (filter (in_series unit_id series s) s.items)

abbrev pub ids_of : List ChargeItem → List ℕ
ids_of = map ChargeItem.id

-- The check of each monthly series; a series that several items share is checked once for each.
abbrev pub gap_in : ℕ → Store → List ℕ → Option ℕ → Bool
gap_in unit_id s chosen none = false
gap_in unit_id s chosen (some series) = has_gap chosen (outstanding_series unit_id series s)

unfoldable pub series_gap : ℕ → Store → List ℕ → List ChargeItem → Bool
unfolding has_gap
series_gap unit_id s chosen [] = false
series_gap unit_id s chosen (i ∷ rest) =
    gap_in unit_id s chosen (monthly_series (find_batch i.batch_id s))
    || series_gap unit_id s chosen rest

abbrev batch_fund : Option ChargeBatch → ℕ
batch_fund none = 0
batch_fund (some b) = b.fund_id

abbrev pub fund_ids : Store → List ChargeItem → List Adjustment → List ℕ
fund_ids s items adjustments =
    map (λ i. batch_fund (find_batch i.batch_id s)) items ++ map Adjustment.fund_id adjustments

-- The one fund of a set of ids that has exactly one.
unfoldable pub single : List ℕ → Option ℕ
single [] = none
single (id ∷ rest) = if any (λ x. not (x == id)) rest then none else some id

abbrev pub fund_active : Option Fund → Bool
fund_active none = false
fund_active (some f) = f.is_active

abbrev pub select_item : ℕ → ChargeItem → DebtSelection
select_item payment_id i = record {
  payment_id = payment_id;
  target = to_item i.id;
  selected_amount = i.amount - i.paid_amount;
  reservation_state = active;
}

abbrev pub select_adjustment : ℕ → Adjustment → DebtSelection
select_adjustment payment_id a = record {
  payment_id = payment_id;
  target = to_adjustment a.id;
  selected_amount = pos_part a.amount - a.paid_amount;
  reservation_state = active;
}

abbrev pub select_all : ℕ → List ChargeItem → List Adjustment → List DebtSelection
select_all payment_id items adjustments =
    map (select_item payment_id) items ++ map (select_adjustment payment_id) adjustments

abbrev pub explicit_payment : ExplicitParams → ℕ → ℕ → Payment
explicit_payment p fund_id amount = record {
  id = p.payment_id;
  building_id = p.building_id;
  unit_id = p.unit_id;
  fund_id = fund_id;
  payer_id = p.payer_id;
  amount = amount;
  method = p.method;
  status = pending_approval;
  selection_mode = explicit_selection;
  idempotency_key = some p.idempotency_key;
  reference = p.reference;
  note = p.note;
}

abbrev pub add_selections : List DebtSelection → Store → Store
add_selections rows s = record s { selections = rows ++ s.selections }

unfoldable pub record_explicit :
    ExplicitParams → ℕ → List ChargeItem → List Adjustment → Store → Payment × Store
record_explicit p fund_id items adjustments s =
    let amount =
      sum_by (λ (i : ChargeItem). i.amount - i.paid_amount) items
      + sum_by (λ (a : Adjustment). pos_part a.amount - a.paid_amount) adjustments in
    let payment = explicit_payment p fund_id amount in
    (payment, add_selections (select_all p.payment_id items adjustments) (add_payment payment s))

unfoldable pub select_obligations :
    ExplicitParams → List ChargeItem → List Adjustment → Store → Result (Payment × Store)
select_obligations p items adjustments s = do
  guard
      (length items == length (item_ids p.targets)
        && length adjustments == length (adjustment_ids p.targets))
      business_rule
  forbid (any (item_foreign p s) items || any (adjustment_foreign p) adjustments) business_rule
  forbid (any (item_closed s) items || any (adjustment_closed s) adjustments) conflict
  forbid (series_gap p.unit_id s (ids_of items) items) business_rule
  fund_id ← expect (single (fund_ids s items adjustments)) business_rule
  guard (fund_active (find_fund fund_id s)) business_rule
  ok (record_explicit p fund_id items adjustments s)

unfoldable pub create_explicit_payment : ExplicitParams → Store → Result (Payment × Store)
unfolding select_obligations
create_explicit_payment p s =
    elim (find_by_key p.payer_id p.building_id p.idempotency_key s.payments) [
      | some e ↦ guard (is_replay p e s) conflict >> ok (e, s)
      | none ↦ select_obligations p (chosen_items p s) (chosen_adjustments p s) s
    ]
