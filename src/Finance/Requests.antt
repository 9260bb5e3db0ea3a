-- ===== src/Finance/Requests.antt =====
-- finance.repository.ts, `createPayment`: a payment that a payer reports, under an idempotency key and
-- the ceiling of what the unit may still pay.
pub mod Ceiling
use vielhome_backend.Base.{
  ℕ, Bool, ◌&&◌, Option, none, some, List, [], ◌∷◌, ◌==◌, ltb, same, if◌then◌else◌,
}
use vielhome_backend.Base.Result.{Result, ok, business_rule, conflict, forbid, guard, ◌>>◌}
use vielhome_backend.Finance.Schema.{pending_approval, legacy_automatic, Payment, Store}
use vielhome_backend.Finance.Debt.{compute_debt_snapshot}

pub record PaymentParams : Type 0 where
  pub payment_id : ℕ
  pub building_id : ℕ
  pub unit_id : ℕ
  pub fund_id : ℕ
  pub payer_id : ℕ
  pub amount : ℕ
  pub method : ℕ
  pub idempotency_key : ℕ
  pub reference : Option ℕ
  pub note : Option ℕ
  pub is_manual_amount : Bool

abbrev pub has_key : ℕ → ℕ → ℕ → Payment → Bool
has_key payer_id building_id key p =
    p.payer_id == payer_id && p.building_id == building_id && same p.idempotency_key (some key)

-- `findFirst({ where: { payerId, buildingId, idempotencyKey } })`
unfoldable pub find_by_key : ℕ → ℕ → ℕ → List Payment → Option Payment
find_by_key payer_id building_id key [] = none
find_by_key payer_id building_id key (p ∷ rest) =
    if has_key payer_id building_id key p then some p else find_by_key payer_id building_id key rest

abbrev pub is_same_request : PaymentParams → Payment → Bool
is_same_request p e =
    e.unit_id == p.unit_id
    && e.fund_id == p.fund_id
    && e.amount == p.amount
    && e.method == p.method
    && same e.reference p.reference
    && same e.note p.note

abbrev pub new_payment : PaymentParams → Payment
new_payment p = record {
  id = p.payment_id;
  building_id = p.building_id;
  unit_id = p.unit_id;
  fund_id = p.fund_id;
  payer_id = p.payer_id;
  amount = p.amount;
  method = p.method;
  status = pending_approval;
  selection_mode = legacy_automatic;
  idempotency_key = some p.idempotency_key;
  reference = p.reference;
  note = p.note;
}

abbrev pub add_payment : Payment → Store → Store
add_payment p s = record s { payments = p ∷ s.payments }

-- The ceiling; an amount that the payer entered by hand is exempt.
unfoldable pub check_ceiling : PaymentParams → Store → Result (Unit {0})
check_ceiling p s =
    if p.is_manual_amount
    then ok tt
    else forbid (ltb (compute_debt_snapshot p.unit_id s).remaining_payable p.amount) business_rule

unfoldable pub report_payment : PaymentParams → Store → Result (Payment × Store)
unfolding check_ceiling
report_payment p s = do check_ceiling p s; ok (new_payment p, add_payment (new_payment p) s)

unfoldable pub create_payment : PaymentParams → Store → Result (Payment × Store)
unfolding report_payment
create_payment p s = elim (find_by_key p.payer_id p.building_id p.idempotency_key s.payments) [
  | some e ↦ guard (is_same_request p e) conflict >> ok (e, s)
  | none ↦ report_payment p s
]
