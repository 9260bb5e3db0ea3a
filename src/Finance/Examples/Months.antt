-- ===== src/Finance/Examples/Months.antt =====
-- Two months of one series, and a payment that chooses both.
use vielhome_backend.Base.{
  ℕ, ◌+◌, ◌≡◌, refl, none, some, [], ◌∷◌, ◌++◌, true, All, includes, sum_by,
}
use vielhome_backend.Base.Table.{find}
use vielhome_backend.Query.{sort, insert}
use vielhome_backend.Finance.Schema.{monthly, unpaid, to_item, DebtSelection, ChargeItem, Store}
use vielhome_backend.Finance.Batches.{BatchParams, create_batch, IssueParams, issue_batch}
use vielhome_backend.Finance.Requests.{find_by_key}
use vielhome_backend.Finance.Explicit.{
  ExplicitParams, has_gap, series_gap, single, record_explicit, select_obligations,
  create_explicit_payment, chosen_items, chosen_adjustments, select_all, ids_of,
}
use vielhome_backend.Finance.Explicit.Order.{create_explicit_payment_in_order}
use vielhome_backend.Finance.Explicit.Total.{create_explicit_payment_total}
use vielhome_backend.Finance.Examples.{or_empty, paid_in, funded, trace, batch_params}

abbrev month : ℕ → ℕ → BatchParams
month id period = record batch_params {
  batch_id = id;
  kind = some monthly;
  series_id = some 9;
  period_start = some period;
  items = record { id = id + 100; unit_id = 7; amount = 60 } ∷ [];
}

abbrev issue : ℕ → IssueParams
issue id = record { batch_id = id; building_id = 5; payers = [] }

abbrev two_months : Store
two_months = or_empty (
    issue_batch (issue 2) (
      or_empty (
        create_batch (month 2 20)
          (or_empty (issue_batch (issue 1) (or_empty (create_batch (month 1 10) funded)))))))

abbrev chosen_params : ExplicitParams
chosen_params = record {
  payment_id = 50;
  building_id = 5;
  unit_id = 7;
  payer_id = 9;
  method = 0;
  idempotency_key = 3;
  reference = none;
  note = none;
  targets = to_item 102 ∷ to_item 101 ∷ [];
}

abbrev first_month : ChargeItem
first_month = record {
  id = 101;
  batch_id = 1;
  unit_id = 7;
  amount = 60;
  paid_amount = 0;
  status = unpaid;
  resolved_payer_type = none;
  created_at = 10;
}

abbrev second_month : ChargeItem
second_month = record first_month { id = 102; batch_id = 2 }

create_explicit_payment_in_order_example :
    All
      (λ y. includes (ids_of (chosen_items chosen_params two_months)) y.id ≡ true)
      (first_month ∷ [])
unfolding trace find sort insert find_by_key create_explicit_payment select_obligations single
    series_gap has_gap record_explicit
create_explicit_payment_in_order_example =
    create_explicit_payment_in_order chosen_params two_months {series = 9} [] second_month
      (first_month ∷ []) (first_month ∷ []) second_month [] refl refl refl refl refl refl

abbrev selected : Store
selected = paid_in (create_explicit_payment chosen_params two_months)

create_explicit_payment_total_example :
    (selected.selections
      ≡ select_all 50
          (chosen_items chosen_params two_months)
          (chosen_adjustments chosen_params two_months)
        ++ two_months.selections)
    × (sum_by DebtSelection.selected_amount (
          select_all 50
            (chosen_items chosen_params two_months)
            (chosen_adjustments chosen_params two_months))
        ≡ 120)
unfolding trace find sort insert find_by_key create_explicit_payment select_obligations single
    series_gap has_gap record_explicit
create_explicit_payment_total_example =
    create_explicit_payment_total chosen_params two_months refl refl
