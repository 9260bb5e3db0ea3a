-- ===== src/Finance/Explicit/Total.antt =====
-- What a payment of selected obligations amounts to.
use vielhome_backend.Base.{
  ℕ, ◌+◌, ◌-◌, ◌≡◌, refl, none, List, [], ◌∷◌, ◌++◌, map, arith, sum_by, sum_by-append, inl, inr,
  Option-cases,
}
use vielhome_backend.Base.Int.{pos_part}
use vielhome_backend.Base.Result.{ok}
use vielhome_backend.Finance.Schema.{ChargeItem, Adjustment, Payment, DebtSelection, Store}
use vielhome_backend.Finance.Requests.{find_by_key}
use vielhome_backend.Finance.Explicit.{
  ExplicitParams, fund_ids, single, chosen_items, chosen_adjustments, select_item,
  select_adjustment, select_all, record_explicit, select_obligations, create_explicit_payment,
}

items_total :
    (id : ℕ) (items : List ChargeItem)
    → sum_by DebtSelection.selected_amount (map (select_item id) items)
      ≡ sum_by (λ (i : ChargeItem). i.amount - i.paid_amount) items
items_total id [] = refl
items_total id (i ∷ rest) = omega (arith, items_total id rest)

adjustments_total :
    (id : ℕ) (rows : List Adjustment)
    → sum_by DebtSelection.selected_amount (map (select_adjustment id) rows)
      ≡ sum_by (λ (a : Adjustment). pos_part a.amount - a.paid_amount) rows
adjustments_total id [] = refl
adjustments_total id (a ∷ rest) = omega (arith, adjustments_total id rest)

-- What is reserved by a payment that chooses its debts under a new key is one selection for each debt,
-- in front of the earlier ones, and the selections add up to the amount of the payment.
pub create_explicit_payment_total :
    (p : ExplicitParams) (s : Store) {q : Payment} {t : Store}
    → find_by_key p.payer_id p.building_id p.idempotency_key s.payments ≡ none
    → create_explicit_payment p s ≡ ok (q, t)
    → (t.selections
        ≡ select_all p.payment_id (chosen_items p s) (chosen_adjustments p s) ++ s.selections)
      × (sum_by DebtSelection.selected_amount
            (select_all p.payment_id (chosen_items p s) (chosen_adjustments p s))
          ≡ q.amount)
unfolding create_explicit_payment select_obligations record_explicit
create_explicit_payment_total p s {q} {t} fresh e =
    elim (Option-cases (single (fund_ids s (chosen_items p s) (chosen_adjustments p s)))) [
      | inl none_found ↦ ground arith
      | inr (fund_id, found) ↦
          let items = chosen_items p s in
          let adjustments = chosen_adjustments p s in
          let money : q.amount
              ≡ sum_by (λ (i : ChargeItem). i.amount - i.paid_amount) items
                + sum_by (λ (a : Adjustment). pos_part a.amount - a.paid_amount) adjustments =
            ground arith in
          let rows : t.selections ≡ select_all p.payment_id items adjustments ++ s.selections =
            ground arith in
          (
            rows,
            omega (
              arith,
              money,
              sum_by-append DebtSelection.selected_amount (map (select_item p.payment_id) items)
                  (map (select_adjustment p.payment_id) adjustments),
              items_total p.payment_id items,
              adjustments_total p.payment_id adjustments,
            ),
          )
    ]
