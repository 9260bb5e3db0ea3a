-- ===== src/Finance/Reversals/Undo.antt =====
-- What taking allocation rows back does to the debts, and what it leaves alone.
use vielhome_backend.Base.{
  ℕ, ◌-◌, ◌≡◌, refl, subst, ◌∙◌, inl, inr, none, some, List, [], ◌∷◌, arith, ◌==◌, ==_iff, sum_by,
  filter, Bool-cases, Option-cases, if◌then◌else◌,
}
use vielhome_backend.Base.Table.{find-update, find-key}
use vielhome_backend.Finance.Schema.{
  Target, to_item, to_adjustment, ChargeItem, Adjustment, Allocation, Store,
}
use vielhome_backend.Finance.Store.{find_item, find_adjustment, pay_row, pay_adjustment_row}
use vielhome_backend.Finance.Payments.Targets.{paid_on, same_target, allocated_to}
use vielhome_backend.Finance.Reversals.{undo_target, undo_allocation, undo_allocations}

-- What some allocation rows say of a debt.
abbrev pub sum_to : Target → List Allocation → ℕ
sum_to x = sum_by (λ (a : Allocation). if same_target a.target x then a.amount else 0)

pub sum_to-allocations_of :
    (id : ℕ) (x : Target) (rows : List Allocation)
    → sum_to x (filter (λ (a : Allocation). a.payment_id == id) rows) ≡ allocated_to id x rows
sum_to-allocations_of id x [] = refl
sum_to-allocations_of id x (a ∷ rest) = elim (Bool-cases (a.payment_id == id)) [
  | inl e ↦ let later = sum_to-allocations_of id x rest in rw e (omega (arith, later))
  | inr e ↦ let later = sum_to-allocations_of id x rest in rw e (omega (arith, later))
]

-- Taking an amount back from a debt takes it from no other.
undo_target-paid_on :
    (n : ℕ) (from x : Target) (s : Store)
    → paid_on x (undo_target n from s) ≡ paid_on x s - (if same_target from x then n else 0)
undo_target-paid_on n (to_item i) (to_item j) s = elim (Option-cases (find_item i s)) [
  | inl missing ↦ elim (Bool-cases (i == j)) [
    | inl e ↦
        let here : find_item j s ≡ none =
          subst (λ k. find_item k s ≡ none) ((==_iff i j).0 e) missing in
        rw (missing, e, here) (omega arith)
    | inr e ↦ rw (missing, e) (omega arith)
  ]
  | inr (y, found) ↦
      let at : y.id ≡ i = find-key ChargeItem.id i s.items found in
      rw
        (found, at, find-update ChargeItem.id i j (pay_row (y.paid_amount - n)) s.items (λ z. refl))
        (elim (Bool-cases (i == j)) [
          | inl e ↦
              let here : find_item j s ≡ some y =
                subst (λ k. find_item k s ≡ some y) ((==_iff i j).0 e) found in
              rw (e, here) refl
          | inr e ↦ rw e (omega arith)
        ])
]
undo_target-paid_on n (to_item i) (to_adjustment j) s = elim (Option-cases (find_item i s)) [
  | inl missing ↦ rw missing (omega arith)
  | inr (y, found) ↦ rw found (omega arith)
]
undo_target-paid_on n (to_adjustment i) (to_item j) s = elim (Option-cases (find_adjustment i s)) [
  | inl missing ↦ rw missing (omega arith)
  | inr (y, found) ↦ rw found (omega arith)
]
undo_target-paid_on n (to_adjustment i) (to_adjustment j) s =
    elim (Option-cases (find_adjustment i s)) [
      | inl missing ↦ elim (Bool-cases (i == j)) [
        | inl e ↦
            let here : find_adjustment j s ≡ none =
              subst (λ k. find_adjustment k s ≡ none) ((==_iff i j).0 e) missing in
            rw (missing, e, here) (omega arith)
        | inr e ↦ rw (missing, e) (omega arith)
      ]
      | inr (y, found) ↦
          let at : y.id ≡ i = find-key Adjustment.id i s.adjustments found in
          rw
            (
              found,
              at,
              find-update Adjustment.id i j (pay_adjustment_row (y.paid_amount - n)) s.adjustments
                  (λ z. refl),
            )
            (elim (Bool-cases (i == j)) [
              | inl e ↦
                  let here : find_adjustment j s ≡ some y =
                    subst (λ k. find_adjustment k s ≡ some y) ((==_iff i j).0 e) found in
                  rw (e, here) refl
              | inr e ↦ rw e (omega arith)
            ])
    ]

pub undo_allocations-paid_on :
    (x : Target) (rows : List Allocation) (s : Store)
    → paid_on x (undo_allocations rows s) ≡ paid_on x s - sum_to x rows
unfolding undo_allocations undo_allocation
undo_allocations-paid_on x [] s = omega arith
undo_allocations-paid_on x (a ∷ rest) s =
    let later = undo_allocations-paid_on x rest (undo_allocation a s) in
    let first = undo_target-paid_on a.amount a.target x s in omega (arith, later, first)

undo_target-keeps :
    (n : ℕ) (x : Target) (s : Store)
    → ((undo_target n x s).payments ≡ s.payments) × ((undo_target n x s).funds ≡ s.funds)
undo_target-keeps n (to_item i) s = elim (Option-cases (find_item i s)) [
  | inl missing ↦ rw missing (refl, refl)
  | inr (y, found) ↦ rw found (refl, refl)
]
undo_target-keeps n (to_adjustment i) s = elim (Option-cases (find_adjustment i s)) [
  | inl missing ↦ rw missing (refl, refl)
  | inr (y, found) ↦ rw found (refl, refl)
]

pub undo_allocations-keeps :
    (rows : List Allocation) (s : Store)
    → ((undo_allocations rows s).payments ≡ s.payments)
      × ((undo_allocations rows s).funds ≡ s.funds)
unfolding undo_allocations undo_allocation
undo_allocations-keeps [] s = (refl, refl)
undo_allocations-keeps (a ∷ rest) s =
    let (payments, funds) = undo_allocations-keeps rest (undo_allocation a s) in
    let (payments', funds') = undo_target-keeps a.amount a.target s in
    (payments ∙ payments', funds ∙ funds')
