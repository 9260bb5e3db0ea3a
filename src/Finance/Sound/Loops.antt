-- ===== src/Finance/Sound/Loops.antt =====
-- The loops of approvals, waivers, reversals and issues keep the rows sound.
use vielhome_backend.Base.{
  ℕ, ◌+◌, ◌-◌, ◌≤◌, min, ◌≡◌, refl, inl, inr, Option, none, some, List, [], ◌∷◌, arith, ◌==◌,
  Bool-cases, ap,
}
use vielhome_backend.Base.Int.{pos_part}
use vielhome_backend.Base.Result.{ok, unexpected, expect-eq-ok, >>=-eq-ok, ok-injective}
use vielhome_backend.Base.Table.{update, find-key}
use vielhome_backend.Query.{Current, Current-update, Current-tail}
use vielhome_backend.Finance.Schema.{
  ChargeItem, Adjustment, DebtSelection, Allocation, Target, to_item, to_adjustment, Store,
}
use vielhome_backend.Finance.Store.{
  pay_row, pay_adjustment_row, find_item, find_adjustment, write_item, write_adjustment,
}
use vielhome_backend.Finance.Payments.{
  ApproveParams, apply_items, apply_adjustments, pay_item, pay_adjustment, apply_target,
  apply_selections,
}
use vielhome_backend.Finance.Adjustments.{waive_items, waive_corrections}
use vielhome_backend.Finance.Reversals.{
  undo_item, undo_adjustment, undo_target, undo_allocation, undo_allocations,
}
use vielhome_backend.Finance.Sound.{ItemsSound, AdjustmentsSound, IsSound}
use vielhome_backend.Finance.Sound.Writes.{
  pay_row-ItemsSound, pay_row-AdjustmentsSound, take_back-ItemsSound, take_back-AdjustmentsSound,
}

pub apply_items-ItemsSound :
    (id n : ℕ) (rows : List ChargeItem) (s : Store)
    → Current ChargeItem.id rows s.items
    → ItemsSound s.items
    → ItemsSound (apply_items id n rows s).0.items
unfolding apply_items
apply_items-ItemsSound id n [] s c h = h
apply_items-ItemsSound id n (i ∷ rest) s c h = elim (Bool-cases (n == 0)) [
  | inl done ↦ rw done h
  | inr more ↦ elim (Bool-cases (i.amount - i.paid_amount == 0)) [
    | inl full ↦
        rw (more, full)
          (apply_items-ItemsSound id n rest s (Current-tail ChargeItem.id i rest s.items c) h)
    | inr open_debt ↦
        rw (more, open_debt)
          (apply_items-ItemsSound id (n - m) rest (pay_item id i m s)
            (Current-update ChargeItem.id i rest s.items (pay_row (i.paid_amount + m)) (λ y. refl)
              c)
            (pay_row-ItemsSound i.id (i.paid_amount + m) s.items h c.held.0 (ground arith)))
  ]
]
  where
    m : ℕ
    m = min n (i.amount - i.paid_amount)

pub apply_adjustments-AdjustmentsSound :
    (id n : ℕ) (rows : List Adjustment) (s : Store)
    → Current Adjustment.id rows s.adjustments
    → AdjustmentsSound s.adjustments
    → AdjustmentsSound (apply_adjustments id n rows s).0.adjustments
unfolding apply_adjustments
apply_adjustments-AdjustmentsSound id n [] s c h = h
apply_adjustments-AdjustmentsSound id n (a ∷ rest) s c h = elim (Bool-cases (n == 0)) [
  | inl done ↦ rw done h
  | inr more ↦ elim (Bool-cases (pos_part a.amount - a.paid_amount == 0)) [
    | inl full ↦
        rw (more, full)
          (apply_adjustments-AdjustmentsSound id n rest s
            (Current-tail Adjustment.id a rest s.adjustments c) h)
    | inr open_debt ↦
        rw (more, open_debt)
          (apply_adjustments-AdjustmentsSound id (n - m) rest (pay_adjustment id a m s)
            (Current-update Adjustment.id a rest s.adjustments
              (pay_adjustment_row (a.paid_amount + m)) (λ y. refl) c)
            (pay_row-AdjustmentsSound a.id (a.paid_amount + m) s.adjustments h c.held.0
              (ground arith)))
  ]
]
  where
    m : ℕ
    m = min n (pos_part a.amount - a.paid_amount)

-- A waiver changes the items as a payment does, and nothing else.
pub waive_items-apply_items :
    (id n : ℕ) (rows : List ChargeItem) (s t : Store)
    → s.items ≡ t.items
    → (waive_items n rows s).0.items ≡ (apply_items id n rows t).0.items
unfolding waive_items apply_items
waive_items-apply_items id n [] s t e = e
waive_items-apply_items id n (i ∷ rest) s t e = ground (
  arith,
  waive_items-apply_items id n rest s t e,
  waive_items-apply_items id (n - m) rest (write_item i.id (i.paid_amount + m) s)
      (pay_item id i m t) (ap (update ChargeItem.id i.id (pay_row (i.paid_amount + m))) e),
)
  where
    m : ℕ
    m = min n (i.amount - i.paid_amount)

pub waive_items-adjustments :
    (n : ℕ) (rows : List ChargeItem) (s : Store)
    → (waive_items n rows s).0.adjustments ≡ s.adjustments
unfolding waive_items
waive_items-adjustments n [] s = refl
waive_items-adjustments n (i ∷ rest) s = ground (
  arith,
  waive_items-adjustments n rest s,
  waive_items-adjustments (n - m) rest (write_item i.id (i.paid_amount + m) s),
)
  where
    m : ℕ
    m = min n (i.amount - i.paid_amount)

pub waive_corrections-apply_adjustments :
    (id n : ℕ) (rows : List Adjustment) (s t : Store)
    → s.adjustments ≡ t.adjustments
    → (waive_corrections n rows s).0.adjustments ≡ (apply_adjustments id n rows t).0.adjustments
unfolding waive_corrections apply_adjustments
waive_corrections-apply_adjustments id n [] s t e = e
waive_corrections-apply_adjustments id n (a ∷ rest) s t e = ground (
  arith,
  waive_corrections-apply_adjustments id n rest s t e,
  waive_corrections-apply_adjustments id (n - m) rest (write_adjustment a.id (a.paid_amount + m) s)
      (pay_adjustment id a m t)
      (ap (update Adjustment.id a.id (pay_adjustment_row (a.paid_amount + m))) e),
)
  where
    m : ℕ
    m = min n (pos_part a.amount - a.paid_amount)

pub waive_corrections-items :
    (n : ℕ) (rows : List Adjustment) (s : Store) → (waive_corrections n rows s).0.items ≡ s.items
unfolding waive_corrections
waive_corrections-items n [] s = refl
waive_corrections-items n (a ∷ rest) s = ground (
  arith,
  waive_corrections-items n rest s,
  waive_corrections-items (n - m) rest (write_adjustment a.id (a.paid_amount + m) s),
)
  where
    m : ℕ
    m = min n (pos_part a.amount - a.paid_amount)

pub apply_adjustments-items :
    (id n : ℕ) (rows : List Adjustment) (s : Store)
    → (apply_adjustments id n rows s).0.items ≡ s.items
unfolding apply_adjustments
apply_adjustments-items id n [] s = refl
apply_adjustments-items id n (a ∷ rest) s = ground (
  arith,
  apply_adjustments-items id n rest s,
  apply_adjustments-items id (n - m) rest (pay_adjustment id a m s),
)
  where
    m : ℕ
    m = min n (pos_part a.amount - a.paid_amount)

-- A selected obligation is paid in full, never beyond.
apply_target-IsSound :
    (p : ApproveParams) (x : Target) (n : ℕ) (s : Store) {t : Store}
    → IsSound s
    → apply_target p x n s ≡ ok t
    → IsSound t
unfolding apply_target
apply_target-IsSound p (to_item id) n s {t} h e =
    let (item, found, _) = expect-eq-ok (find_item id s) unexpected _ e in
    let at = find-key ChargeItem.id id s.items found in
    let done : t ≡ pay_item p.payment_id item n s = ground arith in
    let bound : item.paid_amount + n ≤ item.amount = ground arith in
    rw (done) (record {
      items = rw at (pay_row-ItemsSound id (item.paid_amount + n) s.items h.items found bound);
      adjustments = h.adjustments;
    })
apply_target-IsSound p (to_adjustment id) n s {t} h e =
    let (a, found, _) = expect-eq-ok (find_adjustment id s) unexpected _ e in
    let at = find-key Adjustment.id id s.adjustments found in
    let done : t ≡ pay_adjustment p.payment_id a n s = ground arith in
    let bound : a.paid_amount + n ≤ pos_part a.amount = ground arith in
    rw (done) (record {
      items = h.items;
      adjustments =
          rw at (
            pay_row-AdjustmentsSound id (a.paid_amount + n) s.adjustments h.adjustments found
              bound);
    })

pub apply_selections-IsSound :
    (p : ApproveParams) (rows : List DebtSelection) (s : Store) {t : Store}
    → IsSound s
    → apply_selections p rows s ≡ ok t
    → IsSound t
unfolding apply_selections
apply_selections-IsSound p [] s h e = rw (← ok-injective e) h
apply_selections-IsSound p (x ∷ rest) s h e =
    let (u, first, e') = >>=-eq-ok _ _ e in
    apply_selections-IsSound p rest u (apply_target-IsSound p x.target x.selected_amount s h first)
      e'

undo_item-IsSound :
    (n id : ℕ) (s : Store) (o : Option ChargeItem)
    → IsSound s
    → find_item id s ≡ o
    → IsSound (undo_item n o s)
undo_item-IsSound n id s none h found = h
undo_item-IsSound n id s (some i) h found = record {
  items =
      rw (find-key ChargeItem.id id s.items found)
        (take_back-ItemsSound id n s.items h.items found);
  adjustments = h.adjustments;
}

undo_adjustment-IsSound :
    (n id : ℕ) (s : Store) (o : Option Adjustment)
    → IsSound s
    → find_adjustment id s ≡ o
    → IsSound (undo_adjustment n o s)
undo_adjustment-IsSound n id s none h found = h
undo_adjustment-IsSound n id s (some a) h found = record {
  items = h.items;
  adjustments =
      rw (find-key Adjustment.id id s.adjustments found)
        (take_back-AdjustmentsSound id n s.adjustments h.adjustments found);
}

undo_target-IsSound : (n : ℕ) (x : Target) (s : Store) → IsSound s → IsSound (undo_target n x s)
undo_target-IsSound n (to_item id) s h = undo_item-IsSound n id s (find_item id s) h refl
undo_target-IsSound n (to_adjustment id) s h =
    undo_adjustment-IsSound n id s (find_adjustment id s) h refl

pub undo_allocations-IsSound :
    (rows : List Allocation) (s : Store) → IsSound s → IsSound (undo_allocations rows s)
unfolding undo_allocations undo_allocation
undo_allocations-IsSound [] s h = h
undo_allocations-IsSound (x ∷ rest) s h =
    undo_allocations-IsSound rest (undo_allocation x s) (undo_target-IsSound x.amount x.target s h)
