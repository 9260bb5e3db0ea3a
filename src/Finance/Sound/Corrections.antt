-- ===== src/Finance/Sound/Corrections.antt =====
-- Adjustments and opening balances keep the rows sound.
use vielhome_backend.Base.{ℕ, ◌≡◌, refl, inl, inr, not, ◌&&◌, arith, ◌==◌, Bool-cases}
use vielhome_backend.Base.Int.{ℤ, abs, ◌-ℤ◌}
use vielhome_backend.Base.Result.{ok}
use vielhome_backend.Base.Table.{Unused}
use vielhome_backend.Query.{query-Current}
use vielhome_backend.Finance.Schema.{ChargeItem, Adjustment, Store}
use vielhome_backend.Finance.Store.{
  is_outstanding, due_before, is_positive, created_before, outstanding_items,
}
use vielhome_backend.Finance.Adjustments.{
  AdjustmentParams, create_adjustment, waive, waive_items, is_negative, is_correction,
  add_adjustment, new_adjustment, post_adjustment, CorrectionParams, correct_opening_balance,
  waive_corrections, settle_correction, bank_waiver, prior_corrections, correction_row,
  opening_balance,
}
use vielhome_backend.Finance.Sound.{IsSound}
use vielhome_backend.Finance.Sound.Loops.{
  apply_items-ItemsSound, apply_adjustments-AdjustmentsSound, waive_items-apply_items,
  waive_items-adjustments, waive_corrections-apply_adjustments, waive_corrections-items,
}
use vielhome_backend.Finance.Sound.Settlements.{upsert_credit-IsSound}

-- The database gives a new adjustment an id that none has.
abbrev pub IsFreshAdjustment : ℕ → Store → Type 0
IsFreshAdjustment id s = Unused Adjustment.id id s.adjustments

add_adjustment-IsSound :
    (a : Adjustment) (s : Store)
    → IsFreshAdjustment a.id s
    → a.paid_amount ≡ 0
    → IsSound s
    → IsSound (add_adjustment a s)
add_adjustment-IsSound a s fresh e h = record {
  items = h.items;
  adjustments = record {
    keyed = (fresh, h.adjustments.keyed);
    rows = (omega arith, h.adjustments.rows);
  };
}

waive_items-IsSound :
    (unit_id n : ℕ) (s : Store)
    → IsSound s
    → IsSound (waive_items n (outstanding_items unit_id s) s).0
unfolding outstanding_items
waive_items-IsSound unit_id n s h = record {
  items = rw (waive_items-apply_items 0 n (outstanding_items unit_id s) s s refl) (
      apply_items-ItemsSound 0 n (outstanding_items unit_id s) s
        (query-Current ChargeItem.id (is_outstanding unit_id s) (due_before s) s.items
          h.items.keyed)
        h.items);
  adjustments = rw (waive_items-adjustments n (outstanding_items unit_id s) s) h.adjustments;
}

waive-IsSound :
    (unit_id : ℕ) (amount : ℤ) (s : Store) → IsSound s → IsSound (waive unit_id amount s)
unfolding waive
waive-IsSound unit_id amount s h = elim (Bool-cases (is_negative amount)) [
  | inl down ↦ rw down (waive_items-IsSound unit_id (abs amount) s h)
  | inr up ↦ rw up h
]

-- An adjustment, a late fee or a waiver, keeps the rows sound.
pub create_adjustment-IsSound :
    (p : AdjustmentParams) (s : Store) {t : Store}
    → IsFreshAdjustment p.adjustment_id s
    → IsSound s
    → create_adjustment p s ≡ ok t
    → IsSound t
unfolding create_adjustment
create_adjustment-IsSound p s {t} fresh h e =
    let added = add_adjustment (new_adjustment p) s in
    let done : post_adjustment p.adjustment_id p.fund_id p.amount (waive p.unit_id p.amount added)
        ≡ t =
      ground arith in
    let sound =
      waive-IsSound p.unit_id p.amount added
        (add_adjustment-IsSound (new_adjustment p) s fresh refl h) in
    rw (← done) (record { items = sound.items; adjustments = sound.adjustments })

bank_waiver-IsSound : (unit_id n : ℕ) (s : Store) → IsSound s → IsSound (bank_waiver unit_id (s, n))
bank_waiver-IsSound unit_id n s h = elim (Bool-cases (n == 0)) [
  | inl done ↦ rw done h
  | inr more ↦ rw more (upsert_credit-IsSound unit_id n s h)
]

waive_corrections-IsSound :
    (p : CorrectionParams) (n : ℕ) (s : Store)
    → IsSound s
    → IsSound (waive_corrections n (prior_corrections p s) s).0
waive_corrections-IsSound p n s h = record {
  items = rw (waive_corrections-items n (prior_corrections p s) s) h.items;
  adjustments = rw (waive_corrections-apply_adjustments 0 n (prior_corrections p s) s s refl) (
      apply_adjustments-AdjustmentsSound 0 n (prior_corrections p s) s
        (query-Current Adjustment.id
          (λ a. is_correction p.unit_id a && is_positive a.amount && not (a.id == p.adjustment_id))
          created_before s.adjustments h.adjustments.keyed)
        h.adjustments);
}

settle_correction-IsSound :
    (p : CorrectionParams) (delta : ℤ) (s : Store)
    → IsSound s
    → IsSound (settle_correction p delta s)
unfolding settle_correction
settle_correction-IsSound p delta s h = elim (Bool-cases (is_negative delta)) [
  | inl down ↦
      let (t, left) = waive_corrections (abs delta) (prior_corrections p s) s in
      rw down (bank_waiver-IsSound p.unit_id left t (waive_corrections-IsSound p (abs delta) s h))
  | inr up ↦ rw up h
]

-- A correction of an opening balance keeps the rows sound.
pub correct_opening_balance-IsSound :
    (p : CorrectionParams) (s : Store) {t : Store}
    → IsFreshAdjustment p.adjustment_id s
    → IsSound s
    → correct_opening_balance p s ≡ ok t
    → IsSound t
unfolding correct_opening_balance
correct_opening_balance-IsSound p s {t} fresh h e =
    let delta = p.target_balance -ℤ opening_balance p.unit_id s in
    let added = add_adjustment (correction_row p delta) s in
    let done : post_adjustment p.adjustment_id p.fund_id delta (settle_correction p delta added)
        ≡ t =
      ground arith in
    let sound =
      settle_correction-IsSound p delta added
        (add_adjustment-IsSound (correction_row p delta) s fresh refl h) in
    rw (← done) (record { items = sound.items; adjustments = sound.adjustments })
