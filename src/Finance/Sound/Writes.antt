-- ===== src/Finance/Sound/Writes.antt =====
-- Single writes keep the rows sound.
use vielhome_backend.Base.{ℕ, ◌-◌, ◌≤◌, ◌≡◌, refl, some, List, arith}
use vielhome_backend.Base.Int.{pos_part}
use vielhome_backend.Base.Table.{find, update, All-update}
use vielhome_backend.Query.{update-Keyed, find-All}
use vielhome_backend.Finance.Schema.{ChargeItem, Adjustment}
use vielhome_backend.Finance.Store.{pay_row, pay_adjustment_row}
use vielhome_backend.Finance.Sound.{ItemSound, ItemsSound, AdjustmentSound, AdjustmentsSound}

pub pay_row-ItemsSound :
    (id n : ℕ) (items : List ChargeItem) {i : ChargeItem}
    → ItemsSound items
    → find ChargeItem.id id items ≡ some i
    → n ≤ i.amount
    → ItemsSound (update ChargeItem.id id (pay_row n) items)
pay_row-ItemsSound id n items {i} h found le = record {
  keyed = update-Keyed ChargeItem.id id (pay_row n) items (λ y. refl) h.keyed;
  rows =
      All-update ChargeItem.id ItemSound id (pay_row n) items (λ x at ok. (ground arith, refl))
        h.rows;
}

pub pay_row-AdjustmentsSound :
    (id n : ℕ) (rows : List Adjustment) {a : Adjustment}
    → AdjustmentsSound rows
    → find Adjustment.id id rows ≡ some a
    → n ≤ pos_part a.amount
    → AdjustmentsSound (update Adjustment.id id (pay_adjustment_row n) rows)
pay_row-AdjustmentsSound id n rows {a} h found le = record {
  keyed = update-Keyed Adjustment.id id (pay_adjustment_row n) rows (λ y. refl) h.keyed;
  rows =
      All-update Adjustment.id AdjustmentSound id (pay_adjustment_row n) rows
        (λ x at ok. ground arith) h.rows;
}

-- Taking a payment back.
pub take_back-ItemsSound :
    (id n : ℕ) (items : List ChargeItem) {i : ChargeItem}
    → ItemsSound items
    → find ChargeItem.id id items ≡ some i
    → ItemsSound (update ChargeItem.id id (pay_row (i.paid_amount - n)) items)
take_back-ItemsSound id n items {i} h found =
    let row = find-All ChargeItem.id ItemSound id items h.rows found in
    pay_row-ItemsSound id (i.paid_amount - n) items h found (omega arith)

pub take_back-AdjustmentsSound :
    (id n : ℕ) (rows : List Adjustment) {a : Adjustment}
    → AdjustmentsSound rows
    → find Adjustment.id id rows ≡ some a
    → AdjustmentsSound (update Adjustment.id id (pay_adjustment_row (a.paid_amount - n)) rows)
take_back-AdjustmentsSound id n rows {a} h found =
    let row = find-All Adjustment.id AdjustmentSound id rows h.rows found in
    pay_row-AdjustmentsSound id (a.paid_amount - n) rows h found (omega arith)
