-- ===== src/Finance/Sound.antt =====
-- What holds of the rows of charge items and adjustments between two transactions.
pub mod Writes
pub mod Loops
pub mod Settlements
pub mod Corrections
pub mod Batches
pub mod Others
use vielhome_backend.Base.{ℕ, ◌≤◌, ◌≡◌, List, All}
use vielhome_backend.Base.Int.{pos_part}
use vielhome_backend.Base.Table.{Keyed}
use vielhome_backend.Finance.Schema.{ChargeItem, Adjustment, Store}
use vielhome_backend.Finance.Store.{compute_item_status}

-- No item is paid beyond its amount, and its status is the one of its amounts.
abbrev pub ItemSound : ChargeItem → Type 0
ItemSound i = (i.paid_amount ≤ i.amount) × (i.status ≡ compute_item_status i.paid_amount i.amount)

-- No adjustment is paid beyond the debt that it adds; a waiver is never paid.
abbrev pub AdjustmentSound : Adjustment → Type 0
AdjustmentSound a = a.paid_amount ≤ pos_part a.amount

pub record ItemsSound (items : List ChargeItem) : Type 0 where
  pub keyed : Keyed ChargeItem.id items
  pub rows : All ItemSound items

pub record AdjustmentsSound (adjustments : List Adjustment) : Type 0 where
  pub keyed : Keyed Adjustment.id adjustments
  pub rows : All AdjustmentSound adjustments

pub record IsSound (s : Store) : Type 0 where
  pub items : ItemsSound s.items
  pub adjustments : AdjustmentsSound s.adjustments
