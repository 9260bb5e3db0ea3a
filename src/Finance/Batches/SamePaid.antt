-- ===== src/Finance/Batches/SamePaid.antt =====
-- The loops of an issue: that the rows read before them stand for the rows of the table.
use vielhome_backend.Base.{
  ℕ, ◌+◌, ◌≡◌, refl, ◌∙◌, inl, inr, some, List, [], ◌∷◌, arith, ◌==◌, sum_by, false, Bool-cases,
  All,
}
use vielhome_backend.Base.Table.{find, update, find-update, Unused}
use vielhome_backend.Finance.Schema.{ChargeItem, Store}
use vielhome_backend.Finance.Store.{pay_row}
use vielhome_backend.Finance.Payments.Places.{settled}
use vielhome_backend.Finance.Batches.{write_payers, payer_row, PayerResolution, use_credit}

-- The rows that the loop goes over have the payments and the units that the table has.
abbrev pub SamePaid : List ChargeItem → List ChargeItem → Type 0
SamePaid rows items =
    All
      (λ (i : ChargeItem).
        (x : ChargeItem) × (find ChargeItem.id i.id items ≡ some x)
        × (x.paid_amount ≡ i.paid_amount)
        × (x.unit_id ≡ i.unit_id))
      rows

pub SamePaid-other :
    (k : ℕ) (f : ChargeItem → ChargeItem) (rows items : List ChargeItem)
    → ((y : ChargeItem) → (f y).id ≡ y.id)
    → Unused ChargeItem.id k rows
    → SamePaid rows items
    → SamePaid rows (update ChargeItem.id k f items)
SamePaid-other k f [] items e u h = tt
SamePaid-other k f (i ∷ rest) items e (other, u) ((x, found, same, same_unit), h) =
    let missed : k == i.id ≡ false = ground arith in
    (
      (x, rw (find-update ChargeItem.id k i.id f items e, missed) found, same, same_unit),
      SamePaid-other k f rest items e u h,
    )

pub SamePaid-payers :
    (k : ℕ) (f : ChargeItem → ChargeItem) (rows items : List ChargeItem)
    → ((y : ChargeItem) → (f y).id ≡ y.id)
    → ((y : ChargeItem) → (f y).paid_amount ≡ y.paid_amount)
    → ((y : ChargeItem) → (f y).unit_id ≡ y.unit_id)
    → SamePaid rows items
    → SamePaid rows (update ChargeItem.id k f items)
SamePaid-payers k f [] items e g g' h = tt
SamePaid-payers k f (i ∷ rest) items e g g' ((x, found, same, same_unit), h) = (
  elim (Bool-cases (k == i.id)) [
    | inl hit ↦ (
      f x,
      rw (find-update ChargeItem.id k i.id f items e, hit, found) refl,
      g x ∙ same,
      g' x ∙ same_unit,
    )
    | inr miss ↦ (x, rw (find-update ChargeItem.id k i.id f items e, miss) found, same, same_unit)
  ],
  SamePaid-payers k f rest items e g g' h,
)

pub sum_by-unchanged :
    (g : ChargeItem → ℕ) (k : ℕ) (f : ChargeItem → ChargeItem) (t : List ChargeItem)
    → ((x : ChargeItem) → g (f x) ≡ g x)
    → sum_by g (update ChargeItem.id k f t) ≡ sum_by g t
unfolding update
sum_by-unchanged g k f [] e = refl
sum_by-unchanged g k f (x ∷ t) e = ground (arith, e x, sum_by-unchanged g k f t e)

-- The payers are written beside the money.
pub write_payers-settled :
    (rows : List PayerResolution) (s : Store) → settled (write_payers rows s) ≡ settled s
unfolding write_payers
write_payers-settled [] s = refl
write_payers-settled (r ∷ rest) s =
    write_payers-settled rest _
    ∙ rw
        (sum_by-unchanged ChargeItem.paid_amount r.item_id (payer_row r.payer_type) s.items
          (λ y. refl))
        refl

pub write_payers-SamePaid :
    (rows : List PayerResolution) (items : List ChargeItem) (s : Store)
    → SamePaid items s.items
    → SamePaid items (write_payers rows s).items
unfolding write_payers
write_payers-SamePaid [] items s h = h
write_payers-SamePaid (r ∷ rest) items s h = write_payers-SamePaid rest items _ (
    SamePaid-payers r.item_id (payer_row r.payer_type) items s.items (λ y. refl) (λ y. refl)
      (λ y. refl) h)

pub use_credit-SamePaid :
    (fund_id : ℕ) (i : ChargeItem) (m : ℕ) (rest : List ChargeItem) (s : Store)
    → Unused ChargeItem.id i.id rest
    → SamePaid rest s.items
    → SamePaid rest (use_credit fund_id i m s).items
unfolding use_credit
use_credit-SamePaid fund_id i m rest s u h =
    SamePaid-other i.id (pay_row (i.paid_amount + m)) rest s.items (λ y. refl) u h
