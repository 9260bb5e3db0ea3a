-- ===== src/Finance/Sound/Batches.antt =====
-- Creating and issuing a charge batch keeps the rows sound.
use vielhome_backend.Base.{
  ℕ, ◌+◌, ◌-◌, min, ◌≡◌, refl, inl, inr, ◌||◌, some, List, [], ◌∷◌, ◌++◌, map, arith, ◌==◌, All,
  All-append, All-map, Bool-cases, ◌∙◌,
}
use vielhome_backend.Base.Result.{ok}
use vielhome_backend.Base.Table.{find, update, Keyed, Unused, find-update, All-update}
use vielhome_backend.Query.{update-Keyed, append-Keyed, filter-held}
use vielhome_backend.Finance.Schema.{issued, PayerType, ChargeItem, Store}
use vielhome_backend.Finance.Store.{pay_row, find_credit}
use vielhome_backend.Finance.Batches.{
  issue_batch-record, NewItem, BatchParams, create_batch, new_item, IssueParams, issue_batch,
  record_issue, write_payers, payer_row, PayerResolution, apply_credits, use_credit, items_of,
  write_batch, credit_balance,
}
use vielhome_backend.Finance.Sound.{ItemSound, ItemsSound, IsSound}
use vielhome_backend.Finance.Sound.Writes.{pay_row-ItemsSound}

-- The database gives the new items ids of their own.
pub record IsFreshBatch (p : BatchParams) (s : Store) : Type 0 where
  pub distinct : Keyed ChargeItem.id (map (new_item p.batch_id p.created_at) p.items)
  pub unused :
      All
        (λ (i : ChargeItem). Unused ChargeItem.id i.id s.items)
        (map (new_item p.batch_id p.created_at) p.items)

new_items_sound :
    (batch_id created_at : ℕ) (rows : List NewItem)
    → All ItemSound (map (new_item batch_id created_at) rows)
new_items_sound batch_id created_at [] = tt
new_items_sound batch_id created_at (i ∷ rest) =
    ((omega arith, refl), new_items_sound batch_id created_at rest)

pub create_batch-IsSound :
    (p : BatchParams) (s : Store) {t : Store}
    → IsFreshBatch p s
    → IsSound s
    → create_batch p s ≡ ok t
    → IsSound t
unfolding create_batch
create_batch-IsSound p s {t} fresh h e =
    let added = map (new_item p.batch_id p.created_at) p.items in
    let same_items : t.items ≡ added ++ s.items = ground arith in
    let same_adjustments : t.adjustments ≡ s.adjustments = ground arith in
    record {
      items = rw same_items (record {
        keyed = append-Keyed ChargeItem.id added s.items fresh.distinct fresh.unused h.items.keyed;
        rows =
            All-append ItemSound added s.items (new_items_sound p.batch_id p.created_at p.items)
              h.items.rows;
      });
      adjustments = rw same_adjustments h.adjustments;
    }

-- The rows that the loop of an issue goes over have the amounts that the table has.
abbrev SameAmounts : List ChargeItem → List ChargeItem → Type 0
SameAmounts rows items =
    All
      (λ (i : ChargeItem).
        (x : ChargeItem) × (find ChargeItem.id i.id items ≡ some x) × (x.amount ≡ i.amount))
      rows

SameAmounts-update :
    (k : ℕ) (f : ChargeItem → ChargeItem) (rows items : List ChargeItem)
    → ((y : ChargeItem) → (f y).id ≡ y.id)
    → ((y : ChargeItem) → (f y).amount ≡ y.amount)
    → SameAmounts rows items
    → SameAmounts rows (update ChargeItem.id k f items)
SameAmounts-update k f [] items e g h = tt
SameAmounts-update k f (i ∷ rest) items e g ((x, found, same), h) = (
  elim (Bool-cases (k == i.id)) [
    | inl hit ↦ (f x, rw (find-update ChargeItem.id k i.id f items e, hit, found) refl, g x ∙ same)
    | inr miss ↦ (x, rw (find-update ChargeItem.id k i.id f items e, miss) found, same)
  ],
  SameAmounts-update k f rest items e g h,
)

held-SameAmounts :
    (rows items : List ChargeItem)
    → All (λ (i : ChargeItem). find ChargeItem.id i.id items ≡ some i) rows
    → SameAmounts rows items
held-SameAmounts rows items h = All-map _ _ rows (λ i found. (i, found, refl)) h

payer_row-ItemsSound :
    (id : ℕ) (t : PayerType) (items : List ChargeItem)
    → ItemsSound items
    → ItemsSound (update ChargeItem.id id (payer_row t) items)
payer_row-ItemsSound id t items h = record {
  keyed = update-Keyed ChargeItem.id id (payer_row t) items (λ y. refl) h.keyed;
  rows = All-update ChargeItem.id ItemSound id (payer_row t) items (λ x found sound. sound) h.rows;
}

-- Writing the payers changes no amounts.
write_payers_sound :
    (rows : List PayerResolution) (items : List ChargeItem) (s : Store)
    → ItemsSound s.items
    → SameAmounts items s.items
    → ItemsSound (write_payers rows s).items × SameAmounts items (write_payers rows s).items
unfolding write_payers
write_payers_sound [] items s h c = (h, c)
write_payers_sound (r ∷ rest) items s h c =
    write_payers_sound rest items _ (payer_row-ItemsSound r.item_id r.payer_type s.items h) (
      SameAmounts-update r.item_id (payer_row r.payer_type) items s.items (λ y. refl) (λ y. refl) c)

write_payers-adjustments :
    (rows : List PayerResolution) (s : Store) → (write_payers rows s).adjustments ≡ s.adjustments
unfolding write_payers
write_payers-adjustments [] s = refl
write_payers-adjustments (r ∷ rest) s = write_payers-adjustments rest _

apply_credits-IsSound :
    (fund_id : ℕ) (rows : List ChargeItem) (s : Store)
    → IsSound s
    → SameAmounts rows s.items
    → IsSound (apply_credits fund_id rows s)
unfolding apply_credits
apply_credits-IsSound fund_id [] s h c = h
apply_credits-IsSound fund_id (i ∷ rest) s h ((x, found, same), c) =
    elim (Bool-cases (credit == 0 || i.amount - i.paid_amount == 0)) [
      | inl nothing ↦ rw nothing (apply_credits-IsSound fund_id rest s h c)
      | inr some_credit ↦ rw some_credit (
          apply_credits-IsSound fund_id rest (use_credit fund_id i m s)
            (record {
              items =
                  pay_row-ItemsSound i.id (i.paid_amount + m) s.items h.items found (ground arith);
              adjustments = h.adjustments;
            })
            (SameAmounts-update i.id (pay_row (i.paid_amount + m)) rest s.items (λ y. refl)
              (λ y. refl) c))
    ]
  where
    credit : ℕ
    credit = credit_balance (find_credit i.unit_id s)

    m : ℕ
    m = min credit (i.amount - i.paid_amount)

-- Issuing a batch, with the credit that it uses, keeps the rows sound.
pub issue_batch-IsSound :
    (p : IssueParams) (s : Store) {t : Store} → IsSound s → issue_batch p s ≡ ok t → IsSound t
unfolding issue_batch record_issue
issue_batch-IsSound p s {t} h e =
    let (b, done) = issue_batch-record p s e in
    let u = write_batch p.batch_id issued s in
    let rows = items_of p.batch_id s in
    let held = filter-held ChargeItem.id (λ i. i.batch_id == p.batch_id) s.items h.items.keyed in
    let (sound, amounts) =
      write_payers_sound p.payers rows u h.items (held-SameAmounts rows s.items held) in
    let after =
      apply_credits-IsSound b.fund_id rows (write_payers p.payers u)
        (record {
          items = sound;
          adjustments = rw (write_payers-adjustments p.payers u) h.adjustments;
        })
        amounts in
    rw (← done) (record { items = after.items; adjustments = after.adjustments })
