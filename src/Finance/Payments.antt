-- ===== src/Finance/Payments.antt =====
-- finance.repository.ts, `approvePayment` and `rejectPayment`: what settles a reported payment.
pub mod Targets
pub mod Places
pub mod Spends
use vielhome_backend.Base.{
  ℕ, suc, ◌+◌, ◌-◌, min, Bool, true, false, ◌&&◌, ◌||◌, not, Option, none, some, List, [], ◌∷◌,
  ◌==◌, leb, if◌then◌else◌, filter, sum_by, any, length,
}
use vielhome_backend.Base.Int.{ℤ, pos, negsuc, pos_part, ltb_ℤ}
use vielhome_backend.Base.Result.{
  Result, ok, err, conflict, business_rule, unexpected, expect, guard, forbid, ◌>>=◌, ◌>>◌,
}
use vielhome_backend.Finance.Schema.{
  PaymentStatus, pending_approval, approved, rejected, SelectionMode, legacy_automatic,
  explicit_selection, ReservationState, active, released, applied, Target, to_item, to_adjustment,
  ChargeItem, Adjustment, Payment, DebtSelection, EntryType, Direction, Reference, Store,
}
use vielhome_backend.Finance.Store.{
  is_live, find_item, find_adjustment, find_batch, find_payment, outstanding_items,
  positive_adjustments, write_item, write_adjustment, allocate, write_payment, upsert_credit,
  post_cash,
}

abbrev pub is_pending : PaymentStatus → Bool
is_pending pending_approval = true
is_pending _ = false

abbrev pub is_active : ReservationState → Bool
is_active active = true
is_active _ = false

-- One round of the loop over charge items: an allocation row, then the item.
abbrev pub pay_item : ℕ → ChargeItem → ℕ → Store → Store
pay_item payment_id item amount s =
    write_item item.id (item.paid_amount + amount) (allocate payment_id (to_item item.id) amount s)

-- `for (const item of outstandingItems)`: the store and what remains. A difference that would be
-- negative is 0 here, and the round is skipped either way.
unfoldable pub apply_items : ℕ → ℕ → List ChargeItem → Store → Store × ℕ
apply_items payment_id remaining [] s = (s, remaining)
apply_items payment_id remaining (item ∷ rest) s =
    let outstanding = item.amount - item.paid_amount in
    let amount = min remaining outstanding in
    let skipped = apply_items payment_id remaining rest s in
    let paid_rest =
      apply_items payment_id (remaining - amount) rest (pay_item payment_id item amount s) in
    if remaining == 0 then (s, remaining) else if outstanding == 0 then skipped else paid_rest

abbrev pub pay_adjustment : ℕ → Adjustment → ℕ → Store → Store
pay_adjustment payment_id a amount s =
    write_adjustment a.id (a.paid_amount + amount)
      (allocate payment_id (to_adjustment a.id) amount s)

-- `for (const adjustment of outstandingAdjustments)`; the amounts are positive.
unfoldable pub apply_adjustments : ℕ → ℕ → List Adjustment → Store → Store × ℕ
apply_adjustments payment_id remaining [] s = (s, remaining)
apply_adjustments payment_id remaining (a ∷ rest) s =
    let outstanding = pos_part a.amount - a.paid_amount in
    let amount = min remaining outstanding in
    let skipped = apply_adjustments payment_id remaining rest s in
    let paid_rest =
      apply_adjustments payment_id (remaining - amount) rest
        (pay_adjustment payment_id a amount s) in
    if remaining == 0 then (s, remaining) else if outstanding == 0 then skipped else paid_rest

pub record ApproveParams : Type 0 where
  pub payment_id : ℕ
  pub unit_id : ℕ
  pub fund_id : ℕ
  pub amount : ℕ

-- `if (remaining > 0)`, with a query of its own.
unfoldable pub settle_adjustments : ApproveParams → Store × ℕ → Store × ℕ
settle_adjustments p (s, remaining) =
    if remaining == 0
    then (s, remaining)
    else apply_adjustments p.payment_id remaining (positive_adjustments p.unit_id s) s

-- What is left after all debt becomes credit of the unit.
unfoldable pub bank_rest : ℕ → Store × ℕ → Store
bank_rest unit_id (s, remaining) = if remaining == 0 then s else upsert_credit unit_id remaining s

abbrev pub eq_ℤ : ℤ → ℕ → Bool
eq_ℤ (pos a) b = a == b
eq_ℤ (negsuc a) b = false

-- One round of the loop over the selections of an explicit payment. `outstanding !==
-- selectedAmount` is written as a sum.
unfoldable pub apply_target : ApproveParams → Target → ℕ → Store → Result Store
apply_target p (to_item id) selected s = do
  item ← expect (find_item id s) unexpected
  batch ← expect (find_batch item.batch_id s) unexpected
  guard
      (item.amount == item.paid_amount + selected
        && item.unit_id == p.unit_id
        && is_live batch.status)
      conflict
  ok (pay_item p.payment_id item selected s)
apply_target p (to_adjustment id) selected s = do
  a ← expect (find_adjustment id s) unexpected
  guard (eq_ℤ a.amount (a.paid_amount + selected) && a.unit_id == p.unit_id) conflict
  ok (pay_adjustment p.payment_id a selected s)

unfoldable pub apply_selections : ApproveParams → List DebtSelection → Store → Result Store
apply_selections p [] s = ok s
apply_selections p (x ∷ rest) s =
    apply_target p x.target x.selected_amount s >>= λ t. apply_selections p rest t

abbrev pub move_reservation : ℕ → ReservationState → DebtSelection → DebtSelection
move_reservation payment_id state x =
    if x.payment_id == payment_id && is_active x.reservation_state
    then record x { reservation_state = state }
    else x

-- `tx.paymentDebtSelection.updateMany({ where: { paymentId, reservationState: 'ACTIVE' } })`
unfoldable pub move_reservations : ℕ → ReservationState → List DebtSelection → List DebtSelection
move_reservations payment_id state [] = []
move_reservations payment_id state (x ∷ xs) =
    move_reservation payment_id state x ∷ move_reservations payment_id state xs

abbrev pub write_reservations : ℕ → ReservationState → Store → Store
write_reservations payment_id state s = record s {
  selections = move_reservations payment_id state s.selections;
}

abbrev pub selections_of : ℕ → Store → List DebtSelection
selections_of payment_id s = filter (λ (x : DebtSelection). x.payment_id == payment_id) s.selections

-- No selection, or one whose reservation is not active any more.
abbrev pub have_lapsed : List DebtSelection → Bool
have_lapsed chosen = length chosen == 0 || any (λ x. not (is_active x.reservation_state)) chosen

abbrev pub is_total : ApproveParams → Payment → List DebtSelection → Bool
is_total p current chosen =
    sum_by DebtSelection.selected_amount chosen == current.amount && current.amount == p.amount

unfoldable pub post_approval : ApproveParams → Store → Result Store
post_approval p s =
    post_cash EntryType.payment Direction.credit p.fund_id p.amount
      (Reference.of_payment p.payment_id) s

unfoldable pub close_explicit : ApproveParams → Store → Result Store
unfolding post_approval
close_explicit p t =
    post_approval p
      (write_payment p.payment_id approved (write_reservations p.payment_id applied t))

unfoldable pub approve_explicit : ApproveParams → Payment → Store → Result Store
approve_explicit p current s = do
  let chosen = selections_of p.payment_id s
  forbid (have_lapsed chosen) conflict
  guard (is_total p current chosen) business_rule
  t ← apply_selections p chosen s
  close_explicit p t

unfoldable pub approve_automatic : ApproveParams → Store → Result Store
approve_automatic p s =
    let t = write_payment p.payment_id approved s in
    let on_items = apply_items p.payment_id p.amount (outstanding_items p.unit_id t) t in
    post_approval p (bank_rest p.unit_id (settle_adjustments p on_items))

abbrev pub is_explicit : SelectionMode → Bool
is_explicit explicit_selection = true
is_explicit legacy_automatic = false

unfoldable pub approve_by_mode : ApproveParams → Payment → Store → Result Store
approve_by_mode p current s =
    if is_explicit current.selection_mode
    then approve_explicit p current s
    else approve_automatic p s

unfoldable pub approve_payment : ApproveParams → Store → Result Store
unfolding approve_by_mode
approve_payment p s = do
  current ← expect (find_payment p.payment_id s) business_rule
  guard (is_pending current.status) business_rule
  approve_by_mode p current s

unfoldable pub reject_payment : ℕ → Store → Result Store
reject_payment id s = do
  current ← expect (find_payment id s) business_rule
  guard (is_pending current.status) business_rule
  let t = write_payment id rejected s
  ok (if is_explicit current.selection_mode then write_reservations id released t else t)
