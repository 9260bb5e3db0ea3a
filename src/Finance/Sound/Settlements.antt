-- ===== src/Finance/Sound/Settlements.antt =====
-- Approving and reversing payments keeps the rows sound.
use vielhome_backend.Base.{ℕ, ◌≡◌, inl, inr, arith, ◌==◌, Bool-cases}
use vielhome_backend.Base.Result.{
  ok, conflict, business_rule, guard, ◌>>=◌, ◌>>◌, expect-eq-ok, guard-eq-ok, forbid-eq-ok,
  >>=-eq-ok,
}
use vielhome_backend.Query.{query-Current}
use vielhome_backend.Finance.Schema.{
  approved, applied, reversed, ChargeItem, Adjustment, Payment, EntryType, Direction, Reference,
  Store,
}
use vielhome_backend.Finance.Store.{
  is_outstanding, due_before, outstanding_items, positive_adjustments, write_payment, upsert_credit,
  post_cash, find_payment,
}
use vielhome_backend.Finance.Payments.{
  ApproveParams, apply_items, settle_adjustments, bank_rest, approve_automatic, approve_explicit,
  post_approval, close_explicit, approve_by_mode, approve_payment, apply_selections, is_explicit,
  is_pending, have_lapsed, is_total, selections_of, write_reservations,
}
use vielhome_backend.Finance.Payments.Places.{apply_items-adjustments}
use vielhome_backend.Finance.Payments.Spends.{post_cash-Posts, upsert_credit-keeps}
use vielhome_backend.Finance.Reversals.{
  ReverseParams, reverse_payment, undo_approval, undo_allocations, allocations_of,
}
use vielhome_backend.Finance.Sound.{IsSound}
use vielhome_backend.Finance.Sound.Loops.{
  apply_items-ItemsSound, apply_adjustments-AdjustmentsSound, apply_adjustments-items,
  apply_selections-IsSound, undo_allocations-IsSound,
}

pub IsSound-same :
    {s t : Store} → t.items ≡ s.items → t.adjustments ≡ s.adjustments → IsSound s → IsSound t
IsSound-same e f h = record { items = rw e h.items; adjustments = rw f h.adjustments }

pub post_cash-IsSound :
    (kind : EntryType) (d : Direction) (fund_id n : ℕ) (r : Reference) (s : Store) {t : Store}
    → IsSound s
    → post_cash kind d fund_id n r s ≡ ok t
    → IsSound t
post_cash-IsSound kind d fund_id n r s h e =
    let posts = post_cash-Posts kind d fund_id n r s e in
    rw (posts.same) (record { items = h.items; adjustments = h.adjustments })

settle_adjustments-IsSound :
    (p : ApproveParams) (s : Store) (n : ℕ) → IsSound s → IsSound (settle_adjustments p (s, n)).0
unfolding settle_adjustments positive_adjustments
settle_adjustments-IsSound p s n h = elim (Bool-cases (n == 0)) [
  | inl done ↦ rw done h
  | inr more ↦ rw more (record {
    items =
        rw (apply_adjustments-items p.payment_id n (positive_adjustments p.unit_id s) s) h.items;
    adjustments =
        apply_adjustments-AdjustmentsSound p.payment_id n (positive_adjustments p.unit_id s) s
          (query-Current Adjustment.id _ _ s.adjustments h.adjustments.keyed) h.adjustments;
  })
]

pub upsert_credit-IsSound :
    (unit_id n : ℕ) (s : Store) → IsSound s → IsSound (upsert_credit unit_id n s)
upsert_credit-IsSound unit_id n s h =
    let (same_items, same_adjustments, _) = upsert_credit-keeps unit_id n s in
    IsSound-same same_items same_adjustments h

bank_rest-IsSound : (unit_id n : ℕ) (s : Store) → IsSound s → IsSound (bank_rest unit_id (s, n))
unfolding bank_rest
bank_rest-IsSound unit_id n s h = elim (Bool-cases (n == 0)) [
  | inl done ↦ rw done h
  | inr more ↦ rw more (upsert_credit-IsSound unit_id n s h)
]

approve_automatic-IsSound :
    (p : ApproveParams) (s : Store) {t : Store}
    → IsSound s
    → approve_automatic p s ≡ ok t
    → IsSound t
unfolding approve_automatic post_approval outstanding_items
approve_automatic-IsSound p s h e =
    let paid = write_payment p.payment_id approved s in
    let rows = outstanding_items p.unit_id paid in
    let (u, left) = apply_items p.payment_id p.amount rows paid in
    let (v, rest) = settle_adjustments p (u, left) in
    let on_items : IsSound u = record {
      items =
          apply_items-ItemsSound p.payment_id p.amount rows paid
            (query-Current ChargeItem.id (is_outstanding p.unit_id paid) (due_before paid) s.items
              h.items.keyed)
            h.items;
      adjustments = rw (apply_items-adjustments p.payment_id p.amount rows paid) h.adjustments;
    } in
    post_cash-IsSound EntryType.payment Direction.credit p.fund_id p.amount
      (Reference.of_payment p.payment_id) (bank_rest p.unit_id (v, rest))
      (bank_rest-IsSound p.unit_id rest v (settle_adjustments-IsSound p u left on_items)) e

approve_explicit-IsSound :
    (p : ApproveParams) (current : Payment) (s : Store) {t : Store}
    → IsSound s
    → approve_explicit p current s ≡ ok t
    → IsSound t
unfolding approve_explicit close_explicit post_approval
approve_explicit-IsSound p current s h e =
    let chosen = selections_of p.payment_id s in
    let (_, e1) =
      forbid-eq-ok (have_lapsed chosen) conflict
        (guard (is_total p current chosen) business_rule
          >> (apply_selections p chosen s >>= close_explicit p))
        e in
    let (_, e2) =
      guard-eq-ok (is_total p current chosen) business_rule
        (apply_selections p chosen s >>= close_explicit p) e1 in
    let (u, applied_all, e3) = >>=-eq-ok (apply_selections p chosen s) (close_explicit p) e2 in
    let sound = apply_selections-IsSound p chosen s h applied_all in
    post_cash-IsSound EntryType.payment Direction.credit p.fund_id p.amount
      (Reference.of_payment p.payment_id)
      (write_payment p.payment_id approved (write_reservations p.payment_id applied u))
      (record { items = sound.items; adjustments = sound.adjustments }) e3

-- What approving a payment, automatic or explicit, writes on charge items and adjustments keeps each
-- of them within its amount and the status of each item right.
pub approve_payment-IsSound :
    (p : ApproveParams) (s : Store) {t : Store} → IsSound s → approve_payment p s ≡ ok t → IsSound t
unfolding approve_payment
approve_payment-IsSound p s h e =
    let (current, _, e1) =
      expect-eq-ok (find_payment p.payment_id s) business_rule
        (λ current. guard (is_pending current.status) business_rule >> approve_by_mode p current s)
        e in
    let (_, e2) =
      guard-eq-ok (is_pending current.status) business_rule (approve_by_mode p current s) e1 in
    elim (Bool-cases (is_explicit current.selection_mode)) [
      | inl explicit ↦ approve_explicit-IsSound p current s h (rw explicit at e2)
      | inr automatic ↦ approve_automatic-IsSound p s h (rw automatic at e2)
    ]

undo_approval-IsSound :
    (p : ReverseParams) (s : Store) {t : Store} → IsSound s → undo_approval p s ≡ ok t → IsSound t
unfolding undo_approval
undo_approval-IsSound p s h e =
    let t = write_payment p.payment_id reversed s in
    post_cash-IsSound EntryType.reversal Direction.debit p.fund_id p.amount
      (Reference.of_payment p.payment_id) (undo_allocations (allocations_of p.payment_id s) t)
      (undo_allocations-IsSound (allocations_of p.payment_id s) t
        (record { items = h.items; adjustments = h.adjustments }))
      e

pub reverse_payment-IsSound :
    (p : ReverseParams) (s : Store) {t : Store} → IsSound s → reverse_payment p s ≡ ok t → IsSound t
unfolding reverse_payment
reverse_payment-IsSound p s {t} h e =
    let done : undo_approval p s ≡ ok t = ground arith in undo_approval-IsSound p s h done
