-- ===== src/Finance/Payments/Places.antt =====
-- Where the money of an approved payment goes.
use vielhome_backend.Base.{
  ℕ, ◌&&◌, ◌+◌, ◌-◌, ◌≤◌, min, ◌≡◌, refl, subst, ◌∙◌, inl, inr, List, [], ◌∷◌, arith, ◌==◌, sum_by,
  Bool-cases, ==_refl,
}
use native.Mathlib.Nat.{sub-zero}
use vielhome_backend.Base.Int.{pos_part}
use vielhome_backend.Base.Result.{
  ok, unexpected, conflict, guard-eq-ok, expect-eq-ok, ok-injective, >>=-eq-ok,
}
use vielhome_backend.Base.Table.{Keyed, sum_by-update, find-key}
use vielhome_backend.Query.{Current, Current-update, Current-tail, query-Current}
use vielhome_backend.Finance.Schema.{
  Target, to_item, to_adjustment, ChargeItem, Adjustment, CreditBalance, DebtSelection, Store,
}
use vielhome_backend.Finance.Store.{
  allocated, positive_adjustments, find_item, find_adjustment, find_batch, is_live, pay_row,
  pay_adjustment_row,
}
use vielhome_backend.Finance.Payments.{
  apply_items, apply_adjustments, pay_item, pay_adjustment, settle_adjustments, apply_target,
  apply_selections, eq_ℤ, ApproveParams,
}
use vielhome_backend.Finance.Payments.Targets.{
  Agrees, Agrees-trans, pay_item-Agrees, pay_adjustment-Agrees,
}

-- All the money that was ever set against a debt or banked as credit.
abbrev pub settled : Store → ℕ
settled s =
    sum_by ChargeItem.paid_amount s.items
    + sum_by Adjustment.paid_amount s.adjustments
    + sum_by CreditBalance.balance s.credits

pub record HasKeys (s : Store) : Type 0 where
  pub items : Keyed ChargeItem.id s.items
  pub adjustments : Keyed Adjustment.id s.adjustments

-- From `s` with `n` still to place to `t` with `m`: what was placed is settled, and recorded for the
-- payment; the credit of the units is as it was.
pub record Places (id : ℕ) (s : Store) (n : ℕ) (t : Store) (m : ℕ) : Type 0 where
  pub money : settled t + m ≡ settled s + n
  pub rows : allocated id t.allocations + m ≡ allocated id s.allocations + n
  pub credits : t.credits ≡ s.credits
  pub targets : Agrees id s t

pay_item-Places :
    (id : ℕ) (i : ChargeItem) (n m : ℕ) (rest : List ChargeItem) (s : Store)
    → Current ChargeItem.id (i ∷ rest) s.items
    → n ≤ m
    → Places id s m (pay_item id i n s) (m - n)
pay_item-Places id i n m rest s c h = record {
  targets = pay_item-Agrees id i n s c.held.0;
  money = omega (
    arith,
    sum_by-update ChargeItem.id ChargeItem.paid_amount i.id (pay_row (i.paid_amount + n)) s.items
        c.held.0,
  );
  rows = rw (==_refl id) (omega arith);
  credits = refl;
}

pub Places-trans :
    {id : ℕ} {s t u : Store} {n m k : ℕ} → Places id s n t m → Places id t m u k → Places id s n u k
Places-trans {id} {s} {t} {u} p q = record {
  money = omega (arith, p.money, q.money);
  rows = omega (arith, p.rows, q.rows);
  credits = q.credits ∙ p.credits;
  targets = Agrees-trans id s t u p.targets q.targets;
}

Places-refl : (id : ℕ) (s : Store) (n : ℕ) → Places id s n s n
Places-refl id s n = record { money = refl; rows = refl; credits = refl; targets = λ x. refl }

pub apply_items-Places :
    (id remaining : ℕ) (rows : List ChargeItem) (s : Store)
    → Current ChargeItem.id rows s.items
    → let (t, left) = apply_items id remaining rows s in Places id s remaining t left
unfolding apply_items
apply_items-Places id remaining [] s c = Places-refl id s remaining
apply_items-Places id remaining (i ∷ rest) s c = elim (Bool-cases (remaining == 0)) [
  | inl done ↦ rw done (Places-refl id s remaining)
  | inr more ↦ elim (Bool-cases (i.amount - i.paid_amount == 0)) [
    | inl settled_already ↦
        rw (more, settled_already)
          (apply_items-Places id remaining rest s (Current-tail ChargeItem.id i rest s.items c))
    | inr open_debt ↦
        rw (more, open_debt)
          (Places-trans (pay_item-Places id i n remaining rest s c (omega arith)) (
            apply_items-Places id (remaining - n) rest (pay_item id i n s) (
              Current-update ChargeItem.id i rest s.items (pay_row (i.paid_amount + n)) (λ y. refl)
                c)))
  ]
]
  where
    n : ℕ
    n = min remaining (i.amount - i.paid_amount)

pay_adjustment-Places :
    (id : ℕ) (a : Adjustment) (n m : ℕ) (rest : List Adjustment) (s : Store)
    → Current Adjustment.id (a ∷ rest) s.adjustments
    → n ≤ m
    → Places id s m (pay_adjustment id a n s) (m - n)
pay_adjustment-Places id a n m rest s c h = record {
  targets = pay_adjustment-Agrees id a n s c.held.0;
  money = omega (
    arith,
    sum_by-update Adjustment.id Adjustment.paid_amount a.id (pay_adjustment_row (a.paid_amount + n))
        s.adjustments c.held.0,
  );
  rows = rw (==_refl id) (omega arith);
  credits = refl;
}

pub apply_adjustments-Places :
    (id remaining : ℕ) (rows : List Adjustment) (s : Store)
    → Current Adjustment.id rows s.adjustments
    → let (t, left) = apply_adjustments id remaining rows s in Places id s remaining t left
unfolding apply_adjustments
apply_adjustments-Places id remaining [] s c = Places-refl id s remaining
apply_adjustments-Places id remaining (a ∷ rest) s c = elim (Bool-cases (remaining == 0)) [
  | inl done ↦ rw done (Places-refl id s remaining)
  | inr more ↦ elim (Bool-cases (pos_part a.amount - a.paid_amount == 0)) [
    | inl settled_already ↦
        rw (more, settled_already)
          (apply_adjustments-Places id remaining rest s
            (Current-tail Adjustment.id a rest s.adjustments c))
    | inr open_debt ↦
        rw (more, open_debt)
          (Places-trans (pay_adjustment-Places id a n remaining rest s c (omega arith)) (
            apply_adjustments-Places id (remaining - n) rest (pay_adjustment id a n s) (
              Current-update Adjustment.id a rest s.adjustments
                (pay_adjustment_row (a.paid_amount + n)) (λ y. refl) c)))
  ]
]
  where
    n : ℕ
    n = min remaining (pos_part a.amount - a.paid_amount)

pub apply_items-adjustments :
    (id remaining : ℕ) (rows : List ChargeItem) (s : Store)
    → (apply_items id remaining rows s).0.adjustments ≡ s.adjustments
unfolding apply_items
apply_items-adjustments id remaining [] s = refl
apply_items-adjustments id remaining (i ∷ rest) s = ground (
  arith,
  apply_items-adjustments id remaining rest s,
  apply_items-adjustments id (remaining - n) rest (pay_item id i n s),
)
  where
    n : ℕ
    n = min remaining (i.amount - i.paid_amount)

pub settle_adjustments-Places :
    (p : ApproveParams) (s : Store) (n : ℕ)
    → Keyed Adjustment.id s.adjustments
    → let (t, left) = settle_adjustments p (s, n) in Places p.payment_id s n t left
unfolding settle_adjustments positive_adjustments
settle_adjustments-Places p s n k = elim (Bool-cases (n == 0)) [
  | inl done ↦ rw done (Places-refl p.payment_id s n)
  | inr more ↦ rw more (
      apply_adjustments-Places p.payment_id n (positive_adjustments p.unit_id s) s
        (query-Current Adjustment.id _ _ s.adjustments k))
]

apply_target-Places :
    (p : ApproveParams) (x : Target) (n m : ℕ) (s : Store) {t : Store}
    → n ≤ m
    → apply_target p x n s ≡ ok t
    → Places p.payment_id s m t (m - n)
unfolding apply_target
apply_target-Places p (to_item id) n m s h e =
    let (item, found, e1) = expect-eq-ok (find_item id s) unexpected _ e in
    let (batch, _, e2) = expect-eq-ok (find_batch item.batch_id s) unexpected _ e1 in
    let (_, e3) =
      guard-eq-ok
        (item.amount == item.paid_amount + n && item.unit_id == p.unit_id && is_live batch.status)
        conflict _ e2 in
    let at = find-key ChargeItem.id id s.items found in
    let paid =
      sum_by-update ChargeItem.id ChargeItem.paid_amount id (pay_row (item.paid_amount + n)) s.items
        found in
    record {
      targets =
          subst (Agrees p.payment_id s) (ok-injective e3)
            (pay_item-Agrees p.payment_id item n s (rw at found));
      money = ground (arith, paid);
      rows = ground (arith, ==_refl p.payment_id);
      credits = ground arith;
    }
apply_target-Places p (to_adjustment id) n m s h e =
    let (a, found, e1) = expect-eq-ok (find_adjustment id s) unexpected _ e in
    let (_, e2) =
      guard-eq-ok (eq_ℤ a.amount (a.paid_amount + n) && a.unit_id == p.unit_id) conflict _ e1 in
    let at = find-key Adjustment.id id s.adjustments found in
    let paid =
      sum_by-update Adjustment.id Adjustment.paid_amount id (pay_adjustment_row (a.paid_amount + n))
        s.adjustments found in
    record {
      targets =
          subst (Agrees p.payment_id s) (ok-injective e2)
            (pay_adjustment-Agrees p.payment_id a n s (rw at found));
      money = ground (arith, paid);
      rows = ground (arith, ==_refl p.payment_id);
      credits = ground arith;
    }

pub apply_selections-Places :
    (p : ApproveParams) (rows : List DebtSelection) (m : ℕ) (s : Store) {t : Store}
    → sum_by DebtSelection.selected_amount rows ≤ m
    → apply_selections p rows s ≡ ok t
    → Places p.payment_id s m t (m - sum_by DebtSelection.selected_amount rows)
unfolding apply_selections
apply_selections-Places p [] m s {t} h e =
    rw (← ok-injective e, sub-zero) (Places-refl p.payment_id s m)
apply_selections-Places p (x ∷ rest) m s {t} h e =
    let (u, first, e') = >>=-eq-ok _ _ e in
    let here = apply_target-Places p x.target x.selected_amount m s (omega arith) first in
    let later = apply_selections-Places p rest (m - x.selected_amount) u (omega arith) e' in
    let whole = Places-trans here later in
    record {
      money = omega (arith, whole.money);
      rows = omega (arith, whole.rows);
      credits = whole.credits;
      targets = whole.targets;
    }
