-- ===== src/Finance/Payments/Targets.antt =====
-- Which debt a payment is set against: what is paid on a charge item or an adjustment, beside what the
-- allocation rows of a payment say of it.
use vielhome_backend.Base.{
  ℕ, ◌+◌, ◌≡◌, refl, subst, Bool, false, ◌&&◌, Option, none, some, List, arith, ◌==◌, ==_refl,
  ==_iff, sum_by, inl, inr, Bool-cases, if◌then◌else◌,
}
use vielhome_backend.Base.Table.{find-update}
use vielhome_backend.Finance.Schema.{
  Target, to_item, to_adjustment, ChargeItem, Adjustment, Allocation, Store,
}
use vielhome_backend.Finance.Store.{find_item, find_adjustment, pay_row, pay_adjustment_row}
use vielhome_backend.Finance.Payments.{pay_item, pay_adjustment}

abbrev pub item_paid : Option ChargeItem → ℕ
item_paid none = 0
item_paid (some i) = i.paid_amount

abbrev pub adjustment_paid : Option Adjustment → ℕ
adjustment_paid none = 0
adjustment_paid (some a) = a.paid_amount

-- What is paid on a debt.
abbrev pub paid_on : Target → Store → ℕ
paid_on (to_item id) s = item_paid (find_item id s)
paid_on (to_adjustment id) s = adjustment_paid (find_adjustment id s)

abbrev pub same_target : Target → Target → Bool
same_target (to_item a) (to_item b) = a == b
same_target (to_adjustment a) (to_adjustment b) = a == b
same_target (to_item a) (to_adjustment b) = false
same_target (to_adjustment a) (to_item b) = false

-- What the rows of a payment set against a debt.
abbrev pub allocated_to : ℕ → Target → List Allocation → ℕ
allocated_to id x =
    sum_by
      (λ (a : Allocation). if a.payment_id == id && same_target a.target x then a.amount else 0)

-- From one store to another, each debt is paid by as much more as the rows of the payment say.
abbrev pub Agrees : ℕ → Store → Store → Type 0
Agrees id s t =
    (x : Target)
    → paid_on x t + allocated_to id x s.allocations ≡ paid_on x s + allocated_to id x t.allocations

pub pay_item-Agrees :
    (id : ℕ) (i : ChargeItem) (n : ℕ) (s : Store)
    → find_item i.id s ≡ some i
    → Agrees id s (pay_item id i n s)
pay_item-Agrees id i n s found (to_adjustment j) = rw (==_refl id) (omega arith)
pay_item-Agrees id i n s found (to_item j) = elim (Bool-cases (i.id == j)) [
  | inl e ↦
      let here : find_item j s ≡ some i =
        subst (λ k. find_item k s ≡ some i) ((==_iff i.id j).0 e) found in
      rw
        (
          find-update ChargeItem.id i.id j (pay_row (i.paid_amount + n)) s.items (λ y. refl),
          e,
          here,
          ==_refl id,
        )
        (omega arith)
  | inr e ↦
      rw
        (
          find-update ChargeItem.id i.id j (pay_row (i.paid_amount + n)) s.items (λ y. refl),
          e,
          ==_refl id,
        )
        (omega arith)
]

pub pay_adjustment-Agrees :
    (id : ℕ) (a : Adjustment) (n : ℕ) (s : Store)
    → find_adjustment a.id s ≡ some a
    → Agrees id s (pay_adjustment id a n s)
pay_adjustment-Agrees id a n s found (to_item j) = rw (==_refl id) (omega arith)
pay_adjustment-Agrees id a n s found (to_adjustment j) = elim (Bool-cases (a.id == j)) [
  | inl e ↦
      let here : find_adjustment j s ≡ some a =
        subst (λ k. find_adjustment k s ≡ some a) ((==_iff a.id j).0 e) found in
      rw
        (
          find-update Adjustment.id a.id j (pay_adjustment_row (a.paid_amount + n)) s.adjustments
              (λ y. refl),
          e,
          here,
          ==_refl id,
        )
        (omega arith)
  | inr e ↦
      rw
        (
          find-update Adjustment.id a.id j (pay_adjustment_row (a.paid_amount + n)) s.adjustments
              (λ y. refl),
          e,
          ==_refl id,
        )
        (omega arith)
]

pub Agrees-trans : (id : ℕ) (s t u : Store) → Agrees id s t → Agrees id t u → Agrees id s u
Agrees-trans id s t u p q x = let first = p x in let second = q x in omega (arith, first, second)

pub paid_on-same :
    (x : Target) (s t : Store)
    → t.items ≡ s.items
    → t.adjustments ≡ s.adjustments
    → paid_on x t ≡ paid_on x s
paid_on-same (to_item id) s t items adjustments = rw items refl
paid_on-same (to_adjustment id) s t items adjustments = rw adjustments refl

-- Writes beside the debts and the allocation rows change neither side.
pub Agrees-after :
    (id : ℕ) (s t u : Store)
    → u.items ≡ t.items
    → u.adjustments ≡ t.adjustments
    → u.allocations ≡ t.allocations
    → Agrees id s t
    → Agrees id s u
Agrees-after id s t u items adjustments rows p x =
    rw (paid_on-same x t u items adjustments, rows) (p x)

pub Agrees-before :
    (id : ℕ) (s t u : Store)
    → t.items ≡ s.items
    → t.adjustments ≡ s.adjustments
    → t.allocations ≡ s.allocations
    → Agrees id t u
    → Agrees id s u
Agrees-before id s t u items adjustments rows p x =
    rw (← paid_on-same x s t items adjustments, ← rows) (p x)
