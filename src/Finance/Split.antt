-- ===== src/Finance/Split.antt =====
-- modules/finance/application/finance.service.ts, `allocateEqually`: a total that is split evenly over
-- the units of a charge. Without units the quotient is not used.
use vielhome_backend.Base.{
  ℕ, suc, ◌+◌, ◌-◌, ◌*◌, ◌/◌, ◌<◌, ◌≡◌, ◌⊎◌, inl, inr, List, [], ◌∷◌, map, arith, ltb,
  if◌then◌else◌, length, sum_by, All, min, Bool-cases, refl, ap,
}
use native.Mathlib.Omega.{div_any}
use native.Mathlib.Nat.{mod-lt}

pub record Share : Type 0 where
  pub unit_id : ℕ
  pub amount : ℕ

-- `unitIds.map((unitId, index) => …)`, from an index on.
unfoldable pub shares_from : ℕ → ℕ → ℕ → List ℕ → List Share
shares_from base remainder index [] = []
shares_from base remainder index (unit_id ∷ rest) =
    record { unit_id = unit_id; amount = if ltb index remainder then base + 1 else base }
    ∷ shares_from base remainder (suc index) rest

unfoldable pub allocate_equally : ℕ → List ℕ → List Share
allocate_equally total unit_ids =
    let base = total / length unit_ids in
    shares_from base (total - base * length unit_ids) 0 unit_ids

shares-total :
    (b r i : ℕ) (ids : List ℕ)
    → sum_by Share.amount (shares_from b r i ids) ≡ b * length ids + min (r - i) (length ids)
unfolding shares_from
shares-total b r i [] = omega arith
shares-total b r i (x ∷ ids) = ground (arith, shares-total b r (suc i) ids)

-- An amount that is the base or one more.
abbrev pub IsNear : ℕ → Share → Type 0
IsNear base x = (x.amount ≡ base) ⊎ (x.amount ≡ base + 1)

shares-IsNear : (b r i : ℕ) (ids : List ℕ) → All (IsNear b) (shares_from b r i ids)
unfolding shares_from
shares-IsNear b r i [] = tt
shares-IsNear b r i (x ∷ ids) = (
  elim (Bool-cases (ltb i r)) [ inl e ↦ rw e (inr refl) | inr e ↦ rw e (inl refl) ],
  shares-IsNear b r (suc i) ids,
)

shares-units : (b r i : ℕ) (ids : List ℕ) → map Share.unit_id (shares_from b r i ids) ≡ ids
unfolding shares_from
shares-units b r i [] = refl
shares-units b r i (x ∷ ids) = ap (◌∷◌ x) (shares-units b r (suc i) ids)

-- A total that is split over at least one unit is split whole: one share for each unit, in their order,
-- that add up to the total, each the quotient or one more.
pub allocate_equally_whole :
    (total : ℕ) (unit_ids : List ℕ)
    → 0 < length unit_ids
    → (map Share.unit_id (allocate_equally total unit_ids) ≡ unit_ids)
      × (sum_by Share.amount (allocate_equally total unit_ids) ≡ total)
      × All (IsNear (total / length unit_ids)) (allocate_equally total unit_ids)
unfolding allocate_equally
allocate_equally_whole total unit_ids some_unit =
    let b = total / length unit_ids in
    let r = total - b * length unit_ids in
    (
      shares-units b r 0 unit_ids,
      omega (
        arith,
        shares-total b r 0 unit_ids,
        div_any total (length unit_ids),
        mod-lt total some_unit,
      ),
      shares-IsNear b r 0 unit_ids,
    )
