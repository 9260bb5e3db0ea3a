-- ===== src/Base/Table.antt =====
-- A database table: rows with a primary key. `findUnique({ where: { id } })` is `find`, and
-- `update({ where: { id }, data })` is `update`.
use Prim.Native.Nat.{ℕ, ◌+◌}
use mathlib.Core.Path.{◌≡◌}
use mathlib.Core.Logic.{◌≢◌, inl, inr}
use mathlib.Core.Option.{Option, none, some}
use mathlib.Core.List.{List, [], ◌∷◌}
use native.Mathlib.Omega.{arith}
use vielhome_backend.Base.Tests.{if◌then◌else◌, ◌==◌, Bool-cases}
use vielhome_backend.Base.Lists.{All, sum_by}

module _ {A : Type 0} (key : A → ℕ) where
  unfoldable pub find : ℕ → List A → Option A
  find k [] = none
  find k (x ∷ t) = if key x == k then some x else find k t

  unfoldable pub update : ℕ → (A → A) → List A → List A
  update k f [] = []
  update k f (x ∷ t) = if key x == k then f x ∷ t else x ∷ update k f t

  -- No row has this key.
  abbrev pub Unused : ℕ → List A → Type 0
  Unused k t = All (λ x. key x ≢ k) t

  -- The key is unique.
  abbrev pub Keyed : List A → Type 0
  Keyed [] = Unit
  Keyed (x ∷ t) = Unused (key x) t × Keyed t

  pub find-key : (k : ℕ) (t : List A) {x : A} → find k t ≡ some x → key x ≡ k
  unfolding find
  find-key k [] h = cc
  find-key k (y ∷ t) {x} h = ground (arith, find-key k t {x = x})

  -- An update is seen by a later read of the same row only.
  pub find-update :
      (k j : ℕ) (f : A → A) (t : List A)
      → ((x : A) → key (f x) ≡ key x)
      → find j (update k f t)
        ≡ (if k == j then (elim (find j t) [ none ↦ none | some x ↦ some (f x) ]) else find j t)
  unfolding find update
  find-update k j f [] e = ground arith
  find-update k j f (x ∷ t) e = ground (arith, e x, find-update k j f t e)

  -- What a column sums to after an update.
  pub sum_by-update :
      (g : A → ℕ) (k : ℕ) (f : A → A) (t : List A) {x : A}
      → find k t ≡ some x
      → sum_by g (update k f t) + g x ≡ sum_by g t + g (f x)
  unfolding find update
  sum_by-update g k f [] h = cc
  sum_by-update g k f (y ∷ t) {x} h = ground (arith, sum_by-update g k f t {x = x})

  pub All-update :
      (P : A → Type 0) (k : ℕ) (f : A → A) (t : List A)
      → ((x : A) → find k t ≡ some x → P x → P (f x))
      → All P t
      → All P (update k f t)
  unfolding find update
  All-update P k f [] step h = tt
  All-update P k f (x ∷ t) step (p, h) = elim (Bool-cases (key x == k)) [
    | inl e ↦ rw e (step x (rw e) p, h)
    | inr e ↦ rw e (p, All-update P k f t (λ y found. step y (rw e found)) h)
  ]
