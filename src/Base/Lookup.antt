-- ===== src/Base/Lookup.antt =====
-- Reading a table that a row was put in front of.
use Prim.Native.Nat.{ℕ}
use mathlib.Core.Path.{◌≡◌, refl}
use mathlib.Core.Logic.{◌⊎◌, inl, inr}
use mathlib.Core.Option.{none, some}
use mathlib.Core.List.{List, [], ◌∷◌}
use native.Mathlib.Omega.{arith}
use vielhome_backend.Base.Tests.{◌==◌, Bool-cases}
use vielhome_backend.Base.Table.{find, Unused}

module _ {A : Type 0} (key : A → ℕ) where
  pub find-Unused : (k : ℕ) (t : List A) → Unused key k t → find key k t ≡ none
  unfolding find
  find-Unused k [] h = refl
  find-Unused k (x ∷ t) (p, h) = ground (arith, find-Unused k t h)

  -- A row that is read is the new one or was there before.
  pub find-cons-cases :
      (k : ℕ) (x : A) (t : List A) {y : A}
      → find key k (x ∷ t) ≡ some y
      → ((key x ≡ k) × (x ≡ y)) ⊎ (find key k t ≡ some y)
  unfolding find
  find-cons-cases k x t found = elim (Bool-cases (key x == k)) [
    | inl e ↦ inl (ground arith, ground arith)
    | inr e ↦ inr (ground arith)
  ]

  -- A row that was there is still read.
  pub find-cons-other :
      (k : ℕ) (x : A) (t : List A) {y : A}
      → Unused key (key x) t
      → find key k t ≡ some y
      → find key k (x ∷ t) ≡ some y
  unfolding find
  find-cons-other k x t fresh found = elim (Bool-cases (key x == k)) [
    | inr e ↦ rw e found
    | inl e ↦
        let gone = find-Unused (key x) t fresh in let eq : key x ≡ k = ground arith in ground arith
  ]

  pub find-cons_self : (x : A) (t : List A) → find key (key x) (x ∷ t) ≡ some x
  unfolding find
  find-cons_self x t = ground arith
