-- ===== src/Base/Count.antt =====
-- Counting the rows that pass a test, and `updateMany`.
use Prim.Native.Nat.{ℕ, ◌+◌, ◌≤◌}
use mathlib.Core.Path.{◌≡◌, refl}
use mathlib.Core.Bool.{Bool, true, false}
use mathlib.Core.Logic.{inl, inr}
use mathlib.Core.Option.{some}
use mathlib.Core.List.{List, [], ◌∷◌}
use native.Mathlib.Omega.{arith}
use vielhome_backend.Base.Tests.{if◌then◌else◌, Bool-cases}
use vielhome_backend.Base.Lists.{sum_by, any}
use vielhome_backend.Base.Table.{find, update, sum_by-update}

abbrev pub indicator : Bool → ℕ
indicator true = 1
indicator false = 0

module _ {A : Type 0} where
  -- `count({ where })`
  abbrev pub count : (A → Bool) → List A → ℕ
  count p xs = sum_by (λ x. indicator (p x)) xs

  -- `updateMany({ where, data })`
  abbrev pub update_many : (A → Bool) → (A → A) → List A → List A
  update_many q f [] = []
  update_many q f (x ∷ xs) = let rest = update_many q f xs in (if q x then f x else x) ∷ rest

  -- Every row that passes the test is changed, and then fails it.
  pub count-update_many-cleared :
      (p q : A → Bool) (f : A → A) (xs : List A)
      → ((x : A) → p x ≡ true → q x ≡ true)
      → ((x : A) → p (f x) ≡ false)
      → count p (update_many q f xs) ≡ 0
  count-update_many-cleared p q f [] all_hit gone = refl
  count-update_many-cleared p q f (x ∷ xs) all_hit gone = elim (Bool-cases (q x)) [
    | inl e ↦
        let rest = count-update_many-cleared p q f xs all_hit gone in
        rw (e, gone x) (omega (arith, rest))
    | inr e ↦
        let hit = all_hit x in
        let passed : p x ≡ false = ground arith in
        let rest = count-update_many-cleared p q f xs all_hit gone in
        rw (e, passed) (omega (arith, rest))
  ]

  -- No row that passes the test is changed, before or after.
  pub count-update_many-kept :
      (p q : A → Bool) (f : A → A) (xs : List A)
      → ((x : A) → q x ≡ true → p x ≡ false)
      → ((x : A) → q x ≡ true → p (f x) ≡ false)
      → count p (update_many q f xs) ≡ count p xs
  count-update_many-kept p q f [] before after = refl
  count-update_many-kept p q f (x ∷ xs) before after = elim (Bool-cases (q x)) [
    | inl e ↦
        let rest = count-update_many-kept p q f xs before after in
        rw (e, before x e, after x e) (omega (arith, rest))
    | inr e ↦ let rest = count-update_many-kept p q f xs before after in rw e (omega (arith, rest))
  ]

  -- An update can only lower the count when it makes no row pass.
  pub count-update_many-le :
      (p q : A → Bool) (f : A → A) (xs : List A)
      → ((x : A) → q x ≡ true → p (f x) ≡ false)
      → count p (update_many q f xs) ≤ count p xs
  count-update_many-le p q f [] after = omega arith
  count-update_many-le p q f (x ∷ xs) after = elim (Bool-cases (q x)) [
    | inl e ↦
        let rest = count-update_many-le p q f xs after in rw (e, after x e) (omega (arith, rest))
    | inr e ↦ let rest = count-update_many-le p q f xs after in rw e (omega (arith, rest))
  ]

  pub count-any : (p : A → Bool) (xs : List A) → any p xs ≡ false → count p xs ≡ 0
  count-any p [] e = refl
  count-any p (x ∷ xs) e = ground (arith, count-any p xs)

  -- A test that is stronger passes no more rows.
  pub count_mono :
      (p q : A → Bool) (xs : List A) → ((x : A) → p x ≡ true → q x ≡ true) → count p xs ≤ count q xs
  count_mono p q [] implies = omega arith
  count_mono p q (x ∷ xs) implies =
      let rest = count_mono p q xs implies in let here = implies x in ground (arith, rest, here)

  module _ (key : A → ℕ) where
    -- The update of one row.
    pub count-update :
        (p : A → Bool) (k : ℕ) (f : A → A) (xs : List A) {x : A}
        → find key k xs ≡ some x
        → count p (update key k f xs) + indicator (p x) ≡ count p xs + indicator (p (f x))
    count-update p k f xs found = sum_by-update key (λ y. indicator (p y)) k f xs found
