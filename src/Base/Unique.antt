-- ===== src/Base/Unique.antt =====
-- Counts over tables with a unique key.
use Prim.Native.Nat.{ℕ, ◌≤◌}
use mathlib.Core.Path.{◌≡◌, refl, sym, subst}
use mathlib.Core.Bool.{Bool, true, false, not, ◌&&◌}
use mathlib.Core.Logic.{◌≢◌, inl, inr}
use mathlib.Core.Option.{Option, none, some}
use mathlib.Core.List.{List, [], ◌∷◌}
use native.Mathlib.Omega.{arith}
use vielhome_backend.Base.Tests.{if◌then◌else◌, ◌==◌, Bool-cases}
use vielhome_backend.Base.Lists.{All, filter, All-filter}
use vielhome_backend.Base.Table.{find, Keyed, Unused}
use vielhome_backend.Base.Lookup.{find-cons_self, find-cons-other}
use vielhome_backend.Base.Count.{indicator, count}

-- `findFirst({ where })`
abbrev pub find_first {ℓ} : {A : Type ℓ} → (A → Bool) → List A → Option A
find_first test [] = none
find_first test (x ∷ xs) = let later = find_first test xs in if test x then some x else later

module _ {A : Type 0} where
  pub find_first-passes :
      (p : A → Bool) (xs : List A) {x : A} → find_first p xs ≡ some x → p x ≡ true
  find_first-passes p [] e = cc
  find_first-passes p (y ∷ ys) {x} e = ground (arith, find_first-passes p ys {x = x})

  pub find_first-none : (p : A → Bool) (xs : List A) → find_first p xs ≡ none → count p xs ≡ 0
  find_first-none p [] e = refl
  find_first-none p (y ∷ ys) e = ground (arith, find_first-none p ys)

  -- No row that a predicate excludes is counted.
  pub count_none : (p : A → Bool) (xs : List A) → All (λ x. p x ≡ false) xs → count p xs ≡ 0
  count_none p [] h = refl
  count_none p (x ∷ xs) (e, h) = let rest = count_none p xs h in rw e (omega (arith, rest))

indicator_le : (b : Bool) → indicator b ≤ 1
indicator_le true = omega arith
indicator_le false = omega arith

module _ {A : Type 0} (key : A → ℕ) where
  -- A row that `findFirst` returns is read by its key.
  pub find_first-find :
      (p : A → Bool) (xs : List A) {x : A}
      → Keyed key xs
      → find_first p xs ≡ some x
      → find key (key x) xs ≡ some x
  find_first-find p [] h e = cc
  find_first-find p (y ∷ ys) {x} (fresh, h) e = elim (Bool-cases (p y)) [
    | inl hit ↦ let the_row : y ≡ x = ground arith in rw (sym the_row) (find-cons_self key y ys)
    | inr miss ↦
        let later : find_first p ys ≡ some x = ground arith in
        find-cons-other key (key x) y ys fresh (find_first-find p ys h later)
  ]

  count_apart :
      (p : A → Bool) (k : ℕ) (xs : List A)
      → Unused key k xs
      → count p xs ≡ count (λ x. p x && not (key x == k)) xs
  count_apart p k [] h = refl
  count_apart p k (x ∷ xs) (apart, h) = let rest = count_apart p k xs h in ground (arith, rest)

  -- When no row but the one with a given key passes, at most one passes.
  pub count_le_one :
      (p : A → Bool) (k : ℕ) (xs : List A)
      → Keyed key xs
      → count (λ x. p x && not (key x == k)) xs ≡ 0
      → count p xs ≤ 1
  count_le_one p k [] h e = omega arith
  count_le_one p k (x ∷ xs) (fresh, h) e = elim (Bool-cases (key x == k)) [
    | inl hit ↦
        let the_key : key x ≡ k = ground arith in
        let rest = count_apart p k xs (subst (λ j. Unused key j xs) the_key fresh) in
        let at_most = indicator_le (p x) in omega (arith, rest, at_most, e)
    | inr miss ↦ let rest = count_le_one p k xs h in ground (arith, rest)
  ]

  pub filter-Keyed : (p : A → Bool) (xs : List A) → Keyed key xs → Keyed key (filter p xs)
  filter-Keyed p [] h = tt
  filter-Keyed p (x ∷ xs) (fresh, h) = elim (Bool-cases (p x)) [
    | inl e ↦ rw e (All-filter (λ y. key y ≢ key x) p xs fresh, filter-Keyed p xs h)
    | inr e ↦ rw e (filter-Keyed p xs h)
  ]

-- What was filtered passes the test.
pub filter-passes {ℓ} :
    {A : Type ℓ} (p : A → Bool) (xs : List A) → All (λ x. p x ≡ true) (filter p xs)
filter-passes p [] = tt
filter-passes p (x ∷ xs) = elim (Bool-cases (p x)) [
  | inl e ↦ rw e (e, filter-passes p xs)
  | inr e ↦ rw e (filter-passes p xs)
]
