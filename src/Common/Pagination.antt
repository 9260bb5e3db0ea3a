-- ===== src/Common/Pagination.antt =====
-- common/pagination/pagination.util.ts. `Number` of a query string is an argument: the integer that it
-- gives, if it gives one. Skipping and taking rows is the database's.
use vielhome_backend.Base.{
  ℕ, zero, suc, ◌+◌, ◌-◌, ◌*◌, ◌/◌, ◌≤◌, ◌<◌, ◌≡◌, refl, ap, sym, ◌∙◌, subst, min, Option, none,
  some, List, [], ◌∷◌, ◌++◌, arith, ltb, if◌then◌else◌, length, Bool-cases, inl, inr,
}
use native.Mathlib.Nat.{zero-mul, suc-mul, lt-div-mul-add, zero-add, add-suc, add_comm}
use native.Mathlib.Numerals.{unary_clauses}
use vielhome_backend.Base.Int.{ℤ, pos, negsuc}

abbrev pub default_page_limit : ℕ
default_page_limit = 20

abbrev pub max_page_limit : ℕ
max_page_limit = 100

pub record PaginationParams : Type 0 where
  pub page : ℕ
  pub limit : ℕ

pub record PaginationMeta : Type 0 where
  pub page : ℕ
  pub limit : ℕ
  pub total : ℕ
  pub total_pages : ℕ

-- `Number.isInteger(parsed) && parsed >= 1 ? parsed : fallback`
abbrev pub at_least_one : Option ℤ → ℕ → ℕ
at_least_one (some (pos (suc n))) fallback = suc n
at_least_one _ fallback = fallback

-- The limit: `Math.min(parsed, MAX_PAGE_LIMIT)`, or the default.
abbrev pub limit_of : Option ℤ → ℕ
limit_of (some (pos (suc n))) = min (suc n) max_page_limit
limit_of _ = default_page_limit

unfoldable pub parse_pagination : Option ℤ → Option ℤ → PaginationParams
parse_pagination page limit = record { page = at_least_one page 1; limit = limit_of limit }

pub record SkipTake : Type 0 where
  pub skip : ℕ
  pub take : ℕ

unfoldable pub to_skip_take : PaginationParams → SkipTake
to_skip_take p = record { skip = (p.page - 1) * p.limit; take = p.limit }

-- `Math.max(1, Math.ceil(total / limit))`
unfoldable pub build_pagination_meta : PaginationParams → ℕ → PaginationMeta
build_pagination_meta p total =
    let pages = (total + p.limit - 1) / p.limit in
    record {
      page = p.page;
      limit = p.limit;
      total = total;
      total_pages = if ltb pages 1 then 1 else pages;
    }

page_bound : (page : Option ℤ) → 1 ≤ at_least_one page 1
page_bound none = omega arith
page_bound (some (pos zero)) = omega arith
page_bound (some (pos (suc n))) = omega arith
page_bound (some (negsuc n)) = omega arith

limit_low : (limit : Option ℤ) → 1 ≤ limit_of limit
limit_low none = omega arith
limit_low (some (pos zero)) = omega arith
limit_low (some (pos (suc n))) = omega arith
limit_low (some (negsuc n)) = omega arith

limit_high : (limit : Option ℤ) → limit_of limit ≤ max_page_limit
limit_high none = omega arith
limit_high (some (pos zero)) = omega arith
limit_high (some (pos (suc n))) = omega arith
limit_high (some (negsuc n)) = omega arith

-- Whatever the query strings are, the page is at least 1 and the limit between 1 and 100.
pub parse_pagination_bounds :
    (page limit : Option ℤ)
    → (1 ≤ (parse_pagination page limit).page)
      × (1 ≤ (parse_pagination page limit).limit)
      × ((parse_pagination page limit).limit ≤ max_page_limit)
unfolding parse_pagination
parse_pagination_bounds page limit = (page_bound page, limit_low limit, limit_high limit)

le_of_zero : (i limit total : ℕ) → total ≤ (i + 0) * limit → total ≤ i * limit
le_of_zero i limit total h = simp unary_clauses at h

more_pages : (i n limit total : ℕ) → total ≤ (i + suc n) * limit → total ≤ (suc i + n) * limit
more_pages i n limit total h = subst (λ k. total ≤ k * limit) (omega arith) h

next_page : (i limit : ℕ) → limit + i * limit ≡ suc i * limit
next_page i limit = add_comm limit (i * limit) ∙ sym (suc-mul i limit)

-- The ceiling of a division by a limit that is not zero, at least 1, covers the total.
enough_pages :
    (total limit : ℕ)
    → 1 ≤ limit
    → let pages = (total + limit - 1) / limit in
      total ≤ (0 + (if ltb pages 1 then 1 else pages)) * limit
enough_pages total limit h =
    let over : total + limit - 1 < (total + limit - 1) / limit * limit + limit =
      lt-div-mul-add (omega arith) in
    let pages = (total + limit - 1) / limit in
    elim (Bool-cases (ltb pages 1)) [
      | inl e ↦
          let none_at_all : pages ≡ 0 = ground arith in
          let over0 : total + limit - 1 < 0 * limit + limit =
            subst (λ k. total + limit - 1 < k * limit + limit) none_at_all over in
          rw e (let z = zero-mul limit in omega arith)
      | inr e ↦ rw e (subst (λ k. total ≤ k * limit) (sym (zero-add pages)) (omega arith))
    ]

module _ {A : Type 0} where
  abbrev pub drop : ℕ → List A → List A
  drop zero xs = xs
  drop (suc n) [] = []
  drop (suc n) (x ∷ xs) = drop n xs

  abbrev pub take : ℕ → List A → List A
  take zero xs = []
  take (suc n) [] = []
  take (suc n) (x ∷ xs) = x ∷ take n xs

  -- What `findMany` returns with this `skip` and `take`.
  abbrev pub page_of : PaginationParams → List A → List A
  page_of p rows = let window = to_skip_take p in take window.take (drop window.skip rows)

  -- The pages first, first + 1, …, n of them.
  abbrev pub pages_from : ℕ → ℕ → ℕ → List A → List A
  pages_from first limit zero rows = []
  pages_from first limit (suc n) rows =
      page_of (record { page = first; limit = limit }) rows ++ pages_from (suc first) limit n rows

  take_drop : (n : ℕ) (xs : List A) → take n xs ++ drop n xs ≡ xs
  take_drop zero xs = refl
  take_drop (suc n) [] = refl
  take_drop (suc n) (x ∷ xs) = ap (λ ys. x ∷ ys) (take_drop n xs)

  drop_none : (n : ℕ) → drop n [] ≡ []
  drop_none zero = refl
  drop_none (suc n) = refl

  drop-drop : (m n : ℕ) (xs : List A) → drop m (drop n xs) ≡ drop (m + n) xs
  drop-drop m zero xs = ap (λ k. drop k xs) (omega arith)
  drop-drop m (suc n) [] = drop_none m ∙ sym (drop_none (m + suc n))
  drop-drop m (suc n) (x ∷ xs) = drop-drop m n xs ∙ ap (λ k. drop k (x ∷ xs)) (sym (add-suc m n))

  drop_all : (n : ℕ) (xs : List A) → length xs ≤ n → drop n xs ≡ []
  drop_all zero [] h = refl
  drop_all zero (x ∷ xs) h = ground arith
  drop_all (suc n) [] h = refl
  drop_all (suc n) (x ∷ xs) h = drop_all n xs (omega arith)

  pages_drop :
      (i limit n : ℕ) (rows : List A)
      → length rows ≤ (i + n) * limit
      → pages_from (suc i) limit n rows ≡ drop (i * limit) rows
  unfolding to_skip_take
  pages_drop i limit zero rows h =
      sym (drop_all (i * limit) rows (le_of_zero i limit (length rows) h))
  pages_drop i limit (suc n) rows h =
      let first : (suc i - 1) * limit ≡ i * limit = ap (λ k. k * limit) (omega arith) in
      rw first (
        ap (λ ys. take limit (drop (i * limit) rows) ++ ys)
          (pages_drop (suc i) limit n rows (more_pages i n limit (length rows) h)
            ∙ sym (drop-drop limit (i * limit) rows ∙ ap (λ k. drop k rows) (next_page i limit)))
        ∙ take_drop limit (drop (i * limit) rows))

  -- The pages of a list, from the first to the last that its metadata counts, are the whole list.
  pub all_pages :
      (p : PaginationParams) (rows : List A)
      → 1 ≤ p.limit
      → pages_from 1 p.limit (build_pagination_meta p (length rows)).total_pages rows ≡ rows
  unfolding build_pagination_meta
  all_pages p rows h =
      pages_drop 0 p.limit _ rows (enough_pages (length rows) p.limit h)
      ∙ ap (λ k. drop k rows) (zero-mul p.limit)
