-- ===== src/Query.antt =====
-- Reading rows of a table: `findMany({ where, orderBy })` is a filter, then an insertion sort (rows
-- that the order does not tell apart keep the table's order). A row that was read is current as
-- long as the table still holds it under its key.
use vielhome_backend.Base.{
  ℕ, ◌≡◌, ◌≢◌, inl, inr, Bool, some, List, [], ◌∷◌, arith, sym, if◌then◌else◌, ◌==◌, ==_refl,
  Bool-cases, All, All-filter, All-append, ◌++◌, subst, filter,
}
use vielhome_backend.Base.Table.{find, update, Unused, Keyed, find-update}

module _ {A : Type 0} (before : A → A → Bool) where
  unfoldable pub insert : A → List A → List A
  insert x [] = x ∷ []
  insert x (y ∷ ys) = if before y x then y ∷ insert x ys else x ∷ y ∷ ys

  unfoldable pub sort : List A → List A
  unfolding insert
  sort [] = []
  sort (x ∷ xs) = insert x (sort xs)

  pub insert-All : (P : A → Type 0) (x : A) (xs : List A) → P x → All P xs → All P (insert x xs)
  unfolding insert
  insert-All P x [] p h = (p, tt)
  insert-All P x (y ∷ ys) p (q, h) = elim (Bool-cases (before y x)) [
    | inl e ↦ rw e (q, insert-All P x ys p h)
    | inr e ↦ rw e (p, (q, h))
  ]

  pub sort-All : (P : A → Type 0) (xs : List A) → All P xs → All P (sort xs)
  unfolding sort
  sort-All P [] h = tt
  sort-All P (x ∷ xs) (p, h) = insert-All P x (sort xs) p (sort-All P xs h)

module _ {A : Type 0} (key : A → ℕ) where
  -- Rows that the table holds as they are, each once.
  pub record Current (rows t : List A) : Type 0 where
    pub held : All (λ x. find key (key x) t ≡ some x) rows
    pub once : Keyed key rows

  filter-Unused :
      (test : A → Bool) (k : ℕ) (t : List A) → Unused key k t → Unused key k (filter test t)
  filter-Unused test k [] h = tt
  filter-Unused test k (x ∷ t) (p, h) = elim (Bool-cases (test x)) [
    | inl e ↦ rw e (p, filter-Unused test k t h)
    | inr e ↦ rw e (filter-Unused test k t h)
  ]

  filter-Keyed : (test : A → Bool) (t : List A) → Keyed key t → Keyed key (filter test t)
  filter-Keyed test [] h = tt
  filter-Keyed test (x ∷ t) (p, h) = elim (Bool-cases (test x)) [
    | inl e ↦ rw e (filter-Unused test (key x) t p, filter-Keyed test t h)
    | inr e ↦ rw e (filter-Keyed test t h)
  ]

  insert-Keyed :
      (before : A → A → Bool) (x : A) (xs : List A)
      → Unused key (key x) xs
      → Keyed key xs
      → Keyed key (insert before x xs)
  unfolding insert
  insert-Keyed before x [] u h = (tt, tt)
  insert-Keyed before x (y ∷ ys) (n, u) (v, h) = elim (Bool-cases (before y x)) [
    | inl e ↦ rw e (
      insert-All before (λ z. key z ≢ key y) x ys (λ same. n (sym same)) v,
      insert-Keyed before x ys u h,
    )
    | inr e ↦ rw e ((n, u), (v, h))
  ]

  sort-Keyed : (before : A → A → Bool) (xs : List A) → Keyed key xs → Keyed key (sort before xs)
  unfolding sort
  sort-Keyed before [] h = tt
  sort-Keyed before (x ∷ xs) (u, h) =
      insert-Keyed before x (sort before xs) (sort-All before (λ z. key z ≢ key x) xs u)
        (sort-Keyed before xs h)

  held_in :
      (t : List A) (rows : List A)
      → Keyed key t
      → All (λ x. find key (key x) t ≡ some x) rows
      → (y : A) → Unused key (key y) t
      → Unused key (key y) rows
      → All (λ x. find key (key x) (y ∷ t) ≡ some x) rows
  unfolding find
  held_in t [] keyed h y new free = tt
  held_in t (x ∷ rows) keyed (p, h) y new (n, free) =
      (ground (arith, p), held_in t rows keyed h y new free)

  table-held : (t : List A) → Keyed key t → All (λ x. find key (key x) t ≡ some x) t
  unfolding find
  table-held [] h = tt
  table-held (x ∷ t) (u, h) = (rw (==_refl (key x)), held_in t t h (table-held t h) x u u)

  -- What `findMany` returns is current.
  pub query-Current :
      (test : A → Bool) (before : A → A → Bool) (t : List A)
      → Keyed key t
      → Current (sort before (filter test t)) t
  query-Current test before t h = record {
    held =
        sort-All before (λ x. find key (key x) t ≡ some x) (filter test t)
          (All-filter (λ x. find key (key x) t ≡ some x) test t (table-held t h));
    once = sort-Keyed before (filter test t) (filter-Keyed test t h);
  }

  update_other :
      (k : ℕ) (f : A → A) (t : List A) (x : A)
      → ((y : A) → key (f y) ≡ key y)
      → key x ≢ k
      → find key (key x) t ≡ some x
      → find key (key x) (update key k f t) ≡ some x
  update_other k f t x e n h = ground (arith, find-update key k (key x) f t e)

  update_others :
      (k : ℕ) (f : A → A) (t rows : List A)
      → ((y : A) → key (f y) ≡ key y)
      → Unused key k rows
      → All (λ x. find key (key x) t ≡ some x) rows
      → All (λ x. find key (key x) (update key k f t) ≡ some x) rows
  update_others k f t [] e n h = tt
  update_others k f t (x ∷ rows) e (n, ns) (p, h) =
      (update_other k f t x e n p, update_others k f t rows e ns h)

  -- Writing the first of the rows leaves the others current.
  pub Current-update :
      (x : A) (rows t : List A) (f : A → A)
      → ((y : A) → key (f y) ≡ key y)
      → Current (x ∷ rows) t
      → Current rows (update key (key x) f t)
  Current-update x rows t f e c = record {
    held = update_others (key x) f t rows e c.once.0 c.held.1;
    once = c.once.1;
  }

  pub Current-tail : (x : A) (rows t : List A) → Current (x ∷ rows) t → Current rows t
  Current-tail x rows t c = record { held = c.held.1; once = c.once.1 }

  update-Unused :
      (k j : ℕ) (f : A → A) (t : List A)
      → ((y : A) → key (f y) ≡ key y)
      → Unused key j t
      → Unused key j (update key k f t)
  unfolding update
  update-Unused k j f [] e h = tt
  update-Unused k j f (x ∷ t) e (n, h) = elim (Bool-cases (key x == k)) [
    | inl s ↦ rw s (rw (e x) n, h)
    | inr s ↦ rw s (n, update-Unused k j f t e h)
  ]

  pub update-Keyed :
      (k : ℕ) (f : A → A) (t : List A)
      → ((y : A) → key (f y) ≡ key y)
      → Keyed key t
      → Keyed key (update key k f t)
  unfolding update
  update-Keyed k f [] e h = tt
  update-Keyed k f (x ∷ t) e (n, h) = elim (Bool-cases (key x == k)) [
    | inl s ↦ rw s (rw (e x) n, h)
    | inr s ↦ rw s (update-Unused k (key x) f t e n, update-Keyed k f t e h)
  ]

  pub find-All :
      (P : A → Type 0) (k : ℕ) (t : List A) {x : A} → All P t → find key k t ≡ some x → P x
  unfolding find
  find-All P k [] h e = cc
  find-All P k (y ∷ t) {x} (p, h) e = elim (Bool-cases (key y == k)) [
    | inl s ↦ let same : some y ≡ some x = rw s at e in let at : y ≡ x = cc in subst P at p
    | inr s ↦ find-All P k t h (rw s at e)
  ]

  append-Unused :
      (k : ℕ) (xs ys : List A) → Unused key k xs → Unused key k ys → Unused key k (xs ++ ys)
  append-Unused k xs ys h j = All-append (λ x. key x ≢ k) xs ys h j

  -- New rows with unused keys keep the keys unique.
  pub append-Keyed :
      (xs ys : List A)
      → Keyed key xs
      → All (λ x. Unused key (key x) ys) xs
      → Keyed key ys
      → Keyed key (xs ++ ys)
  append-Keyed [] ys h n j = j
  append-Keyed (x ∷ xs) ys (u, h) (n, ns) j =
      (append-Unused (key x) xs ys u n, append-Keyed xs ys h ns j)

  -- So is what a plain filter returns.
  pub filter-held :
      (test : A → Bool) (t : List A)
      → Keyed key t
      → All (λ x. find key (key x) t ≡ some x) (filter test t)
  filter-held test t h = All-filter (λ x. find key (key x) t ≡ some x) test t (table-held t h)
