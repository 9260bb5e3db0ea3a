-- ===== src/Finance/Explicit/Order.antt =====
-- The months of a series are paid in order.
use vielhome_backend.Base.{
  ℕ, subst, zero, suc, ◌<◌, ◌≡◌, inl, inr, none, some, List, [], ◌∷◌, ◌++◌, arith, Bool, true,
  false, not, Bool-cases, All, any, filter, length, includes,
}
use vielhome_backend.Base.Result.{ok}
use vielhome_backend.Finance.Schema.{ChargeItem, Payment, Store}
use vielhome_backend.Finance.Store.{find_batch}
use vielhome_backend.Finance.Requests.{find_by_key}
use vielhome_backend.Finance.Explicit.{
  ExplicitParams, take, has_gap, outstanding_series, monthly_series, ids_of, gap_in, series_gap,
  chosen_items, select_obligations, create_explicit_payment,
}

-- Something chosen is counted.
filter-split :
    (test : ChargeItem → Bool) (ys : List ChargeItem) (i : ChargeItem) (zs : List ChargeItem)
    → test i ≡ true
    → 0 < length (filter test (ys ++ i ∷ zs))
filter-split test [] i zs h = ground arith
filter-split test (y ∷ ys) i zs h = ground (arith, filter-split test ys i zs)

-- A head that is among the first rows is chosen.
head-chosen :
    (test : ChargeItem → Bool) (n : ℕ) (y : ChargeItem) (l : List ChargeItem)
    → 0 < n
    → any (λ x. not (test x)) (take n (y ∷ l)) ≡ false
    → test y ≡ true
head-chosen test zero y l h e = ground arith
head-chosen test (suc n) y l h e = ground arith

tail-chosen :
    (test : ChargeItem → Bool) (y : ChargeItem) (l : List ChargeItem)
    → test y ≡ true
    → any (λ x. not (test x)) (take (length (filter test (y ∷ l))) (y ∷ l)) ≡ false
    → any (λ x. not (test x)) (take (length (filter test l)) l) ≡ false
tail-chosen test y l h e = ground arith

-- Where the first rows, as many as are chosen, are all chosen, so is each row before a chosen one.
take-chosen :
    (test : ChargeItem → Bool) (ys : List ChargeItem) (i : ChargeItem) (zs : List ChargeItem)
    → any (λ x. not (test x)) (take (length (filter test (ys ++ i ∷ zs))) (ys ++ i ∷ zs)) ≡ false
    → test i ≡ true
    → All (λ y. test y ≡ true) ys
take-chosen test [] i zs e h = tt
take-chosen test (y ∷ ys) i zs e h = elim (Bool-cases (test y)) [
  | inl chosen ↦ (chosen, take-chosen test ys i zs (tail-chosen test y (ys ++ i ∷ zs) chosen e) h)
  | inr skipped ↦ ground (
    arith,
    head-chosen test (length (filter test (y ∷ ys ++ i ∷ zs))) y (ys ++ i ∷ zs),
    filter-split test ys i zs,
  )
]

series_gap-at :
    (unit_id : ℕ) (s : Store) (chosen : List ℕ) (before : List ChargeItem) (x : ChargeItem)
    (after : List ChargeItem)
    → series_gap unit_id s chosen (before ++ x ∷ after) ≡ false
    → gap_in unit_id s chosen (monthly_series (find_batch x.batch_id s)) ≡ false
unfolding series_gap
series_gap-at unit_id s chosen [] x after e = ground arith
series_gap-at unit_id s chosen (y ∷ before) x after e =
    series_gap-at unit_id s chosen before x after (ground arith)

no_gap :
    (p : ExplicitParams) (s : Store) {q : Payment} {t : Store}
    → find_by_key p.payer_id p.building_id p.idempotency_key s.payments ≡ none
    → create_explicit_payment p s ≡ ok (q, t)
    → series_gap p.unit_id s (ids_of (chosen_items p s)) (chosen_items p s) ≡ false
unfolding create_explicit_payment select_obligations
no_gap p s fresh e = ground arith

-- A payment that chooses its debts under a new key never skips a month: where it chooses a charge of a
-- monthly series, each unpaid charge of that series that comes before a chosen one is chosen too.
pub create_explicit_payment_in_order :
    (p : ExplicitParams) (s : Store) {q : Payment} {t : Store} {series : ℕ}
    (before : List ChargeItem) (x : ChargeItem) (after : List ChargeItem)
    (earlier : List ChargeItem) (i : ChargeItem) (later : List ChargeItem)
    → find_by_key p.payer_id p.building_id p.idempotency_key s.payments ≡ none
    → create_explicit_payment p s ≡ ok (q, t)
    → chosen_items p s ≡ before ++ x ∷ after
    → monthly_series (find_batch x.batch_id s) ≡ some series
    → outstanding_series p.unit_id series s ≡ earlier ++ i ∷ later
    → includes (ids_of (chosen_items p s)) i.id ≡ true
    → All (λ y. includes (ids_of (chosen_items p s)) y.id ≡ true) earlier
unfolding has_gap
create_explicit_payment_in_order p s {series = series} before x after earlier i later fresh e chosen
      monthly rows hit =
    let ids = ids_of (chosen_items p s) in
    let all_series : series_gap p.unit_id s ids (before ++ x ∷ after) ≡ false =
      rw⁻¹ chosen (no_gap p s fresh e) in
    let here = series_gap-at p.unit_id s ids before x after all_series in
    let of_series : gap_in p.unit_id s ids (some series) ≡ false =
      subst (λ o. gap_in p.unit_id s ids o ≡ false) monthly here in
    let of_rows : has_gap ids (earlier ++ i ∷ later) ≡ false =
      subst (λ l. has_gap ids l ≡ false) rows of_series in
    take-chosen (λ y. includes ids y.id) earlier i later of_rows hit
