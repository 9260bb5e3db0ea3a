-- ===== src/Cases/Merges.antt =====
-- Merged cases (mergeCase of cases.service.ts and case.repository.ts): following `mergedIntoId` ends, when
-- the operations run one after the other, and does not when two merges overlap.
use vielhome_backend.Base.{
  ℕ, ap, sym, subst, ◌∙◌, ◌≡◌, refl, true, false, some, List, ◌∷◌, arith, ◌⊎◌, inl, inr, Bool-cases,
  Option-cases, ◌==◌, is_some,
}
use vielhome_backend.Base.Result.{ok, >>=-eq-ok}
use vielhome_backend.Base.Table.{find, update, find-update, Unused}
use vielhome_backend.Building.Schema.{MembershipRole}
use vielhome_backend.Base.Lookup.{find-cons-cases, find-cons-other}
use vielhome_backend.Cases.Defs.{
  CaseStatus, open_case, in_progress, waiting_user, resolved, closed, ResolutionCode, Case,
  CaseStore, CreateParams, create_case, find_case, write_case, new_case, same_status,
  assert_visible,
}
use vielhome_backend.Cases.Operations.{
  update_case, assign_case, assign_row, edit_row, add_message, resolve_case, resolve_row,
  close_case, close_row, reopen_case, reopen_row, merge_case, merge_row, check_merge, write_merge,
  UpdateParams, AssignParams, MessageParams,
}
use vielhome_backend.Cases.Life.{
  Step, created, updated, assigned, messaged, was_resolved, was_closed, reopened, merged, Reaches,
  here, next, empty_cases, get_case_or_throw-eq-ok, check_merge-eq-ok, write_merge-eq-ok,
}
use vielhome_backend.Cases.Ends.{find-write}

-- Following the merges from a case ends, at a case that is not merged.
pub data Leads (s : CaseStore) : ℕ → Type 0 where
  root :
      {id : ℕ} {c : Case} → find_case id s ≡ some c → is_some c.merged_into_id ≡ false → Leads s id
  via :
      {id : ℕ} {c : Case} (into : ℕ)
      → find_case id s ≡ some c
      → c.merged_into_id ≡ some into
      → Leads s into
      → Leads s id

-- So from every case of the store.
abbrev pub Rooted : CaseStore → Type 0
Rooted s = (id : ℕ) (c : Case) → find_case id s ≡ some c → Leads s id

-- A row is still there, with the same merge.
abbrev KeepsMerge : CaseStore → CaseStore → ℕ → Type 0
KeepsMerge s t id =
    (c : Case)
    → find_case id s ≡ some c
    → (d : Case) × (find_case id t ≡ some d) × (d.merged_into_id ≡ c.merged_into_id)

Leads-kept : {s t : CaseStore} → ((id : ℕ) → KeepsMerge s t id) → (id : ℕ) → Leads s id → Leads t id
Leads-kept kept id (root {c} found fresh) =
    let (d, there, eq) = kept id c found in root there (rw eq fresh)
Leads-kept kept id (via {c} into found goes rest) =
    let (d, there, eq) = kept id c found in via into there (eq ∙ goes) (Leads-kept kept into rest)

-- A row that is read after a write was there before.
find-write-cases :
    (k j : ℕ) (f : Case → Case) (s : CaseStore) {d : Case}
    → ((x : Case) → (f x).id ≡ x.id)
    → find_case j (write_case k f s) ≡ some d
    → (c : Case) × (find_case j s ≡ some c)
find-write-cases k j f s {d} keeps found = elim (Option-cases (find_case j s)) [
  | inr there ↦ there
  | inl missing ↦ let eq = find-update Case.id k j f s.cases keeps in ground arith
]

write-KeepsMerge :
    (k : ℕ) (f : Case → Case) (s : CaseStore)
    → ((x : Case) → (f x).id ≡ x.id)
    → ((x : Case) → (f x).merged_into_id ≡ x.merged_into_id)
    → (j : ℕ) → KeepsMerge s (write_case k f s) j
write-KeepsMerge k f s keeps same_merge j c found = elim (Bool-cases (k == j)) [
  | inl e ↦ (f c, rw (find-update Case.id k j f s.cases keeps, e, found) refl, same_merge c)
  | inr e ↦ (c, rw (find-update Case.id k j f s.cases keeps, e, found) refl, refl)
]

write-Rooted :
    (k : ℕ) (f : Case → Case) (s : CaseStore)
    → ((x : Case) → (f x).id ≡ x.id)
    → ((x : Case) → (f x).merged_into_id ≡ x.merged_into_id)
    → Rooted s
    → Rooted (write_case k f s)
write-Rooted k f s keeps same_merge h j d found =
    let (c, before) = find-write-cases k j f s keeps found in
    Leads-kept (write-KeepsMerge k f s keeps same_merge) j (h j c before)

-- Only the rows of the cases matter.
Leads-rows : {s t : CaseStore} → t.cases ≡ s.cases → (id : ℕ) → Leads s id → Leads t id
Leads-rows eq = Leads-kept (λ id c found. (c, rw eq found, refl))

Rooted-rows : (s t : CaseStore) → t.cases ≡ s.cases → Rooted s → Rooted t
Rooted-rows s t eq h id c found = Leads-rows {s = s} eq id (h id c (rw (sym eq) found))

update_case-Rooted :
    (p : UpdateParams) (s : CaseStore) {t : CaseStore}
    → update_case p s ≡ ok t
    → Rooted s
    → Rooted t
unfolding update_case
update_case-Rooted p s {t} e h =
    let (c, found, _, e1) = get_case_or_throw-eq-ok p.building_id p.case_id s _ e in
    let done : t ≡ write_case p.case_id (edit_row p) s = ground arith in
    rw done (write-Rooted p.case_id (edit_row p) s (λ x. refl) (λ x. refl) h)

assign_case-Rooted :
    (p : AssignParams) (s : CaseStore) {t : CaseStore}
    → assign_case p s ≡ ok t
    → Rooted s
    → Rooted t
unfolding assign_case
assign_case-Rooted p s {t} e h =
    let (c, found, _, e1) = get_case_or_throw-eq-ok p.building_id p.case_id s _ e in
    let cases : t.cases ≡ update Case.id p.case_id (assign_row p.assigned_to_id) s.cases =
      ground arith in
    Rooted-rows (write_case p.case_id (assign_row p.assigned_to_id) s) t cases
      (write-Rooted p.case_id (assign_row p.assigned_to_id) s (λ x. refl) (λ x. refl) h)

resolve_case-Rooted :
    (b id : ℕ) (code : ResolutionCode) (s : CaseStore) {t : CaseStore}
    → resolve_case b id code s ≡ ok t
    → Rooted s
    → Rooted t
unfolding resolve_case
resolve_case-Rooted b id code s {t} e h =
    let (c, found, _, e1) = get_case_or_throw-eq-ok b id s _ e in
    let done : t ≡ write_case id (resolve_row code) s = ground arith in
    rw done (write-Rooted id (resolve_row code) s (λ x. refl) (λ x. refl) h)

close_case-Rooted :
    (b id now : ℕ) (s : CaseStore) {t : CaseStore}
    → close_case b id now s ≡ ok t
    → Rooted s
    → Rooted t
unfolding close_case
close_case-Rooted b id now s {t} e h =
    let (c, found, _, e1) = get_case_or_throw-eq-ok b id s _ e in
    let done : t ≡ write_case id (close_row now) s = ground arith in
    rw done (write-Rooted id (close_row now) s (λ x. refl) (λ x. refl) h)

reopen_case-Rooted :
    (b id actor : ℕ) (roles : List MembershipRole) (s : CaseStore) {t : CaseStore}
    → reopen_case b id actor roles s ≡ ok t
    → Rooted s
    → Rooted t
unfolding reopen_case
reopen_case-Rooted b id actor roles s {t} e h =
    let (c, found, _, e1) = get_case_or_throw-eq-ok b id s _ e in
    let done : t ≡ write_case id reopen_row s = ground arith in
    rw done (write-Rooted id reopen_row s (λ x. refl) (λ x. refl) h)

add_message-Rooted :
    (p : MessageParams) (s : CaseStore) {t : CaseStore}
    → add_message p s ≡ ok t
    → Rooted s
    → Rooted t
unfolding add_message assert_visible
add_message-Rooted p s {t} e h =
    let (c, found, _, e1) = get_case_or_throw-eq-ok p.building_id p.case_id s _ e in
    let same_cases : t.cases ≡ s.cases = ground arith in Rooted-rows s t same_cases h

-- A new case is not merged, and no other row has its id.
create_case-Rooted :
    (p : CreateParams) (s : CaseStore) {t : CaseStore}
    → create_case p s ≡ ok t
    → Unused Case.id p.case_id s.cases
    → Rooted s
    → Rooted t
unfolding create_case
create_case-Rooted p s {t} e fresh h =
    let done : t ≡ record s { cases = new_case p ∷ s.cases } = ground arith in
    rw done (λ id c found. elim (find-cons-cases Case.id id (new_case p) s.cases found) [
      | inl (_, is_new) ↦ root {c = c} found (rw (sym is_new) refl)
      | inr before ↦
          Leads-kept
            (λ j d there. (d, find-cons-other Case.id j (new_case p) s.cases fresh there, refl)) id
            (h id c before)
    ])

-- A merge into another case that is not merged: every chain still ends.
merge-Leads :
    (id into now : ℕ) (s : CaseStore) {c d : Case}
    → id == into ≡ false
    → find_case id s ≡ some c
    → find_case into s ≡ some d
    → is_some d.merged_into_id ≡ false
    → (j : ℕ) → Leads s j
    → Leads (write_case id (merge_row into now) s) j
merge-Leads id into now s {c} {d} differ source target is_root j chain = go j chain
  where
    other :
        (k : ℕ) (x : Case)
        → id == k ≡ false
        → find_case k s ≡ some x
        → find_case k (write_case id (merge_row into now) s) ≡ some x
    other k x e found =
        rw (find-update Case.id id k (merge_row into now) s.cases (λ z. refl), e) found

    merged_one : (k : ℕ) → id == k ≡ true → Leads (write_case id (merge_row into now) s) k
    merged_one k e =
        via {c = merge_row into now c} into
          (subst
            (λ m. find_case m (write_case id (merge_row into now) s) ≡ some (merge_row into now c))
            (ground arith) (find-write id (merge_row into now) s (λ z. refl) source))
          refl (root {c = d} (other into d differ target) is_root)

    go : (k : ℕ) → Leads s k → Leads (write_case id (merge_row into now) s) k
    go k (root {c = x} found fresh) = elim (Bool-cases (id == k)) [
      | inl e ↦ merged_one k e
      | inr e ↦ root {c = x} (other k x e found) fresh
    ]
    go k (via {c = x} next_one found goes rest) = elim (Bool-cases (id == k)) [
      | inl e ↦ merged_one k e
      | inr e ↦ via {c = x} next_one (other k x e found) goes (go next_one rest)
    ]

merge_case-Rooted :
    (b id into now : ℕ) (s : CaseStore) {t : CaseStore}
    → merge_case b id into now s ≡ ok t
    → Rooted s
    → Rooted t
unfolding merge_case
merge_case-Rooted b id into now s {t} e h =
    let (r, checked, e1) = >>=-eq-ok (check_merge b id into s) _ e in
    let (c, d, found, target, differ, fresh, is_root, _) = check_merge-eq-ok b id into s checked in
    let (_, _, _, done) = write_merge-eq-ok id into now r s e1 in
    rw done (λ j x read.
      let (y, before) = find-write-cases id j (merge_row into now) s (λ z. refl) read in
      merge-Leads id into now s differ found target is_root j (h j y before))

Step-Rooted : {s t : CaseStore} → Step s t → Rooted s → Rooted t
Step-Rooted {s} (created p fresh e) = create_case-Rooted p s e fresh
Step-Rooted {s} (updated p e) = update_case-Rooted p s e
Step-Rooted {s} (assigned p e) = assign_case-Rooted p s e
Step-Rooted {s} (messaged p e) = add_message-Rooted p s e
Step-Rooted {s} (was_resolved b id code e) = resolve_case-Rooted b id code s e
Step-Rooted {s} (was_closed b id now e) = close_case-Rooted b id now s e
Step-Rooted {s} (reopened b id actor roles e) = reopen_case-Rooted b id actor roles s e
Step-Rooted {s} (merged b id into now e) = merge_case-Rooted b id into now s e

-- After any run of the operations from an empty table, following `merged_into_id` from any case ends after
-- finitely many steps, at a case that is there and is not merged.
pub history-Rooted : {s : CaseStore} → Reaches empty_cases s → Rooted s
unfolding find
history-Rooted here = λ id c found. cc
history-Rooted (next run step) = Step-Rooted step (history-Rooted run)

same_status_refl : (a : CaseStatus) → same_status a a ≡ true
same_status_refl open_case = refl
same_status_refl in_progress = refl
same_status_refl waiting_user = refl
same_status_refl resolved = refl
same_status_refl closed = refl

write_merge_returns :
    (id into now : ℕ) (s : CaseStore) {c : Case}
    → find_case id s ≡ some c
    → is_some c.merged_into_id ≡ false
    → write_merge id into now c.status s ≡ ok (write_case id (merge_row into now) s)
unfolding write_merge
write_merge_returns id into now s {c} found fresh =
    rw (found, same_status_refl c.status, fresh) refl

-- Two cases that are merged into each other have no chain that ends.
cycle_endless :
    (s : CaseStore) (x y : ℕ) {c d : Case}
    → find_case x s ≡ some c
    → c.merged_into_id ≡ some y
    → find_case y s ≡ some d
    → d.merged_into_id ≡ some x
    → (k : ℕ) → ((k ≡ x) ⊎ (k ≡ y))
    → Leads s k
    → ⊥
cycle_endless s x y {c} {d} at_x to_y at_y to_x k (inl e) (root {c = z} found fresh) =
    let same_row : some z ≡ some c = sym found ∙ ap (λ m. find_case m s) e ∙ at_x in ground arith
cycle_endless s x y {c} {d} at_x to_y at_y to_x k (inr e) (root {c = z} found fresh) =
    let same_row : some z ≡ some d = sym found ∙ ap (λ m. find_case m s) e ∙ at_y in ground arith
cycle_endless s x y {c} {d} at_x to_y at_y to_x k (inl e) (via {c = z} into found goes rest) =
    let same_row : some z ≡ some c = sym found ∙ ap (λ m. find_case m s) e ∙ at_x in
    cycle_endless s x y at_x to_y at_y to_x into (inr (ground arith)) rest
cycle_endless s x y {c} {d} at_x to_y at_y to_x k (inr e) (via {c = z} into found goes rest) =
    let same_row : some z ≡ some d = sym found ∙ ap (λ m. find_case m s) e ∙ at_y in
    cycle_endless s x y at_x to_y at_y to_x into (inl (ground arith)) rest

-- When a merge of one case into another and a merge of the second into the first have both passed their
-- checks before either writes, both writes succeed, and following `merged_into_id` from the first case
-- never ends.
pub merge_race :
    (b b' x y now now' : ℕ) (s : CaseStore) {r q : CaseStatus}
    → check_merge b x y s ≡ ok r
    → check_merge b' y x s ≡ ok q
    → (t u : CaseStore) × (write_merge x y now r s ≡ ok t)
      × (write_merge y x now' q t ≡ ok u)
      × (Leads u x → ⊥)
merge_race b b' x y now now' s {r} {q} first second =
    let (c, d, at_x, at_y, differ, fresh_x, fresh_y, read_r) = check_merge-eq-ok b x y s first in
    let (d', _, at_y', _, _, _, _, read_q) = check_merge-eq-ok b' y x s second in
    let t = write_case x (merge_row y now) s in
    let u = write_case y (merge_row x now') t in
    let one : d' ≡ d = ground arith in
    let r_is : r ≡ c.status = read_r in
    let q_is : q ≡ d.status = read_q ∙ ap (λ (z : Case). z.status) one in
    let x_t : find_case x t ≡ some (merge_row y now c) =
      find-write x (merge_row y now) s (λ z. refl) at_x in
    let y_t : find_case y t ≡ some d =
      rw (find-update Case.id x y (merge_row y now) s.cases (λ z. refl), differ) at_y in
    let y_u : find_case y u ≡ some (merge_row x now' d) =
      find-write y (merge_row x now') t (λ z. refl) y_t in
    let apart : y == x ≡ false = ground arith in
    let x_u : find_case x u ≡ some (merge_row y now c) =
      rw (find-update Case.id y x (merge_row x now') t.cases (λ z. refl), apart) x_t in
    (
      t,
      u,
      rw r_is (write_merge_returns x y now s at_x fresh_x),
      rw q_is (write_merge_returns y x now' t y_t fresh_y),
      cycle_endless u x y x_u refl y_u refl x (inl refl),
    )
