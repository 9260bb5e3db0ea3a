-- ===== src/Cases/Life.antt =====
-- What holds of the cases after any run of the operations, and that a case can always be brought to its
-- end.
use vielhome_backend.Base.{
  ℕ, sym, ◌≡◌, refl, Bool, true, false, ◌||◌, ◌&&◌, not, Option, none, some, List, [], ◌∷◌, is_some,
  All, arith, inl, inr, Option-cases, subst, ◌==◌,
}
use vielhome_backend.Base.Result.{
  Result, ok, forbid-eq-ok, guard-eq-ok, expect-eq-ok, >>=-eq-ok, ok-injective, ◌>>=◌,
}
use vielhome_backend.Base.Table.{update, Keyed, Unused, All-update}
use vielhome_backend.Query.{update-Keyed}
use vielhome_backend.Building.Schema.{MembershipRole}
use vielhome_backend.Cases.Defs.{
  CaseStatus, open_case, in_progress, waiting_user, resolved, closed, ResolutionCode, Case,
  CaseStore, CreateParams, create_case, find_case, assert_visible, get_case_or_throw, write_case,
  is_active, is_resolved, is_closed, same_status, new_case,
}
use vielhome_backend.Cases.Operations.{
  UpdateParams, update_case, edit_row, AssignParams, assign_case, assign_row, MessageParams,
  add_message, resolve_case, resolve_row, close_case, close_row, reopen_case, reopen_row,
  merge_case, merge_row, check_merge, write_merge,
}

-- One operation that returns; a case that is made has an id that no case has.
pub data Step (s t : CaseStore) : Type 0 where
  created :
      (p : CreateParams) → Unused Case.id p.case_id s.cases → create_case p s ≡ ok t → Step s t
  updated : (p : UpdateParams) → update_case p s ≡ ok t → Step s t
  assigned : (p : AssignParams) → assign_case p s ≡ ok t → Step s t
  messaged : (p : MessageParams) → add_message p s ≡ ok t → Step s t
  was_resolved :
      (building_id case_id : ℕ) (code : ResolutionCode)
      → resolve_case building_id case_id code s ≡ ok t
      → Step s t
  was_closed :
      (building_id case_id now : ℕ) → close_case building_id case_id now s ≡ ok t → Step s t
  reopened :
      (building_id case_id actor : ℕ) (roles : List MembershipRole)
      → reopen_case building_id case_id actor roles s ≡ ok t
      → Step s t
  merged :
      (building_id case_id into now : ℕ)
      → merge_case building_id case_id into now s ≡ ok t
      → Step s t

pub data Reaches (s : CaseStore) : CaseStore → Type 0 where
  here : Reaches s s
  next : {t u : CaseStore} → Reaches s t → Step t u → Reaches s u

abbrev pub empty_cases : CaseStore
empty_cases = record { cases = []; assignments = []; messages = [] }

-- What a status says of the resolution, the merge and the time of closing.
abbrev pub StatusSound : CaseStatus → Option ResolutionCode → Option ℕ → Option ℕ → Type 0
StatusSound resolved code into at = (is_some code ≡ true) × (into ≡ none) × (at ≡ none)
StatusSound closed code into at = ((is_some code || is_some into) ≡ true) × (is_some at ≡ true)
StatusSound _ code into at = (code ≡ none) × (into ≡ none) × (at ≡ none)

abbrev pub CaseSound : Case → Type 0
CaseSound c = StatusSound c.status c.resolution_code c.merged_into_id c.closed_at

pub record CasesSound (s : CaseStore) : Type 0 where
  pub keyed : Keyed Case.id s.cases
  pub rows : All CaseSound s.cases

write_case-CasesSound :
    (id : ℕ) (f : Case → Case) (s : CaseStore) {c : Case}
    → ((x : Case) → (f x).id ≡ x.id)
    → find_case id s ≡ some c
    → (CaseSound c → CaseSound (f c))
    → CasesSound s
    → CasesSound (write_case id f s)
write_case-CasesSound id f s {c} keeps found step h = record {
  keyed = update-Keyed Case.id id f s.cases keeps h.keyed;
  rows =
      All-update Case.id CaseSound id f s.cases
        (λ x at.
          let the_row : c ≡ x = ground arith in
          subst (λ y. CaseSound y → CaseSound (f y)) the_row step)
        h.rows;
}

-- A read that returns is of the row in the table.
pub get_case_or_throw-eq-ok :
    {A : Type 0} (building_id id : ℕ) (s : CaseStore) (rest : Case → Result A) {a : A}
    → (get_case_or_throw building_id id s >>= rest) ≡ ok a
    → (c : Case) × (find_case id s ≡ some c) × (c.building_id ≡ building_id) × (rest c ≡ ok a)
unfolding get_case_or_throw
get_case_or_throw-eq-ok building_id id s rest {a} e = elim (Option-cases (find_case id s)) [
  | inl missing ↦ ground arith
  | inr (c, found) ↦ (c, found, ground arith, ground arith)
]

or_true : (b : Bool) → (b || true) ≡ true
or_true true = refl
or_true false = refl

and_not : (a b : Bool) → (a && not b) ≡ true → b ≡ false
and_not true false e = refl
and_not true true e = cc
and_not false b e = cc

active_sound :
    (s : CaseStatus) (code : Option ResolutionCode) (into at : Option ℕ)
    → is_active s ≡ true
    → StatusSound s code into at
    → StatusSound in_progress code into at
active_sound open_case code into at e h = h
active_sound in_progress code into at e h = h
active_sound waiting_user code into at e h = h
active_sound resolved code into at e h = cc
active_sound closed code into at e h = cc

open_sound :
    (s : CaseStatus) (code : Option ResolutionCode) (into at : Option ℕ)
    → (is_resolved s || is_closed s) ≡ false
    → StatusSound s code into at
    → (into ≡ none) × (at ≡ none)
open_sound open_case code into at e (_, h, k) = (h, k)
open_sound in_progress code into at e (_, h, k) = (h, k)
open_sound waiting_user code into at e (_, h, k) = (h, k)
open_sound resolved code into at e h = cc
open_sound closed code into at e h = cc

resolved_sound :
    (s : CaseStatus) (code : Option ResolutionCode) (into at : Option ℕ)
    → is_resolved s ≡ true
    → StatusSound s code into at
    → is_some code ≡ true
resolved_sound resolved code into at e (h, _, _) = h
resolved_sound open_case code into at e h = cc
resolved_sound in_progress code into at e h = cc
resolved_sound waiting_user code into at e h = cc
resolved_sound closed code into at e h = cc

update_case-CasesSound :
    (p : UpdateParams) (s : CaseStore) {t : CaseStore}
    → update_case p s ≡ ok t
    → CasesSound s
    → CasesSound t
unfolding update_case
update_case-CasesSound p s {t} e h =
    let (c, found, _, e1) = get_case_or_throw-eq-ok p.building_id p.case_id s _ e in
    let done : t ≡ write_case p.case_id (edit_row p) s = ground arith in
    rw done (write_case-CasesSound p.case_id (edit_row p) s (λ x. refl) found (λ sound. sound) h)

assign_case-CasesSound :
    (p : AssignParams) (s : CaseStore) {t : CaseStore}
    → assign_case p s ≡ ok t
    → CasesSound s
    → CasesSound t
unfolding assign_case
assign_case-CasesSound p s {t} e h =
    let (c, found, _, e1) = get_case_or_throw-eq-ok p.building_id p.case_id s _ e in
    let active : is_active c.status ≡ true = ground arith in
    let cases : t.cases ≡ update Case.id p.case_id (assign_row p.assigned_to_id) s.cases =
      ground arith in
    let after =
      write_case-CasesSound p.case_id (assign_row p.assigned_to_id) s (λ x. refl) found
        (active_sound c.status c.resolution_code c.merged_into_id c.closed_at active) h in
    record { keyed = rw cases after.keyed; rows = rw cases after.rows }

resolve_case-CasesSound :
    (b id : ℕ) (code : ResolutionCode) (s : CaseStore) {t : CaseStore}
    → resolve_case b id code s ≡ ok t
    → CasesSound s
    → CasesSound t
unfolding resolve_case
resolve_case-CasesSound b id code s {t} e h =
    let (c, found, _, e1) = get_case_or_throw-eq-ok b id s _ e in
    let still : (is_resolved c.status || is_closed c.status) ≡ false = ground arith in
    let done : t ≡ write_case id (resolve_row code) s = ground arith in
    rw done (
      write_case-CasesSound id (resolve_row code) s (λ x. refl) found
        (λ sound.
          let (unmerged, still_open) =
            open_sound c.status c.resolution_code c.merged_into_id c.closed_at still sound in
          (refl, unmerged, still_open))
        h)

close_case-CasesSound :
    (b id now : ℕ) (s : CaseStore) {t : CaseStore}
    → close_case b id now s ≡ ok t
    → CasesSound s
    → CasesSound t
unfolding close_case
close_case-CasesSound b id now s {t} e h =
    let (c, found, _, e1) = get_case_or_throw-eq-ok b id s _ e in
    let done_with : is_resolved c.status ≡ true = ground arith in
    let done : t ≡ write_case id (close_row now) s = ground arith in
    rw done (
      write_case-CasesSound id (close_row now) s (λ x. refl) found
        (λ sound. (
          rw
              (resolved_sound c.status c.resolution_code c.merged_into_id c.closed_at done_with
                sound)
              refl,
          refl,
        ))
        h)

reopen_case-CasesSound :
    (b id actor : ℕ) (roles : List MembershipRole) (s : CaseStore) {t : CaseStore}
    → reopen_case b id actor roles s ≡ ok t
    → CasesSound s
    → CasesSound t
unfolding reopen_case
reopen_case-CasesSound b id actor roles s {t} e h =
    let (c, found, _, e1) = get_case_or_throw-eq-ok b id s _ e in
    let unmerged : c.merged_into_id ≡ none = ground arith in
    let done : t ≡ write_case id reopen_row s = ground arith in
    rw done
      (write_case-CasesSound id reopen_row s (λ x. refl) found (λ sound. (refl, unmerged, refl)) h)

-- What a merge has checked of the two cases.
pub check_merge-eq-ok :
    (b id into : ℕ) (s : CaseStore) {r : CaseStatus}
    → check_merge b id into s ≡ ok r
    → (c : Case) × (d : Case) × (find_case id s ≡ some c)
      × (find_case into s ≡ some d)
      × (id == into ≡ false)
      × (is_some c.merged_into_id ≡ false)
      × (is_some d.merged_into_id ≡ false)
      × (r ≡ c.status)
unfolding check_merge
check_merge-eq-ok b id into s {r} e =
    let (differ, e0) = forbid-eq-ok (id == into) _ _ e in
    let (c, found, _, e1) = get_case_or_throw-eq-ok b id s _ e0 in
    let (fresh, e2) = forbid-eq-ok (is_some c.merged_into_id) _ _ e1 in
    let (_, e3) = forbid-eq-ok (is_closed c.status) _ _ e2 in
    let (d, target, _, e4) = get_case_or_throw-eq-ok b into s _ e3 in
    let (root, e5) = forbid-eq-ok (is_some d.merged_into_id) _ _ e4 in
    let (_, e6) = forbid-eq-ok (is_resolved d.status || is_closed d.status) _ _ e5 in
    (c, d, found, target, differ, fresh, root, sym (ok-injective e6))

-- What a merge writes.
pub write_merge-eq-ok :
    (id into now : ℕ) (r : CaseStatus) (s : CaseStore) {t : CaseStore}
    → write_merge id into now r s ≡ ok t
    → (c : Case) × (find_case id s ≡ some c)
      × (is_some c.merged_into_id ≡ false)
      × (t ≡ write_case id (merge_row into now) s)
unfolding write_merge
write_merge-eq-ok id into now r s e =
    let (c, found, e1) = expect-eq-ok (find_case id s) _ _ e in
    let (test, e2) =
      guard-eq-ok (same_status c.status r && not (is_some c.merged_into_id)) _ _ e1 in
    (c, found, and_not _ _ test, sym (ok-injective e2))

merge_case-CasesSound :
    (b id into now : ℕ) (s : CaseStore) {t : CaseStore}
    → merge_case b id into now s ≡ ok t
    → CasesSound s
    → CasesSound t
unfolding merge_case
merge_case-CasesSound b id into now s e h =
    let (r, _, e1) = >>=-eq-ok (check_merge b id into s) _ e in
    let (c, found, _, done) = write_merge-eq-ok id into now r s e1 in
    rw done (
      write_case-CasesSound id (merge_row into now) s (λ x. refl) found
        (λ sound. (or_true (is_some c.resolution_code), refl)) h)

create_case-CasesSound :
    (p : CreateParams) (s : CaseStore) {t : CaseStore}
    → create_case p s ≡ ok t
    → Unused Case.id p.case_id s.cases
    → CasesSound s
    → CasesSound t
unfolding create_case
create_case-CasesSound p s {t} e fresh h =
    let done : t ≡ record s { cases = new_case p ∷ s.cases } = ground arith in
    rw done (record { keyed = (fresh, h.keyed); rows = ((refl, refl, refl), h.rows) })

add_message-CasesSound :
    (p : MessageParams) (s : CaseStore) {t : CaseStore}
    → add_message p s ≡ ok t
    → CasesSound s
    → CasesSound t
unfolding add_message assert_visible
add_message-CasesSound p s {t} e h =
    let (c, found, _, e1) = get_case_or_throw-eq-ok p.building_id p.case_id s _ e in
    let same_cases : t.cases ≡ s.cases = ground arith in
    record { keyed = rw same_cases h.keyed; rows = rw same_cases h.rows }

Step-CasesSound : {s t : CaseStore} → Step s t → CasesSound s → CasesSound t
Step-CasesSound {s} (created p fresh e) = create_case-CasesSound p s e fresh
Step-CasesSound {s} (updated p e) = update_case-CasesSound p s e
Step-CasesSound {s} (assigned p e) = assign_case-CasesSound p s e
Step-CasesSound {s} (messaged p e) = add_message-CasesSound p s e
Step-CasesSound {s} (was_resolved b id code e) = resolve_case-CasesSound b id code s e
Step-CasesSound {s} (was_closed b id now e) = close_case-CasesSound b id now s e
Step-CasesSound {s} (reopened b id actor roles e) = reopen_case-CasesSound b id actor roles s e
Step-CasesSound {s} (merged b id into now e) = merge_case-CasesSound b id into now s e

-- After any run of the operations from an empty table no two cases have one id, and in every case the
-- status, the resolution, the merge and the time of closing agree: a case that is open, in progress or
-- waiting has none of the three; a resolved one has a resolution and neither of the others; a closed one
-- has a time, and a resolution or the case it was merged into.
pub history-CasesSound : {s : CaseStore} → Reaches empty_cases s → CasesSound s
history-CasesSound here = record { keyed = tt; rows = tt }
history-CasesSound (next run step) = Step-CasesSound step (history-CasesSound run)
