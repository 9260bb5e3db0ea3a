-- ===== src/Cases/Ends.antt =====
-- A case can always be brought to its end: resolveCase and closeCase of cases.service.ts one after the
-- other.
use vielhome_backend.Base.{ℕ, ◌≡◌, refl, true, false, ◌||◌, some, inl, inr, Bool-cases, ==_refl}
use vielhome_backend.Base.Result.{ok}
use vielhome_backend.Base.Table.{find-update}
use vielhome_backend.Cases.Defs.{
  closed, ResolutionCode, Case, CaseStore, find_case, get_case_or_throw, write_case, is_resolved,
  is_closed,
}
use vielhome_backend.Cases.Operations.{resolve_case, resolve_row, close_case, close_row}
use vielhome_backend.Cases.Life.{Reaches, here, next, was_resolved, was_closed}

-- A case that is written is read back.
pub find-write :
    (id : ℕ) (f : Case → Case) (s : CaseStore) {c : Case}
    → ((x : Case) → (f x).id ≡ x.id)
    → find_case id s ≡ some c
    → find_case id (write_case id f s) ≡ some (f c)
find-write id f s keeps found =
    rw (find-update Case.id id id f s.cases keeps, ==_refl id, found) refl

get_case_or_throw_found :
    (b id : ℕ) (s : CaseStore) {c : Case}
    → find_case id s ≡ some c
    → c.building_id ≡ b
    → get_case_or_throw b id s ≡ ok c
unfolding get_case_or_throw
get_case_or_throw_found b id s {c} found here_it_is = rw (found, here_it_is, ==_refl b) refl

resolve_case_returns :
    (b id : ℕ) (code : ResolutionCode) (s : CaseStore) {c : Case}
    → find_case id s ≡ some c
    → c.building_id ≡ b
    → (is_resolved c.status || is_closed c.status) ≡ false
    → resolve_case b id code s ≡ ok (write_case id (resolve_row code) s)
unfolding resolve_case
resolve_case_returns b id code s found in_building unresolved =
    rw (get_case_or_throw_found b id s found in_building, unresolved) refl

close_case_returns :
    (b id now : ℕ) (s : CaseStore) {c : Case}
    → find_case id s ≡ some c
    → c.building_id ≡ b
    → is_resolved c.status ≡ true
    → close_case b id now s ≡ ok (write_case id (close_row now) s)
unfolding close_case
close_case_returns b id now s found in_building is_done =
    rw (get_case_or_throw_found b id s found in_building, is_done) refl

-- A case of the building that is not closed can be closed: from any store there is a run of the operations
-- after which the case is closed, and has a resolution unless it was resolved without one before.
pub case_can_close :
    (b id now : ℕ) (code : ResolutionCode) (s : CaseStore) {c : Case}
    → find_case id s ≡ some c
    → c.building_id ≡ b
    → is_closed c.status ≡ false
    → (t : CaseStore) × (d : Case) × Reaches s t
      × (find_case id t ≡ some d)
      × (d.status ≡ closed)
      × (d.closed_at ≡ some now)
      × (is_resolved c.status ≡ false → d.resolution_code ≡ some code)
case_can_close b id now code s {c} found in_building not_closed =
    elim (Bool-cases (is_resolved c.status)) [
      | inl is_done ↦ (
        write_case id (close_row now) s,
        close_row now c,
        next here (was_closed b id now (close_case_returns b id now s found in_building is_done)),
        find-write id (close_row now) s (λ x. refl) found,
        refl,
        refl,
        λ unresolved. cc,
      )
      | inr unresolved ↦
          let t = write_case id (resolve_row code) s in
          let mid : find_case id t ≡ some (resolve_row code c) =
            find-write id (resolve_row code) s (λ x. refl) found in
          (
            write_case id (close_row now) t,
            close_row now (resolve_row code c),
            next
                (next here (
                  was_resolved b id code (
                    resolve_case_returns b id code s found in_building
                      (rw (unresolved, not_closed) refl))))
                (was_closed b id now (close_case_returns b id now t mid in_building refl)),
            find-write id (close_row now) t (λ x. refl) mid,
            refl,
            refl,
            λ _. refl,
          )
    ]
