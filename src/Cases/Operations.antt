-- ===== src/Cases/Operations.antt =====
-- modules/cases, cases.service.ts: what changes a case that is there. Each read of the case and its
-- conditional update stand together: the update finds the status that was read.
use vielhome_backend.Base.{
  ℕ, Bool, ◌&&◌, ◌||◌, not, Option, none, some, List, ◌∷◌, ◌==◌, is_some, any,
}
use vielhome_backend.Base.Result.{
  Result, ok, validation, authorization, business_rule, conflict, expect, guard, forbid, ◌>>=◌,
  ◌>>◌,
}
use vielhome_backend.Building.Schema.{MembershipRole, is_manager}
use vielhome_backend.Cases.Defs.{
  CaseStatus, open_case, in_progress, resolved, closed, CaseVisibility, CasePriority,
  ResolutionCode, Case, CaseStore, is_privileged, is_active, is_resolved, is_closed, same_status,
  find_case, get_case_or_throw, assert_visible, write_case, or_else,
}

pub record UpdateParams : Type 0 where
  pub building_id : ℕ
  pub case_id : ℕ
  pub actor_id : ℕ
  pub roles : List MembershipRole
  pub priority : Option CasePriority
  pub visibility : Option CaseVisibility

abbrev pub edit_row : UpdateParams → Case → Case
edit_row p c = record c {
  priority = or_else p.priority c.priority;
  visibility = or_else p.visibility c.visibility;
}

unfoldable pub update_case : UpdateParams → CaseStore → Result CaseStore
update_case p s = do
  found ← get_case_or_throw p.building_id p.case_id s
  guard (found.created_by_id == p.actor_id || is_privileged p.roles) authorization
  forbid (is_closed found.status) business_rule
  ok (write_case p.case_id (edit_row p) s)

pub record AssignParams : Type 0 where
  pub building_id : ℕ
  pub case_id : ℕ
  pub actor_id : ℕ
  pub assigned_to_id : ℕ
  pub assignee_roles : List MembershipRole

abbrev pub assign_row : ℕ → Case → Case
assign_row person c = record c { assignee_id = some person; status = in_progress }

unfoldable pub assign_case : AssignParams → CaseStore → Result CaseStore
assign_case p s = do
  found ← get_case_or_throw p.building_id p.case_id s
  guard (is_active found.status) business_rule
  guard (is_privileged p.assignee_roles) business_rule
  forbid (found.is_against_manager && any is_manager p.assignee_roles) business_rule
  let written = write_case p.case_id (assign_row p.assigned_to_id) s
  ok (record written {
    assignments =
        record {
          case_id = p.case_id;
          assigned_to_id = p.assigned_to_id;
          assigned_by_id = p.actor_id;
        }
        ∷ s.assignments;
  })

pub record MessageParams : Type 0 where
  pub building_id : ℕ
  pub case_id : ℕ
  pub actor_id : ℕ
  pub roles : List MembershipRole
  pub is_internal : Bool

unfoldable pub add_message : MessageParams → CaseStore → Result CaseStore
add_message p s = do
  found ← get_case_or_throw p.building_id p.case_id s
  assert_visible found p.actor_id (is_privileged p.roles)
  forbid (p.is_internal && not (is_privileged p.roles)) authorization
  guard (is_active found.status) business_rule
  ok (record s {
    messages =
        record { case_id = p.case_id; sender_id = p.actor_id; is_internal = p.is_internal }
        ∷ s.messages;
  })

abbrev pub resolve_row : ResolutionCode → Case → Case
resolve_row code c = record c { status = resolved; resolution_code = some code }

unfoldable pub resolve_case : ℕ → ℕ → ResolutionCode → CaseStore → Result CaseStore
resolve_case building_id case_id code s = do
  found ← get_case_or_throw building_id case_id s
  forbid (is_resolved found.status || is_closed found.status) business_rule
  ok (write_case case_id (resolve_row code) s)

abbrev pub close_row : ℕ → Case → Case
close_row now c = record c { status = closed; closed_at = some now }

unfoldable pub close_case : ℕ → ℕ → ℕ → CaseStore → Result CaseStore
close_case building_id case_id now s = do
  found ← get_case_or_throw building_id case_id s
  guard (is_resolved found.status) business_rule
  ok (write_case case_id (close_row now) s)

abbrev pub reopen_row : Case → Case
reopen_row c = record c { status = open_case; closed_at = none; resolution_code = none }

unfoldable pub reopen_case : ℕ → ℕ → ℕ → List MembershipRole → CaseStore → Result CaseStore
reopen_case building_id case_id actor_id roles s = do
  found ← get_case_or_throw building_id case_id s
  guard (found.created_by_id == actor_id || is_privileged roles) authorization
  guard (is_resolved found.status || is_closed found.status) business_rule
  forbid (is_some found.merged_into_id) business_rule
  ok (write_case case_id reopen_row s)

abbrev pub merge_row : ℕ → ℕ → Case → Case
merge_row into now c = record c {
  merged_into_id = some into;
  status = closed;
  closed_at = some now;
}

-- `assertNotClosed` and the other checks of `mergeCase`: the status that was read.
unfoldable pub check_merge : ℕ → ℕ → ℕ → CaseStore → Result CaseStatus
check_merge building_id case_id into s = do
  forbid (case_id == into) validation
  found ← get_case_or_throw building_id case_id s
  forbid (is_some found.merged_into_id) validation
  forbid (is_closed found.status) business_rule
  target ← get_case_or_throw building_id into s
  forbid (is_some target.merged_into_id) validation
  forbid (is_resolved target.status || is_closed target.status) validation
  ok found.status

-- `mergeCase` of the repository: the update of a case that has the expected status and is not merged.
unfoldable pub write_merge : ℕ → ℕ → ℕ → CaseStatus → CaseStore → Result CaseStore
write_merge case_id into now expected s = do
  found ← expect (find_case case_id s) conflict
  guard (same_status found.status expected && not (is_some found.merged_into_id)) conflict
  ok (write_case case_id (merge_row into now) s)

unfoldable pub merge_case : ℕ → ℕ → ℕ → ℕ → CaseStore → Result CaseStore
merge_case building_id case_id into now s = do
  expected ← check_merge building_id case_id into s
  write_merge case_id into now expected s
