-- ===== src/Cases/Defs.antt =====
-- modules/cases: the rows of a case, and the operations of cases.service.ts on them. Titles, texts and
-- the notes of an assignment are left out.
use vielhome_backend.Base.{
  ℕ, Bool, true, false, ◌||◌, not, Option, none, some, List, ◌∷◌, ◌==◌, same, is_some, any,
}
use vielhome_backend.Base.Result.{Result, ok, authorization, not_found, expect, guard, ◌>>=◌, ◌>>◌}
use vielhome_backend.Base.Table.{find, update}
use vielhome_backend.Building.Schema.{MembershipRole, manager, board_member, accountant}

pub data CaseStatus : Type 0 where
  open_case : CaseStatus
  in_progress : CaseStatus
  waiting_user : CaseStatus
  resolved : CaseStatus
  closed : CaseStatus

pub data CaseVisibility : Type 0 where
  everyone : CaseVisibility
  restricted : CaseVisibility

pub data CasePriority : Type 0 where
  low : CasePriority
  normal : CasePriority
  high : CasePriority
  urgent : CasePriority

pub data ResolutionCode : Type 0 where
  completed : ResolutionCode
  rejected : ResolutionCode
  duplicate_case : ResolutionCode
  invalid : ResolutionCode
  external_resolution : ResolutionCode
  other : ResolutionCode

pub record Case : Type 0 where
  pub id : ℕ
  pub building_id : ℕ
  pub unit_id : Option ℕ
  pub status : CaseStatus
  pub priority : CasePriority
  pub visibility : CaseVisibility
  pub is_against_manager : Bool
  pub created_by_id : ℕ
  pub assignee_id : Option ℕ
  pub resolution_code : Option ResolutionCode
  pub merged_into_id : Option ℕ
  pub closed_at : Option ℕ

pub record Assignment : Type 0 where
  pub case_id : ℕ
  pub assigned_to_id : ℕ
  pub assigned_by_id : ℕ

pub record Message : Type 0 where
  pub case_id : ℕ
  pub sender_id : ℕ
  pub is_internal : Bool

pub record CaseStore : Type 0 where
  pub cases : List Case
  pub assignments : List Assignment
  pub messages : List Message

-- `PRIVILEGED_ROLES.includes(role)`
abbrev pub is_privileged_role : MembershipRole → Bool
is_privileged_role manager = true
is_privileged_role board_member = true
is_privileged_role accountant = true
is_privileged_role _ = false

-- `isPrivileged`
abbrev pub is_privileged : List MembershipRole → Bool
is_privileged roles = any is_privileged_role roles

-- `ACTIVE_STATUSES.includes(status)`
abbrev pub is_active : CaseStatus → Bool
is_active open_case = true
is_active in_progress = true
is_active waiting_user = true
is_active _ = false

abbrev pub is_resolved : CaseStatus → Bool
is_resolved resolved = true
is_resolved _ = false

abbrev pub is_closed : CaseStatus → Bool
is_closed closed = true
is_closed _ = false

-- `a.status === b.status`
abbrev pub same_status : CaseStatus → CaseStatus → Bool
same_status open_case open_case = true
same_status in_progress in_progress = true
same_status waiting_user waiting_user = true
same_status resolved resolved = true
same_status closed closed = true
same_status _ _ = false

abbrev pub is_public : CaseVisibility → Bool
is_public everyone = true
is_public restricted = false

abbrev pub find_case : ℕ → CaseStore → Option Case
find_case id s = find Case.id id s.cases

-- `getCaseOrThrow`
unfoldable pub get_case_or_throw : ℕ → ℕ → CaseStore → Result Case
get_case_or_throw building_id case_id s = do
  found ← expect (find_case case_id s) not_found
  guard (found.building_id == building_id) not_found
  ok found

-- `assertVisible`
unfoldable pub assert_visible : Case → ℕ → Bool → Result (Unit {0})
assert_visible c person privileged =
    guard
      (is_public c.visibility
        || c.created_by_id == person
        || same c.assignee_id (some person)
        || privileged)
      authorization

abbrev pub write_case : ℕ → (Case → Case) → CaseStore → CaseStore
write_case id f s = record s { cases = update Case.id id f s.cases }

pub record CreateParams : Type 0 where
  pub case_id : ℕ
  pub building_id : ℕ
  pub building_found : Bool
  pub unit_id : Option ℕ
  pub unit_building_id : Option ℕ
  pub priority : Option CasePriority
  pub visibility : Option CaseVisibility
  pub is_against_manager : Option Bool
  pub actor_id : ℕ

-- `value ?? fallback`
abbrev pub or_else : {A : Type 0} → Option A → A → A
or_else none fallback = fallback
or_else (some value) fallback = value

abbrev pub new_case : CreateParams → Case
new_case p = record {
  id = p.case_id;
  building_id = p.building_id;
  unit_id = p.unit_id;
  status = open_case;
  priority = or_else p.priority normal;
  visibility = or_else p.visibility restricted;
  is_against_manager = or_else p.is_against_manager false;
  created_by_id = p.actor_id;
  assignee_id = none;
  resolution_code = none;
  merged_into_id = none;
  closed_at = none;
}

-- A unit that is named is one of the building.
abbrev pub unit_ok : CreateParams → Bool
unit_ok p = not (is_some p.unit_id) || same p.unit_building_id (some p.building_id)

unfoldable pub create_case : CreateParams → CaseStore → Result CaseStore
create_case p s = do
  guard p.building_found not_found
  guard (unit_ok p) not_found
  ok (record s { cases = new_case p ∷ s.cases })
