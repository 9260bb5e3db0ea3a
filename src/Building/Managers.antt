-- ===== src/Building/Managers.antt =====
-- The manager of a building: createBuilding, membership requests, changeManager and endManagement of
-- building.service.ts with building.repository.ts and manager-assignment.policy.ts; and the decisions of
-- modules/backoffice on a manager (manager-verification.service.ts, backoffice.repository.ts).
use vielhome_backend.Base.{
  ℕ, ◌*◌, ◌/◌, leb, ltb, Bool, true, false, ◌&&◌, not, Option, none, some, List, [], ◌∷◌, ◌++◌,
  ◌==◌, is_some, any, if◌then◌else◌, zero, suc,
}
use vielhome_backend.Base.Result.{
  Result, ok, err, not_found, conflict, business_rule, expect, guard, forbid, ◌>>=◌, ◌>>◌,
}
use vielhome_backend.Base.Table.{find, update}
use vielhome_backend.Base.Unique.{find_first}
use vielhome_backend.Building.Schema.{
  MembershipRole, manager, is_manager, Membership, ManagerState, provisional, verified, former,
  suspended, MembershipRequest, RequestStatus, approved, rejected, BuildingRow, Home, vacant,
  Registry,
}

-- Whether a membership is the building's current manager.
abbrev pub manages_now : ℕ → Membership → Bool
manages_now building_id m = m.is_current && is_manager m.role && m.building_id == building_id

-- `getCurrentManagerMembership`: a `findFirst` without an order, which takes any of the rows; here it is the
-- first of the table.
abbrev pub current_manager : ℕ → Registry → Option Membership
current_manager building_id s = find_first (manages_now building_id) s.memberships

abbrev pub set_recovery : ℕ → Bool → Registry → Registry
set_recovery building_id entering s = record s {
  buildings =
      update BuildingRow.id building_id (λ b. record b { in_recovery = entering }) s.buildings;
}

abbrev pub retire : Membership → Membership
retire m = record m { is_current = false; manager_state = some former }

abbrev pub building_membership : ℕ → ℕ → ℕ → MembershipRole → Option ManagerState → Membership
building_membership id person building_id role state = record {
  id = id;
  person_id = person;
  building_id = building_id;
  unit_id = none;
  role = role;
  manager_state = state;
  is_current = true;
}

-- The state of a new row: `role === 'MANAGER' ? 'PROVISIONAL' : null`
abbrev pub first_state : MembershipRole → Option ManagerState
first_state role = if is_manager role then some provisional else none

abbrev pub skeleton : (ℕ → ℕ) → ℕ → ℕ → List Home
skeleton ids building_id zero = []
skeleton ids building_id (suc n) =
    record {
      id = ids n;
      building_id = building_id;
      occupancy = vacant;
      owner_full_name = none;
      owner_first_name = none;
      owner_last_name = none;
      owner_phone = none;
    }
    ∷ skeleton ids building_id n

-- `createBuildingWithFoundingMember`: the role is OWNER or MANAGER.
unfoldable pub create_building : ℕ → ℕ → ℕ → MembershipRole → (ℕ → ℕ) → ℕ → Registry → Registry
create_building building_id membership_id person role ids total_units s = record s {
  buildings = record { id = building_id; in_recovery = false } ∷ s.buildings;
  memberships =
      building_membership membership_id person building_id role (first_state role) ∷ s.memberships;
  units = skeleton ids building_id total_units ++ s.units;
}

-- `createMembership`
abbrev pub create_membership : ℕ → MembershipRequest → Registry → Registry
create_membership membership_id r s = record s {
  memberships =
      building_membership membership_id r.person_id r.building_id r.role (first_state r.role)
      ∷ s.memberships;
}

abbrev pub set_request : ℕ → RequestStatus → Registry → Registry
set_request id status s = record s {
  requests = update MembershipRequest.id id (λ r. record r { status = status }) s.requests;
}

-- A request of the building that is resolved: the status is written first, in a transaction of its own, so
-- the store that is left when a check throws is part of the result.
unfoldable pub resolve_found :
    MembershipRequest → Bool → ℕ → Registry → Registry × Result (Unit {0})
resolve_found r false membership_id s = (set_request r.id rejected s, ok tt)
resolve_found r true membership_id s =
    let written = set_request r.id approved s in
    if is_manager r.role && is_some (current_manager r.building_id written)
    then (written, err conflict)
    else (create_membership membership_id r written, ok tt)

-- `resolveMembershipRequest`
unfoldable pub resolve_membership_request :
    ℕ → ℕ → Bool → ℕ → Registry → Registry × Result (Unit {0})
resolve_membership_request building_id request_id is_approved membership_id s =
    elim (find MembershipRequest.id request_id s.requests) [
      | none ↦ (s, err not_found)
      | some r ↦
          if r.building_id == building_id
          then resolve_found r is_approved membership_id s
          else (s, err not_found)
    ]

abbrev pub roles_in_building : ℕ → ℕ → Registry → Bool
roles_in_building person building_id s =
    any (λ (m : Membership). m.is_current && m.person_id == person && m.building_id == building_id)
      s.memberships

-- `assertNotSelfHandoff`
abbrev pub is_self_handoff : Option Membership → ℕ → Bool
is_self_handoff none person = false
is_self_handoff (some m) person = m.person_id == person

abbrev pub retire_current : Option Membership → List Membership → List Membership
retire_current none ms = ms
retire_current (some m) ms = update Membership.id m.id retire ms

-- `changeManager`; the assignment is a bare claim (PROVISIONAL) or confirmed.
unfoldable pub change_manager : ℕ → ℕ → Bool → ℕ → Registry → Result Registry
change_manager building_id person is_claim membership_id s = do
  building ← expect (find BuildingRow.id building_id s.buildings) not_found
  forbid (is_self_handoff (current_manager building_id s) person) business_rule
  guard (roles_in_building person building_id s) business_rule
  let state = if is_claim then provisional else verified
  let handed = record s {
    memberships =
        building_membership membership_id person building_id manager (some state)
        ∷ retire_current (current_manager building_id s) s.memberships;
  }
  ok (if is_claim then handed else set_recovery building_id false handed)

-- `endManagement`
unfoldable pub end_management : ℕ → Registry → Result Registry
end_management building_id s = do
  current ← expect (current_manager building_id s) business_rule
  ok (record s { memberships = update Membership.id current.id retire s.memberships })

pub data Decision : Type 0 where
  approve : Decision
  reject : Decision
  suspend : Decision

-- A case of the verification queue: whose membership it is about.
pub record VerificationCase : Type 0 where
  pub building_id : ℕ
  pub membership_id : ℕ
  pub candidate_id : ℕ
  pub is_pending : Bool

abbrev pub rejects : Decision → Bool
rejects reject = true
rejects _ = false

abbrev pub approves : Decision → Bool
approves approve = true
approves _ = false

-- `membershipData`
abbrev pub decide_row : Decision → Membership → Membership
decide_row approve m = record m { manager_state = some verified; is_current = true }
decide_row reject m = record m { manager_state = some former; is_current = false }
decide_row suspend m = record m { manager_state = some suspended; is_current = true }

abbrev pub competes : ℕ → ℕ → Membership → Bool
competes building_id membership_id m = manages_now building_id m && not (m.id == membership_id)

-- The row that the `where` of the decision selects.
abbrev pub of_case : VerificationCase → Membership → Bool
of_case k m = m.building_id == k.building_id && m.person_id == k.candidate_id

-- `decideManagerVerificationCaseAtomically`, and after `castManagerVerificationApprovalAtomically` has
-- counted enough owners the same writes with the decision to approve.
unfoldable pub decide_case : VerificationCase → Decision → Registry → Result Registry
decide_case k decision s = do
  guard k.is_pending conflict
  forbid (not (rejects decision) && any (competes k.building_id k.membership_id) s.memberships)
      conflict
  m ← expect (find Membership.id k.membership_id s.memberships) conflict
  guard (of_case k m) conflict
  building ← expect (find BuildingRow.id k.building_id s.buildings) conflict
  let written = record s {
    memberships = update Membership.id k.membership_id (decide_row decision) s.memberships;
  }
  ok (set_recovery k.building_id (not (approves decision)) written)

-- `meetsApprovalThreshold`, and the same test in `castManagerVerificationApprovalAtomically`
unfoldable pub meets_approval_threshold : ℕ → ℕ → ℕ → Bool
meets_approval_threshold approvers total_owners required_percent =
    ltb 0 total_owners && leb (total_owners * required_percent) (approvers * 100)

-- `computeApprovalPercent`
unfoldable pub compute_approval_percent : ℕ → ℕ → ℕ
compute_approval_percent approvers total_owners =
    if ltb 0 total_owners then approvers * 100 / total_owners else 0
