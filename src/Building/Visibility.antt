-- ===== src/Building/Visibility.antt =====
-- What a person sees of a unit: unit-visibility.policy.ts, and getUnitForPerson, shapeUnitsForCaller and the
-- histories of building.service.ts with the reads of building.repository.ts. A field that is deleted from
-- the response is none.
use vielhome_backend.Base.{
  ℕ, Bool, false, ◌&&◌, ◌||◌, not, Option, none, some, List, [], ◌∷◌, ◌==◌, same, is_some, map, any,
  filter, includes, if◌then◌else◌,
}
use vielhome_backend.Base.Result.{Result, ok, authorization, guard, ◌>>=◌, ◌>>◌}
use vielhome_backend.Base.Table.{find}
use vielhome_backend.Base.Unique.{find_first}
use vielhome_backend.Building.Schema.{
  Ownership, Tenancy, Home, Occupancy, Person, is_manager, Registry,
}
use vielhome_backend.Building.Units.{
  get_own_unit, has_role, owns_now, rents_now, has_current_ownership, is_current_owner_of_unit,
}

pub record Context : Type 0 where
  pub is_manager : Bool
  pub is_current_owner_of_unit : Bool
  pub is_current_tenant_of_unit : Bool
  pub is_invited_owner_candidate : Bool

-- The fields of the owner's invitation.
pub record PendingOwner : Type 0 where
  pub full_name : Option ℕ
  pub first_name : Option ℕ
  pub last_name : Option ℕ
  pub phone : Option ℕ

pub record ShapedUnit : Type 0 where
  pub id : ℕ
  pub building_id : ℕ
  pub occupancy : Occupancy
  pub pending_owner : Option PendingOwner
  pub current_owner : Option Person
  pub current_tenant : Option Person

abbrev pub can_see_pending_owner_fields : Context → Bool
can_see_pending_owner_fields c =
    c.is_manager || c.is_current_owner_of_unit || c.is_invited_owner_candidate

-- `canSeeCurrentOwnerSummary` and `canSeeCurrentTenantSummary`, and the gate of the histories
abbrev pub can_see_residents : Context → Bool
can_see_residents c = c.is_manager || c.is_current_owner_of_unit || c.is_current_tenant_of_unit

abbrev pub pending_of : Home → PendingOwner
pending_of u = record {
  full_name = u.owner_full_name;
  first_name = u.owner_first_name;
  last_name = u.owner_last_name;
  phone = u.owner_phone;
}

-- `shapeUnit`
unfoldable pub shape_unit : Home → Context → Option Person → Option Person → ShapedUnit
shape_unit u c current_owner current_tenant = record {
  id = u.id;
  building_id = u.building_id;
  occupancy = u.occupancy;
  pending_owner = if can_see_pending_owner_fields c then some (pending_of u) else none;
  current_owner = if can_see_residents c then current_owner else none;
  current_tenant = if can_see_residents c then current_tenant else none;
}

abbrev pub person_of_owner : Registry → Option Ownership → Option Person
person_of_owner s none = none
person_of_owner s (some o) = find Person.id o.person_id s.persons

abbrev pub person_of_tenant : Registry → Option Tenancy → Option Person
person_of_tenant s none = none
person_of_tenant s (some t) = find Person.id t.person_id s.persons

-- `findCurrentOwnerSummaryForUnit`
abbrev pub current_owner_summary : ℕ → Registry → Option Person
current_owner_summary unit_id s = person_of_owner s (find_first (owns_now unit_id) s.ownerships)

-- `findCurrentTenancyForUnit` and `findCurrentTenantSummaryForUnit`
abbrev pub current_tenancy : ℕ → Registry → Option Tenancy
current_tenancy unit_id s = find_first (rents_now unit_id) s.tenancies

abbrev pub current_tenant_summary : ℕ → Registry → Option Person
current_tenant_summary unit_id s = person_of_tenant s (current_tenancy unit_id s)

abbrev pub is_tenants : Option Tenancy → ℕ → Bool
is_tenants none person = false
is_tenants (some t) person = t.person_id == person

abbrev pub phone_matches : Home → Option Person → Bool
phone_matches u none = false
phone_matches u (some caller) = same u.owner_phone (some caller.phone)

abbrev pub is_invited : Bool → Bool → Home → Option Person → Bool
is_invited is_owner is_owned u caller = not is_owner && not is_owned && phone_matches u caller

-- The context of `getUnitForPerson`
abbrev pub person_context : ℕ → Home → ℕ → Registry → Context
person_context building_id u person s =
    let is_owner = is_current_owner_of_unit u.id person s in
    record {
      is_manager = has_role is_manager person building_id s;
      is_current_owner_of_unit = is_owner;
      is_current_tenant_of_unit = is_tenants (current_tenancy u.id s) person;
      is_invited_owner_candidate =
          is_invited is_owner (has_current_ownership u.id s) u (find Person.id person s.persons);
    }

-- `getUnitForPerson`, its shaped unit
unfoldable pub get_unit_for_person : ℕ → ℕ → ℕ → Registry → Result ShapedUnit
get_unit_for_person building_id unit_id person s = do
  unit ← get_own_unit building_id unit_id s
  ok (
      shape_unit unit (person_context building_id unit person s) (current_owner_summary unit.id s)
        (current_tenant_summary unit.id s))

-- `unit: { buildingId }`
abbrev pub in_building : ℕ → Registry → ℕ → Bool
in_building building_id s unit_id =
    any (λ (u : Home). u.id == unit_id && u.building_id == building_id) s.units

-- `findCurrentOwnedUnitIdsForPerson`
abbrev pub owned_unit_ids : ℕ → ℕ → Registry → List ℕ
owned_unit_ids building_id person s =
    map (λ (o : Ownership). o.unit_id)
      (filter
        (λ (o : Ownership).
          o.is_current && o.person_id == person && in_building building_id s o.unit_id)
        s.ownerships)

-- `findCurrentTenantUnitIdsForPerson`
abbrev pub tenant_unit_ids : ℕ → ℕ → Registry → List ℕ
tenant_unit_ids building_id person s =
    map (λ (t : Tenancy). t.unit_id)
      (filter
        (λ (t : Tenancy).
          t.is_current && t.person_id == person && in_building building_id s t.unit_id)
        s.tenancies)

-- `findUnitIdsWithCurrentOwnership`
abbrev pub unit_ids_with_ownership : ℕ → Registry → List ℕ
unit_ids_with_ownership building_id s =
    map (λ (o : Ownership). o.unit_id)
      (filter (λ (o : Ownership). o.is_current && in_building building_id s o.unit_id) s.ownerships)

-- `new Map(rows.map(row => [row.unitId, row])).get(unitId)`: the last row of the unit.
abbrev pub find_last : {A : Type 0} → (A → Bool) → List A → Option A
find_last test [] = none
find_last test (x ∷ xs) =
    let later = find_last test xs in
    if is_some later then later else if test x then some x else none

-- The context of `shapeUnitsForCaller`
abbrev pub listed_context : ℕ → Home → ℕ → Registry → Context
listed_context building_id u person s =
    let is_owner = includes (owned_unit_ids building_id person s) u.id in
    record {
      is_manager = has_role is_manager person building_id s;
      is_current_owner_of_unit = is_owner;
      is_current_tenant_of_unit = includes (tenant_unit_ids building_id person s) u.id;
      is_invited_owner_candidate =
          is_invited is_owner (includes (unit_ids_with_ownership building_id s) u.id) u
            (find Person.id person s.persons);
    }

-- `shapeUnitsForCaller`, one unit of the list
unfoldable pub shape_listed : ℕ → ℕ → Registry → Home → ShapedUnit
shape_listed building_id person s u =
    shape_unit u (listed_context building_id u person s)
      (person_of_owner s (find_last (owns_now u.id) s.ownerships))
      (person_of_tenant s (find_last (rents_now u.id) s.tenancies))

-- `listUnits`
unfoldable pub list_units : ℕ → ℕ → Registry → List ShapedUnit
list_units building_id person s =
    map (shape_listed building_id person s)
      (filter (λ (u : Home). u.building_id == building_id) s.units)

-- `shapeHistoryEntry` of an ownership
abbrev pub history_person : Context → ℕ → ℕ → Option ℕ
history_person c owner_id caller =
    if c.is_manager || owner_id == caller then some owner_id else none

-- `buildHistoryAccessContext`
abbrev pub history_context : ℕ → ℕ → ℕ → Registry → Context
history_context building_id unit_id person s = record {
  is_manager = has_role is_manager person building_id s;
  is_current_owner_of_unit = is_current_owner_of_unit unit_id person s;
  is_current_tenant_of_unit = is_tenants (current_tenancy unit_id s) person;
  is_invited_owner_candidate = false;
}

-- `getOwnershipHistory`: whose each row is, where the caller may know it.
unfoldable pub get_ownership_history : ℕ → ℕ → ℕ → Registry → Result (List (Option ℕ))
get_ownership_history building_id unit_id person s = do
  unit ← get_own_unit building_id unit_id s
  guard (can_see_residents (history_context building_id unit_id person s)) authorization
  ok (
      map
        (λ (o : Ownership).
          history_person (history_context building_id unit_id person s) o.person_id person)
        (filter (λ (o : Ownership). o.unit_id == unit_id) s.ownerships))
