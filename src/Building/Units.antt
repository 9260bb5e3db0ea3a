-- ===== src/Building/Units.antt =====
-- Owners and tenants of a unit: building.service.ts with building.repository.ts, and the policies for
-- tenancies and ownership claims. A new membership takes its id from the parameters.
use vielhome_backend.Base.{
  ℕ, Bool, true, false, ◌&&◌, ◌||◌, not, Option, none, some, List, [], ◌∷◌, ◌==◌, same, filter, any,
}
use vielhome_backend.Base.Result.{
  Result, ok, authorization, not_found, business_rule, expect, guard, forbid, ◌>>=◌, ◌>>◌,
}
use vielhome_backend.Base.Table.{find, update}
use vielhome_backend.Base.Count.{update_many}
use vielhome_backend.Building.Schema.{
  MembershipRole, owner, tenant, is_owner, is_tenant, is_manager, Membership, Ownership, Tenancy,
  TenancyStatus, active, notice_given, ended, Home, vacant, tenant_occupied, Person, BuildingRow,
  Registry,
}

-- `getOwnUnit`
unfoldable pub get_own_unit : ℕ → ℕ → Registry → Result Home
get_own_unit building_id unit_id s = do
  building ← expect (find BuildingRow.id building_id s.buildings) not_found
  unit ← expect (find Home.id unit_id s.units) not_found
  guard (unit.building_id == building_id) not_found
  ok unit

abbrev pub has_role : (MembershipRole → Bool) → ℕ → ℕ → Registry → Bool
has_role test person building_id s =
    any
      (λ (m : Membership).
        m.is_current && m.person_id == person && m.building_id == building_id && test m.role)
      s.memberships

-- The rows that `where: { unitId, isCurrent: true }` selects, and those of one person among them.
abbrev pub owns_now : ℕ → Ownership → Bool
owns_now unit_id o = o.is_current && o.unit_id == unit_id

abbrev pub person_owns : ℕ → ℕ → Ownership → Bool
person_owns unit_id person o = o.is_current && o.unit_id == unit_id && o.person_id == person

abbrev pub rents_now : ℕ → Tenancy → Bool
rents_now unit_id t = t.is_current && t.unit_id == unit_id

abbrev pub person_rents : ℕ → ℕ → Tenancy → Bool
person_rents unit_id person t = t.is_current && t.unit_id == unit_id && t.person_id == person

abbrev pub owner_member : ℕ → Membership → Bool
owner_member unit_id m = m.is_current && is_owner m.role && same m.unit_id (some unit_id)

abbrev pub tenant_member : ℕ → ℕ → Membership → Bool
tenant_member unit_id person m =
    m.is_current && is_tenant m.role && same m.unit_id (some unit_id) && m.person_id == person

abbrev pub has_current_ownership : ℕ → Registry → Bool
has_current_ownership unit_id s = any (owns_now unit_id) s.ownerships

abbrev pub is_current_owner_of_unit : ℕ → ℕ → Registry → Bool
is_current_owner_of_unit unit_id person s = any (person_owns unit_id person) s.ownerships

-- `person.firstName === null && firstName`
abbrev pub fill_missing : Option ℕ → Option ℕ → Option ℕ
fill_missing none offered = offered
fill_missing (some own) offered = some own

abbrev pub fill_row : Option ℕ → Option ℕ → Person → Person
fill_row first last p = record p {
  first_name = fill_missing p.first_name first;
  last_name = fill_missing p.last_name last;
}

unfoldable pub fill_missing_person_name : ℕ → Option ℕ → Option ℕ → List Person → List Person
fill_missing_person_name person first last = update Person.id person (fill_row first last)

abbrev pub unit_membership : ℕ → ℕ → ℕ → ℕ → MembershipRole → Membership
unit_membership id person building_id unit_id role = record {
  id = id;
  person_id = person;
  building_id = building_id;
  unit_id = some unit_id;
  role = role;
  manager_state = none;
  is_current = true;
}

-- `linkOwnerToUnit`
unfoldable pub link_owner_to_unit : ℕ → ℕ → Home → Registry → Registry
link_owner_to_unit membership_id person unit s = record s {
  ownerships = record { unit_id = unit.id; person_id = person; is_current = true } ∷ s.ownerships;
  memberships = unit_membership membership_id person unit.building_id unit.id owner ∷ s.memberships;
  persons = fill_missing_person_name person unit.owner_first_name unit.owner_last_name s.persons;
}

-- `findUnlinkedOwnerUnitsByPhone`
unfoldable pub find_unlinked_owner_units_by_phone : ℕ → Registry → List Home
find_unlinked_owner_units_by_phone phone s =
    filter (λ (u : Home). same u.owner_phone (some phone) && not (has_current_ownership u.id s))
      s.units

-- The loop of `linkOwnerAccountByPhone`, with the ids of its memberships.
abbrev pub link_units : (ℕ → ℕ) → ℕ → List Home → Registry → Registry
link_units ids person [] s = s
link_units ids person (u ∷ us) s =
    link_units ids person us (link_owner_to_unit (ids u.id) person u s)

unfoldable pub link_owner_account_by_phone : (ℕ → ℕ) → ℕ → ℕ → Registry → Registry
link_owner_account_by_phone ids person phone s =
    link_units ids person (find_unlinked_owner_units_by_phone phone s) s

-- `claimOwnership`
unfoldable pub claim_ownership : ℕ → ℕ → ℕ → ℕ → Registry → Result Registry
claim_ownership building_id unit_id person membership_id s = do
  unit ← get_own_unit building_id unit_id s
  caller ← expect (find Person.id person s.persons) not_found
  forbid (has_current_ownership unit_id s) business_rule
  guard (same unit.owner_phone (some caller.phone)) authorization
  ok (link_owner_to_unit membership_id person unit s)

abbrev pub end_ownership : Ownership → Ownership
end_ownership o = record o { is_current = false }

abbrev pub end_membership : Membership → Membership
end_membership m = record m { is_current = false }

abbrev pub hand_over : ℕ → Home → Home
hand_over phone u = record u { owner_phone = some phone; owner_full_name = none }

-- `transferOwnership`
unfoldable pub transfer_ownership : ℕ → ℕ → ℕ → ℕ → Registry → Result Registry
transfer_ownership building_id unit_id phone actor s = do
  unit ← get_own_unit building_id unit_id s
  guard (is_current_owner_of_unit unit_id actor s) authorization
  ok (record s {
    ownerships = update_many (owns_now unit_id) end_ownership s.ownerships;
    memberships = update_many (owner_member unit_id) end_membership s.memberships;
    units = update Home.id unit_id (hand_over phone) s.units;
  })

pub record TenancyParams : Type 0 where
  pub building_id : ℕ
  pub unit_id : ℕ
  pub tenant_id : ℕ
  pub actor_id : ℕ
  pub tenancy_id : ℕ
  pub membership_id : ℕ

abbrev pub owner_or_manager : ℕ → ℕ → ℕ → Registry → Bool
owner_or_manager building_id unit_id actor s =
    is_current_owner_of_unit unit_id actor s || has_role is_manager actor building_id s

-- `createTenancy`
unfoldable pub create_tenancy : TenancyParams → Registry → Result Registry
create_tenancy p s = do
  unit ← get_own_unit p.building_id p.unit_id s
  guard (owner_or_manager p.building_id p.unit_id p.actor_id s) authorization
  guard (has_current_ownership p.unit_id s) business_rule
  forbid (any (rents_now p.unit_id) s.tenancies) business_rule
  ok (record s {
    tenancies =
        record {
          id = p.tenancy_id;
          unit_id = p.unit_id;
          person_id = p.tenant_id;
          status = active;
          is_current = true;
        }
        ∷ s.tenancies;
    memberships =
        unit_membership p.membership_id p.tenant_id p.building_id p.unit_id tenant ∷ s.memberships;
    units = update Home.id p.unit_id (λ u. record u { occupancy = tenant_occupied }) s.units;
  })

-- `getOwnTenancy` and `assertManagesUnit` of a tenancy
unfoldable pub get_managed_tenancy : ℕ → ℕ → ℕ → Registry → Result Tenancy
get_managed_tenancy building_id tenancy_id actor s = do
  tenancy ← expect (find Tenancy.id tenancy_id s.tenancies) not_found
  unit ← get_own_unit building_id tenancy.unit_id s
  guard (owner_or_manager building_id tenancy.unit_id actor s || tenancy.person_id == actor)
      authorization
  ok tenancy

abbrev pub is_active_tenancy : TenancyStatus → Bool
is_active_tenancy active = true
is_active_tenancy _ = false

abbrev pub is_open_tenancy : TenancyStatus → Bool
is_open_tenancy ended = false
is_open_tenancy _ = true

abbrev pub notice_row : Tenancy → Tenancy
notice_row t = record t { status = notice_given }

-- `giveTenancyNotice`
unfoldable pub give_tenancy_notice : ℕ → ℕ → ℕ → Registry → Result Registry
give_tenancy_notice building_id tenancy_id actor s = do
  tenancy ← get_managed_tenancy building_id tenancy_id actor s
  guard (is_active_tenancy tenancy.status) business_rule
  ok (record s { tenancies = update Tenancy.id tenancy_id notice_row s.tenancies })

abbrev pub end_row : Tenancy → Tenancy
end_row t = record t { is_current = false; status = ended }

-- `endTenancy`
unfoldable pub end_tenancy : ℕ → ℕ → ℕ → Registry → Result Registry
end_tenancy building_id tenancy_id actor s = do
  tenancy ← get_managed_tenancy building_id tenancy_id actor s
  guard (is_open_tenancy tenancy.status) business_rule
  ok (record s {
    tenancies = update Tenancy.id tenancy_id end_row s.tenancies;
    memberships =
        update_many (tenant_member tenancy.unit_id tenancy.person_id) end_membership s.memberships;
    units = update Home.id tenancy.unit_id (λ u. record u { occupancy = vacant }) s.units;
  })

-- `canClaimOwnership` of `getUnitForPerson`
unfoldable pub can_claim_ownership : Home → Person → Registry → Bool
can_claim_ownership unit caller s =
    not (is_current_owner_of_unit unit.id caller.id s)
    && not (has_current_ownership unit.id s)
    && same unit.owner_phone (some caller.phone)

-- `inviteOwner`: the full name and the phone number.
unfoldable pub invite_owner : ℕ → ℕ → ℕ → ℕ → Registry → Result Registry
invite_owner building_id unit_id full_name phone s = do
  unit ← get_own_unit building_id unit_id s
  ok (record s {
    units =
        update Home.id unit_id
          (λ u. record u { owner_full_name = some full_name; owner_phone = some phone }) s.units;
  })

-- `inviteOwnerV2`: also the first and the last name; how the full name is made of them is an argument.
unfoldable pub invite_owner_v2 : (ℕ → ℕ → ℕ) → ℕ → ℕ → ℕ → ℕ → ℕ → Registry → Result Registry
invite_owner_v2 join building_id unit_id first last phone s = do
  unit ← get_own_unit building_id unit_id s
  ok (record s {
    units =
        update Home.id unit_id
          (λ u. record u {
            owner_first_name = some first;
            owner_last_name = some last;
            owner_full_name = some (join first last);
            owner_phone = some phone;
          })
          s.units;
  })
