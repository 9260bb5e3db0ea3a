-- ===== src/Building/Schema.antt =====
-- prisma/schema.prisma, the tables of modules/building. Addresses, notes and times are left out; a name or
-- a phone number is a number.
use vielhome_backend.Base.{ℕ, Bool, true, false, Option, List}

pub data MembershipRole : Type 0 where
  owner : MembershipRole
  tenant : MembershipRole
  manager : MembershipRole
  board_member : MembershipRole
  accountant : MembershipRole

pub data ManagerState : Type 0 where
  candidate : ManagerState
  provisional : ManagerState
  verified : ManagerState
  former : ManagerState
  suspended : ManagerState

pub data TenancyStatus : Type 0 where
  active : TenancyStatus
  notice_given : TenancyStatus
  ended : TenancyStatus

pub data Occupancy : Type 0 where
  vacant : Occupancy
  owner_occupied : Occupancy
  tenant_occupied : Occupancy

pub data RequestStatus : Type 0 where
  pending : RequestStatus
  approved : RequestStatus
  rejected : RequestStatus

pub record Membership : Type 0 where
  pub id : ℕ
  pub person_id : ℕ
  pub building_id : ℕ
  pub unit_id : Option ℕ
  pub role : MembershipRole
  pub manager_state : Option ManagerState
  pub is_current : Bool

pub record Ownership : Type 0 where
  pub unit_id : ℕ
  pub person_id : ℕ
  pub is_current : Bool

pub record Tenancy : Type 0 where
  pub id : ℕ
  pub unit_id : ℕ
  pub person_id : ℕ
  pub status : TenancyStatus
  pub is_current : Bool

pub record Home : Type 0 where
  pub id : ℕ
  pub building_id : ℕ
  pub occupancy : Occupancy
  pub owner_full_name : Option ℕ
  pub owner_first_name : Option ℕ
  pub owner_last_name : Option ℕ
  pub owner_phone : Option ℕ

pub record Person : Type 0 where
  pub id : ℕ
  pub phone : ℕ
  pub first_name : Option ℕ
  pub last_name : Option ℕ

pub record MembershipRequest : Type 0 where
  pub id : ℕ
  pub building_id : ℕ
  pub person_id : ℕ
  pub role : MembershipRole
  pub status : RequestStatus

pub record BuildingRow : Type 0 where
  pub id : ℕ
  pub in_recovery : Bool

pub record Registry : Type 0 where
  pub buildings : List BuildingRow
  pub units : List Home
  pub ownerships : List Ownership
  pub tenancies : List Tenancy
  pub memberships : List Membership
  pub persons : List Person
  pub requests : List MembershipRequest

abbrev pub is_owner : MembershipRole → Bool
is_owner MembershipRole.owner = true
is_owner _ = false

abbrev pub is_tenant : MembershipRole → Bool
is_tenant MembershipRole.tenant = true
is_tenant _ = false

abbrev pub is_manager : MembershipRole → Bool
is_manager MembershipRole.manager = true
is_manager _ = false
