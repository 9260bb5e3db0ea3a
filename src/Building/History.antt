-- ===== src/Building/History.antt =====
-- Every run of the operations on the tables of modules/building keeps the invariant.
use vielhome_backend.Base.{ℕ, sym, ◌≡◌, refl, Bool, List, [], arith}
use vielhome_backend.Base.Result.{ok, >>=-eq-ok, ok-injective}
use vielhome_backend.Base.Table.{update, Unused}
use vielhome_backend.Query.{update-Keyed}
use vielhome_backend.Building.Schema.{
  MembershipRole, Membership, Tenancy, Home, Person, MembershipRequest, Registry,
}
use vielhome_backend.Building.Units.{
  get_own_unit, find_unlinked_owner_units_by_phone, link_owner_account_by_phone, claim_ownership,
  transfer_ownership, TenancyParams, create_tenancy, give_tenancy_notice, end_tenancy, invite_owner,
  invite_owner_v2,
}
use vielhome_backend.Building.Managers.{
  current_manager, retire_current, create_building, resolve_membership_request, change_manager,
  end_management, VerificationCase, Decision, decide_case,
}
use vielhome_backend.Building.Sound.{
  InOrder, FreshLinks, link_owner_account_by_phone-InOrder, claim_ownership-InOrder,
  transfer_ownership-InOrder, create_tenancy-InOrder, give_tenancy_notice-InOrder,
  end_tenancy-InOrder,
}
use vielhome_backend.Building.Residents.{same-SameResidents, written-InOrder}
use vielhome_backend.Building.Management.{
  IsNewBuilding, create_building-InOrder, change_manager-InOrder, end_management-InOrder,
}
use vielhome_backend.Building.Decisions.{
  IsManagerCase, resolve_membership_request-InOrder, decide_case-InOrder,
}

-- One operation; the ids of the rows that it makes are new.
pub data Step (s : Registry) : Registry → Type 0 where
  built :
      (b id person : ℕ) (role : MembershipRole) (ids : ℕ → ℕ) (n : ℕ)
      → IsNewBuilding b id ids n s
      → Step s (create_building b id person role ids n s)
  -- Sign-up, profile changes and new requests.
  others :
      (persons : List Person) (requests : List MembershipRequest)
      → Step s (record s { persons = persons; requests = requests })
  invited : (b u name phone : ℕ) {t : Registry} → invite_owner b u name phone s ≡ ok t → Step s t
  invited_v2 :
      (join : ℕ → ℕ → ℕ) (b u first last phone : ℕ) {t : Registry}
      → invite_owner_v2 join b u first last phone s ≡ ok t
      → Step s t
  linked :
      (ids : ℕ → ℕ) (person phone : ℕ)
      → FreshLinks ids person (find_unlinked_owner_units_by_phone phone s) s
      → Step s (link_owner_account_by_phone ids person phone s)
  claimed :
      (b u person id : ℕ) {t : Registry}
      → Unused Membership.id id s.memberships
      → claim_ownership b u person id s ≡ ok t
      → Step s t
  transferred :
      (b u phone actor : ℕ) {t : Registry} → transfer_ownership b u phone actor s ≡ ok t → Step s t
  rented :
      (p : TenancyParams) {t : Registry}
      → Unused Tenancy.id p.tenancy_id s.tenancies
      → Unused Membership.id p.membership_id s.memberships
      → create_tenancy p s ≡ ok t
      → Step s t
  noticed : (b id actor : ℕ) {t : Registry} → give_tenancy_notice b id actor s ≡ ok t → Step s t
  left : (b id actor : ℕ) {t : Registry} → end_tenancy b id actor s ≡ ok t → Step s t
  requested :
      (b r : ℕ) (is_approved : Bool) (id : ℕ)
      → Unused Membership.id id s.memberships
      → Step s (resolve_membership_request b r is_approved id s).0
  handed_over :
      (b person : ℕ) (is_claim : Bool) (id : ℕ) {t : Registry}
      → Unused Membership.id id (retire_current (current_manager b s) s.memberships)
      → change_manager b person is_claim id s ≡ ok t
      → Step s t
  resigned : (b : ℕ) {t : Registry} → end_management b s ≡ ok t → Step s t
  decided :
      (k : VerificationCase) (decision : Decision) {t : Registry}
      → IsManagerCase k s
      → decide_case k decision s ≡ ok t
      → Step s t

pub data Reaches (s : Registry) : Registry → Type 0 where
  here : Reaches s s
  next : {t u : Registry} → Reaches s t → Step t u → Reaches s u

abbrev pub empty_registry : Registry
empty_registry = record {
  buildings = [];
  units = [];
  ownerships = [];
  tenancies = [];
  memberships = [];
  persons = [];
  requests = [];
}

unit_edit-InOrder :
    (id : ℕ) (f : Home → Home) (s : Registry)
    → ((u : Home) → (f u).id ≡ u.id)
    → InOrder s
    → InOrder (record s { units = update Home.id id f s.units })
unit_edit-InOrder id f s keeps h =
    written-InOrder s _ refl refl (update-Keyed Home.id id f s.units keeps h.homes)
      (same-SameResidents s.memberships) h.one_manager h.members h

invite_owner-InOrder :
    (b u name phone : ℕ) (s : Registry) {t : Registry}
    → invite_owner b u name phone s ≡ ok t
    → InOrder s
    → InOrder t
unfolding invite_owner
invite_owner-InOrder b u name phone s e h =
    let (_, _, e1) = >>=-eq-ok (get_own_unit b u s) _ e in
    rw (sym (ok-injective e1)) (unit_edit-InOrder u _ s (λ x. refl) h)

invite_owner_v2-InOrder :
    (join : ℕ → ℕ → ℕ) (b u first last phone : ℕ) (s : Registry) {t : Registry}
    → invite_owner_v2 join b u first last phone s ≡ ok t
    → InOrder s
    → InOrder t
unfolding invite_owner_v2
invite_owner_v2-InOrder join b u first last phone s e h =
    let (_, _, e1) = >>=-eq-ok (get_own_unit b u s) _ e in
    rw (sym (ok-injective e1)) (unit_edit-InOrder u _ s (λ x. refl) h)

Step-InOrder : {s t : Registry} → Step s t → InOrder s → InOrder t
Step-InOrder {s} (built b id person role ids n fresh) =
    create_building-InOrder b id person role ids n s fresh
Step-InOrder {s} (others persons requests) = λ h.
    written-InOrder s _ refl refl h.homes (same-SameResidents s.memberships) h.one_manager h.members
      h
Step-InOrder {s} (invited b u name phone e) = invite_owner-InOrder b u name phone s e
Step-InOrder {s} (invited_v2 join b u first last phone e) =
    invite_owner_v2-InOrder join b u first last phone s e
Step-InOrder {s} (linked ids person phone fresh) =
    link_owner_account_by_phone-InOrder ids person phone s fresh
Step-InOrder {s} (claimed b u person id fresh e) = claim_ownership-InOrder b u person id s e fresh
Step-InOrder {s} (transferred b u phone actor e) = transfer_ownership-InOrder b u phone actor s e
Step-InOrder {s} (rented p fresh new_member e) = create_tenancy-InOrder p s e fresh new_member
Step-InOrder {s} (noticed b id actor e) = give_tenancy_notice-InOrder b id actor s e
Step-InOrder {s} (left b id actor e) = end_tenancy-InOrder b id actor s e
Step-InOrder {s} (requested b r is_approved id fresh) =
    resolve_membership_request-InOrder b r is_approved id s fresh
Step-InOrder {s} (handed_over b person is_claim id fresh e) =
    change_manager-InOrder b person is_claim id s e fresh
Step-InOrder {s} (resigned b e) = end_management-InOrder b s e
Step-InOrder {s} (decided k decision is_case e) = decide_case-InOrder k decision s e is_case

-- After any run of the operations from empty tables, with new ids for new rows and with verification cases
-- that are about managers: for every unit and person there are as many current ownerships as current OWNER
-- memberships of the unit, and as many current tenancies as current TENANT memberships; a unit has at most
-- one current owner and one current tenancy, and a tenancy is current exactly when it has not ended; a
-- building has at most one current manager; no two tenancies, units or memberships have one id.
pub history-InOrder : {s : Registry} → Reaches empty_registry s → InOrder s
history-InOrder here = record {
  sync = record {
    owners = λ u p. refl;
    tenants = λ u p. refl;
    one_tenancy = λ u. omega arith;
    keyed = tt;
    rows = tt;
  };
  one_owner = λ u. omega arith;
  one_manager = λ b. omega arith;
  homes = tt;
  members = tt;
}
history-InOrder (next run step) = Step-InOrder step (history-InOrder run)
