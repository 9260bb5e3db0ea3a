-- ===== src/Building/Decisions.antt =====
-- A membership request that is resolved, and a decision on a manager, keep the invariant.
use vielhome_backend.Base.{
  ℕ, ◌≤◌, sym, subst, ◌∙◌, ◌≡◌, refl, Bool, true, false, ◌&&◌, not, none, some, List, ◌==◌, is_some,
  arith, inl, inr, Bool-cases, Option-cases, any, All,
}
use vielhome_backend.Base.Result.{ok, guard-eq-ok, forbid-eq-ok, expect-eq-ok, ok-injective}
use vielhome_backend.Base.Table.{find, update, find-key, Keyed, Unused}
use vielhome_backend.Base.Count.{indicator, count, count-update, count-any}
use vielhome_backend.Base.Unique.{find_first, find_first-none, count_le_one}
use vielhome_backend.Query.{update-Keyed, find-All}
use vielhome_backend.Building.Schema.{
  is_manager, Membership, MembershipRequest, RequestStatus, approved, rejected, BuildingRow,
  Registry,
}
use vielhome_backend.Building.Managers.{
  manages_now, current_manager, first_state, resolve_membership_request, resolve_found,
  VerificationCase, Decision, approve, reject, suspend, decide_row, competes, of_case, decide_case,
  rejects, set_request, create_membership,
}
use vielhome_backend.Building.Sound.{InOrder}
use vielhome_backend.Building.Residents.{
  update-SameResidents, written-InOrder, cons-SameResidents, same-SameResidents, one_more_manager,
}

set_request-InOrder :
    (id : ℕ) (status : RequestStatus) (s : Registry) → InOrder s → InOrder (set_request id status s)
set_request-InOrder id status s h =
    written-InOrder s _ refl refl h.homes (same-SameResidents s.memberships) h.one_manager h.members
      h

no_manager :
    (b : ℕ) (ms : List Membership)
    → is_some (find_first (manages_now b) ms) ≡ false
    → count (manages_now b) ms ≡ 0
no_manager b ms e =
    let missing : find_first (manages_now b) ms ≡ none = ground arith in
    find_first-none (manages_now b) ms missing

create_membership-InOrder :
    (id : ℕ) (r : MembershipRequest) (s : Registry)
    → Unused Membership.id id s.memberships
    → (is_manager r.role && is_some (current_manager r.building_id s)) ≡ false
    → InOrder s
    → InOrder (create_membership id r s)
create_membership-InOrder id r s fresh free h =
    written-InOrder s _ refl refl h.homes
      (cons-SameResidents id r.person_id r.building_id r.role (first_state r.role) s.memberships
        s.memberships (same-SameResidents s.memberships))
      (λ c.
        one_more_manager id r.person_id r.building_id c (first_state r.role) r.role s.memberships
          (λ managing. no_manager r.building_id s.memberships (ground arith)) (h.one_manager c))
      (fresh, h.members) h

resolve_found-InOrder :
    (r : MembershipRequest) (is_approved : Bool) (id : ℕ) (s : Registry)
    → Unused Membership.id id s.memberships
    → InOrder s
    → InOrder (resolve_found r is_approved id s).0
unfolding resolve_found
resolve_found-InOrder r false id s fresh h = set_request-InOrder r.id rejected s h
resolve_found-InOrder r true id s fresh h =
    let written = set_request r.id approved s in
    let before = set_request-InOrder r.id approved s h in
    elim (Bool-cases (is_manager r.role && is_some (current_manager r.building_id written))) [
      | inl e ↦ rw e before
      | inr e ↦ rw e (create_membership-InOrder id r written fresh e before)
    ]

-- So also when the request is refused after its status was written.
pub resolve_membership_request-InOrder :
    (b request_id : ℕ) (is_approved : Bool) (id : ℕ) (s : Registry)
    → Unused Membership.id id s.memberships
    → InOrder s
    → InOrder (resolve_membership_request b request_id is_approved id s).0
unfolding resolve_membership_request
resolve_membership_request-InOrder b request_id is_approved id s fresh h =
    elim (Option-cases (find MembershipRequest.id request_id s.requests)) [
      | inl missing ↦ rw (missing, resolve_membership_request) h
      | inr (r, found) ↦ elim (Bool-cases (r.building_id == b)) [
        | inl e ↦
            rw (found, resolve_membership_request, e)
              (resolve_found-InOrder r is_approved id s fresh h)
        | inr e ↦ rw (found, resolve_membership_request, e) h
      ]
    ]

-- With no competitor, at most one current manager is left.
alone_after :
    (k : VerificationCase) (f : Membership → Membership) (ms : List Membership) {m : Membership}
    → ((x : Membership) → (f x).id ≡ x.id)
    → find Membership.id k.membership_id ms ≡ some m
    → any (competes k.building_id k.membership_id) ms ≡ false
    → Keyed Membership.id ms
    → count (manages_now k.building_id) (update Membership.id k.membership_id f ms) ≤ 1
alone_after k f ms {m} keeps found alone keyed =
    let the_id = find-key Membership.id k.membership_id ms found in
    let none_else = count-any (competes k.building_id k.membership_id) ms alone in
    let after =
      count-update Membership.id (competes k.building_id k.membership_id) k.membership_id f ms
        found in
    let old : indicator (competes k.building_id k.membership_id m) ≡ 0 = not_competing k m the_id in
    let new : indicator (competes k.building_id k.membership_id (f m)) ≡ 0 =
      not_competing k (f m) (keeps m ∙ the_id) in
    count_le_one Membership.id (manages_now k.building_id) k.membership_id _
      (update-Keyed Membership.id k.membership_id f ms keeps keyed)
      (omega (arith, none_else, after, old, new))
  where
    not_competing :
        (k : VerificationCase) (x : Membership)
        → x.id ≡ k.membership_id
        → indicator (competes k.building_id k.membership_id x) ≡ 0
    not_competing k x e = ground arith

-- The decision changes the managers of no other building.
other_building :
    (k : VerificationCase) (f : Membership → Membership) (ms : List Membership) {m : Membership}
    (c : ℕ)
    → find Membership.id k.membership_id ms ≡ some m
    → of_case k m ≡ true
    → (f m).building_id ≡ m.building_id
    → k.building_id == c ≡ false
    → count (manages_now c) ms ≤ 1
    → count (manages_now c) (update Membership.id k.membership_id f ms) ≤ 1
other_building k f ms {m} c found matches keeps apart at_most =
    let after = count-update Membership.id (manages_now c) k.membership_id f ms found in
    let elsewhere : (f m).building_id == c ≡ false = ground arith in
    let new : indicator (manages_now c (f m)) ≡ 0 = not_there (f m) c elsewhere in
    omega (arith, after, new, at_most)
  where
    not_there :
        (x : Membership) (c : ℕ) → x.building_id == c ≡ false → indicator (manages_now c x) ≡ 0
    not_there x c e = ground arith

decided_manager :
    (k : VerificationCase) (decision : Decision) (ms : List Membership) {m : Membership}
    → find Membership.id k.membership_id ms ≡ some m
    → of_case k m ≡ true
    → (not (rejects decision) && any (competes k.building_id k.membership_id) ms) ≡ false
    → Keyed Membership.id ms
    → ((c : ℕ) → count (manages_now c) ms ≤ 1)
    → (c : ℕ)
    → count (manages_now c) (update Membership.id k.membership_id (decide_row decision) ms) ≤ 1
decided_manager k reject ms found matches alone keyed at_most c =
    let after =
      count-update Membership.id (manages_now c) k.membership_id (decide_row reject) ms found in
    let before = at_most c in omega (arith, after, before)
decided_manager k approve ms found matches alone keyed at_most c =
    elim (Bool-cases (k.building_id == c)) [
      | inl e ↦
          let same_building : k.building_id ≡ c = ground arith in
          subst
            (λ b.
              count (manages_now b) (update Membership.id k.membership_id (decide_row approve) ms)
              ≤ 1)
            same_building (alone_after k (decide_row approve) ms (λ x. refl) found alone keyed)
      | inr e ↦ other_building k (decide_row approve) ms c found matches refl e (at_most c)
    ]
decided_manager k suspend ms found matches alone keyed at_most c =
    elim (Bool-cases (k.building_id == c)) [
      | inl e ↦
          let same_building : k.building_id ≡ c = ground arith in
          subst
            (λ b.
              count (manages_now b) (update Membership.id k.membership_id (decide_row suspend) ms)
              ≤ 1)
            same_building (alone_after k (decide_row suspend) ms (λ x. refl) found alone keyed)
      | inr e ↦ other_building k (decide_row suspend) ms c found matches refl e (at_most c)
    ]

decide_row-role : (decision : Decision) (m : Membership) → (decide_row decision m).role ≡ m.role
decide_row-role approve m = refl
decide_row-role reject m = refl
decide_row-role suspend m = refl

decide_row-id : (decision : Decision) (m : Membership) → (decide_row decision m).id ≡ m.id
decide_row-id approve m = refl
decide_row-id reject m = refl
decide_row-id suspend m = refl

-- A case of the queue is about the membership of a manager.
abbrev pub IsManagerCase : VerificationCase → Registry → Type 0
IsManagerCase k s =
    All (λ (m : Membership). m.id ≡ k.membership_id → is_manager m.role ≡ true) s.memberships

pub decide_case-InOrder :
    (k : VerificationCase) (decision : Decision) (s : Registry) {t : Registry}
    → decide_case k decision s ≡ ok t
    → IsManagerCase k s
    → InOrder s
    → InOrder t
unfolding decide_case
decide_case-InOrder k decision s {t} e is_case h =
    let (_, e1) = guard-eq-ok k.is_pending _ _ e in
    let (alone, e2) =
      forbid-eq-ok
        (not (rejects decision) && any (competes k.building_id k.membership_id) s.memberships) _ _
        e1 in
    let (m, found, e3) = expect-eq-ok (find Membership.id k.membership_id s.memberships) _ _ e2 in
    let (matches, e4) = guard-eq-ok (of_case k m) _ _ e3 in
    let (_, _, e5) = expect-eq-ok (find BuildingRow.id k.building_id s.buildings) _ _ e4 in
    let managing =
      find-All Membership.id _ k.membership_id s.memberships is_case found
        (find-key Membership.id k.membership_id s.memberships found) in
    rw (sym (ok-injective e5)) (
      written-InOrder s _ refl refl h.homes
        (update-SameResidents k.membership_id (decide_row decision) s.memberships found managing
          (decide_row-role decision m))
        (decided_manager k decision s.memberships found matches alone h.members h.one_manager)
        (update-Keyed Membership.id k.membership_id (decide_row decision) s.memberships
          (decide_row-id decision) h.members)
        h)
