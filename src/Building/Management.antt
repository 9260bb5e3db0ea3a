-- ===== src/Building/Management.antt =====
-- The operations on the manager of a building keep the invariant.
use vielhome_backend.Base.{
  ℕ, ◌≤◌, ap, sym, ◌≡◌, refl, Bool, true, false, some, ◌∷◌, ◌++◌, ◌==◌, arith, inl, inr,
  Option-cases, if◌then◌else◌, All, All-map,
}
use vielhome_backend.Base.Result.{ok, guard-eq-ok, forbid-eq-ok, expect-eq-ok, ok-injective}
use vielhome_backend.Base.Table.{find, Keyed, Unused}
use vielhome_backend.Base.Count.{indicator, count, count-update}
use vielhome_backend.Base.Unique.{find_first-passes, find_first-none, find_first-find, count_none}
use vielhome_backend.Query.{update-Keyed}
use vielhome_backend.Building.Schema.{
  MembershipRole, manager, is_manager, provisional, verified, Membership, BuildingRow, Home,
  Registry,
}
use vielhome_backend.Building.Managers.{
  manages_now, current_manager, set_recovery, retire, building_membership, create_building,
  skeleton, first_state, roles_in_building, is_self_handoff, retire_current, change_manager,
  end_management,
}
use vielhome_backend.Building.Sound.{InOrder}
use vielhome_backend.Building.Residents.{
  SameResidents, update-SameResidents, written-InOrder, cons-SameResidents, same-SameResidents,
  one_more_manager,
}

-- The current manager, if there is one: its row, and what is left when it is retired.
pub retired :
    (b : ℕ) (s : Registry)
    → InOrder s
    → SameResidents s.memberships (retire_current (current_manager b s) s.memberships)
      × (count (manages_now b) (retire_current (current_manager b s) s.memberships) ≡ 0)
      × ((c : ℕ) → count (manages_now c) (retire_current (current_manager b s) s.memberships) ≤ 1)
      × Keyed Membership.id (retire_current (current_manager b s) s.memberships)
retired b s h = elim (Option-cases (current_manager b s)) [
  | inl none_there ↦ rw none_there (
    same-SameResidents s.memberships,
    find_first-none (manages_now b) s.memberships none_there,
    h.one_manager,
    h.members,
  )
  | inr (m, there) ↦
      let hit = find_first-passes (manages_now b) s.memberships there in
      let found = find_first-find Membership.id (manages_now b) s.memberships h.members there in
      let managing : is_manager m.role ≡ true = ground arith in
      rw there (
        update-SameResidents m.id retire s.memberships found managing refl,
        (let after = count-update Membership.id (manages_now b) m.id retire s.memberships found in
            let before = h.one_manager b in
            let was_one : indicator (manages_now b m) ≡ 1 = ap indicator hit in
            omega (arith, after, before, was_one)),
        (λ c.
            let after =
              count-update Membership.id (manages_now c) m.id retire s.memberships found in
            let before = h.one_manager c in omega (arith, after, before)),
        update-Keyed Membership.id m.id retire s.memberships (λ x. refl) h.members,
      )
]

pub change_manager-InOrder :
    (b person : ℕ) (is_claim : Bool) (id : ℕ) (s : Registry) {t : Registry}
    → change_manager b person is_claim id s ≡ ok t
    → Unused Membership.id id (retire_current (current_manager b s) s.memberships)
    → InOrder s
    → InOrder t
unfolding change_manager
change_manager-InOrder b person is_claim id s {t} e fresh h =
    let (_, _, e1) = expect-eq-ok (find BuildingRow.id b s.buildings) _ _ e in
    let (_, e2) = forbid-eq-ok (is_self_handoff (current_manager b s) person) _ _ e1 in
    let (_, e3) = guard-eq-ok (roles_in_building person b s) _ _ e2 in
    let (residents, free, at_most, keyed) = retired b s h in
    go is_claim e3 fresh residents free at_most keyed
  where
    go :
        (claim : Bool)
        → ok (
            let state = if claim then provisional else verified in
            let handed = record s {
              memberships =
                  building_membership id person b manager (some state)
                  ∷ retire_current (current_manager b s) s.memberships;
            } in
            if claim then handed else set_recovery b false handed)
          ≡ ok t
        → Unused Membership.id id (retire_current (current_manager b s) s.memberships)
        → SameResidents s.memberships (retire_current (current_manager b s) s.memberships)
        → count (manages_now b) (retire_current (current_manager b s) s.memberships) ≡ 0
        → ((c : ℕ) → count (manages_now c) (retire_current (current_manager b s) s.memberships) ≤ 1)
        → Keyed Membership.id (retire_current (current_manager b s) s.memberships)
        → InOrder t
    go true done fresh residents free at_most keyed = rw (sym (ok-injective done)) (
        written-InOrder s _ refl refl h.homes
          (cons-SameResidents id person b manager (some provisional) s.memberships _ residents)
          (λ c. one_more_manager id person b c (some provisional) manager _ (λ _. free) (at_most c))
          (fresh, keyed) h)
    go false done fresh residents free at_most keyed = rw (sym (ok-injective done)) (
        written-InOrder s _ refl refl h.homes
          (cons-SameResidents id person b manager (some verified) s.memberships _ residents)
          (λ c. one_more_manager id person b c (some verified) manager _ (λ _. free) (at_most c))
          (fresh, keyed) h)

pub end_management-InOrder :
    (b : ℕ) (s : Registry) {t : Registry} → end_management b s ≡ ok t → InOrder s → InOrder t
unfolding end_management
end_management-InOrder b s {t} e h =
    let (m, there, e1) = expect-eq-ok (current_manager b s) _ _ e in
    let hit = find_first-passes (manages_now b) s.memberships there in
    let found = find_first-find Membership.id (manages_now b) s.memberships h.members there in
    let managing : is_manager m.role ≡ true = ground arith in
    rw (sym (ok-injective e1)) (
      written-InOrder s _ refl refl h.homes
        (update-SameResidents m.id retire s.memberships found managing refl)
        (λ c.
          let after = count-update Membership.id (manages_now c) m.id retire s.memberships found in
          let before = h.one_manager c in omega (arith, after, before))
        (update-Keyed Membership.id m.id retire s.memberships (λ x. refl) h.members) h)

-- A new building: no unit and no membership has its id.
pub record IsNewBuilding (b membership_id : ℕ) (ids : ℕ → ℕ) (n : ℕ) (s : Registry) : Type 0 where
  pub no_members : All (λ (m : Membership). m.building_id == b ≡ false) s.memberships
  pub new_member : Unused Membership.id membership_id s.memberships
  pub homes : Keyed Home.id (skeleton ids b n ++ s.units)

pub create_building-InOrder :
    (b membership_id person : ℕ) (role : MembershipRole) (ids : ℕ → ℕ) (n : ℕ) (s : Registry)
    → IsNewBuilding b membership_id ids n s
    → InOrder s
    → InOrder (create_building b membership_id person role ids n s)
unfolding create_building
create_building-InOrder b membership_id person role ids n s fresh h =
    written-InOrder s _ refl refl fresh.homes
      (cons-SameResidents membership_id person b role (first_state role) s.memberships s.memberships
        (same-SameResidents s.memberships))
      (λ c.
        one_more_manager membership_id person b c (first_state role) role s.memberships
          (λ _. count_none (manages_now b) s.memberships (
            All-map _ (λ (m : Membership). manages_now b m ≡ false) s.memberships
              (λ m other. ground arith) fresh.no_members))
          (h.one_manager c))
      (fresh.new_member, h.members) h
