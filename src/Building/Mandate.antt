-- ===== src/Building/Mandate.antt =====
-- The abstract view of who manages a building: a map from buildings to the persons that do. Appointing a manager
-- (changeManager) sets one entry of it, and ending the management (endManagement) clears one.
use vielhome_backend.Base.{
  ℕ, ap, sym, subst, ◌∙◌, ◌≡◌, refl, Bool, false, some, List, [], ◌∷◌, ◌==◌, arith, inl, inr,
  Bool-cases, Option-cases, map, filter, if◌then◌else◌,
}
use vielhome_backend.Base.Result.{Result, ok, guard-eq-ok, forbid-eq-ok, expect-eq-ok, ok-injective}
use vielhome_backend.Base.Table.{find, update}
use vielhome_backend.Base.Count.{indicator, count, count-update}
use vielhome_backend.Base.Unique.{find_first-passes, find_first-find, find_first-none}
use vielhome_backend.Building.Schema.{
  manager, Membership, BuildingRow, Registry, ManagerState, provisional, verified,
}
use vielhome_backend.Building.Managers.{
  manages_now, current_manager, retire, building_membership, roles_in_building, is_self_handoff,
  retire_current, change_manager, end_management,
}
use vielhome_backend.Building.Sound.{InOrder}

abbrev pub Mandates : Type 0
Mandates = ℕ → List ℕ

-- What the tables say, of every row: the order of the rows does not choose one manager of two.
abbrev pub managers_of : Registry → Mandates
managers_of s building_id =
    map (λ (m : Membership). m.person_id) (filter (manages_now building_id) s.memberships)

pub data Mandate : Type 0 where
  appoint : (building_id person : ℕ) → Mandate
  dismiss : (building_id : ℕ) → Mandate

-- What an operation does to the map.
abbrev pub carry_out : Mandate → Mandates → Mandates
carry_out (appoint building_id person) before b = if building_id == b then person ∷ [] else before b
carry_out (dismiss building_id) before b = if building_id == b then [] else before b

-- The operations of the service that implement it.
abbrev pub run_mandate : Mandate → Bool → ℕ → Registry → Result Registry
run_mandate (appoint building_id person) is_claim id s =
    change_manager building_id person is_claim id s
run_mandate (dismiss building_id) is_claim id s = end_management building_id s

-- Retiring a manager changes no other building's.
retire_elsewhere :
    (b k : ℕ) (ms : List Membership) {m : Membership}
    → find Membership.id k ms ≡ some m
    → manages_now b m ≡ false
    → filter (manages_now b) (update Membership.id k retire ms) ≡ filter (manages_now b) ms
unfolding find update
retire_elsewhere b k [] found apart = cc
retire_elsewhere b k (x ∷ xs) {m} found apart = elim (Bool-cases (x.id == k)) [
  | inl e ↦
      let the_row : x ≡ m = ground arith in
      let miss : manages_now b x ≡ false = rw the_row apart in rw (e, miss) refl
  | inr e ↦
      let later : find Membership.id k xs ≡ some m = ground arith in
      rw (e, retire_elsewhere b k xs later apart) refl
]

none_passes : (p : Membership → Bool) (xs : List Membership) → count p xs ≡ 0 → filter p xs ≡ []
none_passes p [] e = refl
none_passes p (x ∷ xs) e = ground (arith, none_passes p xs)

-- The managers of a building after the current one of some building is retired.
retired_mandate :
    (b c : ℕ) (s : Registry) {m : Membership}
    → InOrder s
    → current_manager b s ≡ some m
    → filter (manages_now c) (update Membership.id m.id retire s.memberships)
      ≡ (if b == c then [] else filter (manages_now c) s.memberships)
retired_mandate b c s {m} h there =
    let hit = find_first-passes (manages_now b) s.memberships there in
    let found = find_first-find Membership.id (manages_now b) s.memberships h.members there in
    elim (Bool-cases (b == c)) [
      | inl e ↦
          let same_building : b ≡ c = ground arith in
          let after = count-update Membership.id (manages_now b) m.id retire s.memberships found in
          let before = h.one_manager b in
          let was_one : indicator (manages_now b m) ≡ 1 = ap indicator hit in
          let gone : count (manages_now b) (update Membership.id m.id retire s.memberships) ≡ 0 =
            omega (arith, after, before, was_one) in
          rw e (
            subst
              (λ k. filter (manages_now k) (update Membership.id m.id retire s.memberships) ≡ [])
              same_building (none_passes (manages_now b) _ gone))
      | inr e ↦
          let apart : manages_now c m ≡ false = ground arith in
          rw e (retire_elsewhere c m.id s.memberships found apart)
    ]

-- The rows of the memberships after an appointment.
change_manager-rows :
    (b person : ℕ) (is_claim : Bool) (id : ℕ) (s : Registry) {t : Registry}
    → change_manager b person is_claim id s ≡ ok t
    → (state : ManagerState) × (t.memberships
        ≡ building_membership id person b manager (some state)
          ∷ retire_current (current_manager b s) s.memberships)
unfolding change_manager
change_manager-rows b person is_claim id s {t} e =
    let (_, _, e1) = expect-eq-ok (find BuildingRow.id b s.buildings) _ _ e in
    let (_, e2) = forbid-eq-ok (is_self_handoff (current_manager b s) person) _ _ e1 in
    let (_, e3) = guard-eq-ok (roles_in_building person b s) _ _ e2 in
    let done = ok-injective e3 in
    elim (Bool-cases is_claim) [
      | inl c ↦ (provisional, rw c at (ap (λ (x : Registry). x.memberships) (sym done)))
      | inr c ↦ (verified, rw c at (ap (λ (x : Registry). x.memberships) (sym done)))
    ]

-- After an appointment's retirement, the building has no manager, and the others have theirs.
retired_current :
    (b c : ℕ) (s : Registry)
    → InOrder s
    → filter (manages_now c) (retire_current (current_manager b s) s.memberships)
      ≡ (if b == c then [] else filter (manages_now c) s.memberships)
retired_current b c s h = elim (Option-cases (current_manager b s)) [
  | inl missing ↦ elim (Bool-cases (b == c)) [
    | inl e ↦
        let same_building : b ≡ c = ground arith in
        rw (missing, e)
          (subst (λ k. filter (manages_now k) s.memberships ≡ []) same_building
            (none_passes (manages_now b) _ (find_first-none (manages_now b) s.memberships missing)))
    | inr e ↦ rw (missing, e) refl
  ]
  | inr (m, there) ↦ rw there (retired_mandate b c s h there)
]

end_management-rows :
    (b : ℕ) (s : Registry) {t : Registry}
    → end_management b s ≡ ok t
    → (m : Membership) × (t.memberships ≡ update Membership.id m.id retire s.memberships)
      × (current_manager b s ≡ some m)
unfolding end_management
end_management-rows b s e =
    let (m, there, e1) = expect-eq-ok (current_manager b s) _ _ e in
    (m, ap (λ (x : Registry). x.memberships) (sym (ok-injective e1)), there)

-- Where the invariant of the tables holds, an appointment or a dismissal of a manager that returns does to
-- the map of managers what it says: after it the building has the appointed person as its only manager, or
-- none, and every other building has the managers that it had.
pub run_mandate-carry_out :
    (op : Mandate) (is_claim : Bool) (id : ℕ) (s : Registry) {t : Registry}
    → InOrder s
    → run_mandate op is_claim id s ≡ ok t
    → (c : ℕ) → managers_of t c ≡ carry_out op (managers_of s) c
run_mandate-carry_out (appoint b person) is_claim id s {t} h e c =
    let (state, rows) = change_manager-rows b person is_claim id s e in
    let new = building_membership id person b manager (some state) in
    let read : managers_of t c
        ≡ map (λ (m : Membership). m.person_id)
            (filter (manages_now c) (new ∷ retire_current (current_manager b s) s.memberships)) =
      ap (λ ms. map (λ (m : Membership). m.person_id) (filter (manages_now c) ms)) rows in
    read ∙ elim (Bool-cases (b == c)) [
      | inl here ↦ rw (here, retired_current b c s h, here) refl
      | inr apart ↦ rw (apart, retired_current b c s h, apart) refl
    ]
run_mandate-carry_out (dismiss b) is_claim id s {t} h e c =
    let (m, rows, there) = end_management-rows b s e in
    ap (λ ms. map (λ (x : Membership). x.person_id) (filter (manages_now c) ms)) rows
    ∙ elim (Bool-cases (b == c)) [
      | inl here ↦ rw (retired_mandate b c s h there, here) refl
      | inr apart ↦ rw (retired_mandate b c s h there, apart) refl
    ]
