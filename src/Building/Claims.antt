-- ===== src/Building/Claims.antt =====
-- Claims of a unit, membership requests and approvals: what an operation does beside what the service
-- announces or counts.
use vielhome_backend.Base.{
  ℕ, ◌*◌, ◌/◌, ◌≤◌, ap, sym, subst, ◌∙◌, ◌≡◌, refl, Bool, true, false, ◌&&◌, not, Option, none,
  some, List, [], ◌∷◌, ◌==◌, ==_refl, same, is_some, arith, inl, inr, Bool-cases, Option-cases, any,
  leb, ltb,
}
use native.Mathlib.Nat.{le-div_iff_mul-le, mul_comm}
use vielhome_backend.Base.Result.{
  Result, ok, err, returns, conflict, business_rule, authorization, guard, forbid, ◌>>◌,
  guard-eq-ok, forbid-eq-ok, >>=-eq-ok, expect-eq-ok, ok-injective,
}
use vielhome_backend.Base.Table.{find, update, find-update, find-key}
use vielhome_backend.Building.Schema.{
  is_manager, MembershipRequest, approved, Home, Ownership, Person, Registry,
}
use vielhome_backend.Building.Units.{
  get_own_unit, owns_now, person_owns, has_current_ownership, is_current_owner_of_unit,
  fill_missing_person_name, fill_row, link_owner_to_unit, claim_ownership, can_claim_ownership,
  transfer_ownership, hand_over,
}
use vielhome_backend.Building.Managers.{
  current_manager, set_request, resolve_found, resolve_membership_request, meets_approval_threshold,
  compute_approval_percent,
}
use vielhome_backend.Building.Occupants.{get_own_unit-id}

any_none :
    (p q : Ownership → Bool) (xs : List Ownership)
    → ((x : Ownership) → p x ≡ true → q x ≡ true)
    → any q xs ≡ false
    → any p xs ≡ false
any_none p q [] implies e = refl
any_none p q (x ∷ xs) implies e =
    let here = implies x in let rest = any_none p q xs implies in ground arith

agree :
    {A : Type 0} (owned mine invited : Bool) (value : A)
    → (owned ≡ false → mine ≡ false)
    → returns (forbid owned business_rule >> (guard invited authorization >> ok value))
      ≡ (not mine && not owned && invited)
agree true true invited value h = refl
agree true false invited value h = refl
agree false true invited value h = let no = h refl in cc
agree false false true value h = refl
agree false false false value h = refl

-- For a unit of the building and a person that is there: the flag that the unit is shown with says that the
-- person can claim it exactly when claimOwnership returns.
pub claim_ownership-can_claim :
    (b u person m : ℕ) (s : Registry) {unit : Home} {caller : Person}
    → get_own_unit b u s ≡ ok unit
    → find Person.id person s.persons ≡ some caller
    → returns (claim_ownership b u person m s) ≡ can_claim_ownership unit caller s
unfolding claim_ownership can_claim_ownership
claim_ownership-can_claim b u person m s {unit} {caller} own found =
    let the_unit : unit.id ≡ u = find-key Home.id u s.units (get_own_unit-id b u s own) in
    let not_mine =
      any_none (person_owns unit.id caller.id) (owns_now unit.id) s.ownerships
        (λ x hit. ground arith) in
    rw (own, found, the_unit)
      (agree (has_current_ownership u s) (is_current_owner_of_unit u caller.id s) _ _ (
        subst
          (λ k.
            any (owns_now k) s.ownerships ≡ false
            → any (person_owns k caller.id) s.ownerships ≡ false)
          the_unit not_mine))

refused_found :
    (r : MembershipRequest) (m : ℕ) (s : Registry) {t : Registry}
    → resolve_found r true m s ≡ (t, err conflict)
    → t ≡ set_request r.id approved s
unfolding resolve_found
refused_found r m s {t} e =
    elim (Bool-cases (
      is_manager r.role && is_some (current_manager r.building_id (set_request r.id approved s)))) [
        | inl busy ↦
            let done = rw busy at e in sym (ap (λ (x : Registry × Result (Unit {0})). x.0) done)
        | inr free ↦ let done = rw free at e in cc
      ]

refused_row :
    (b id m : ℕ) (s : Registry) {t : Registry}
    → resolve_membership_request b id true m s ≡ (t, err conflict)
    → (r : MembershipRequest) × (find MembershipRequest.id id s.requests ≡ some r)
      × (t ≡ set_request id approved s)
unfolding resolve_membership_request
refused_row b id m s {t} e = elim (Option-cases (find MembershipRequest.id id s.requests)) [
  | inl missing ↦ let done = rw (missing, resolve_membership_request) at e in cc
  | inr (r, found) ↦ elim (Bool-cases (r.building_id == b)) [
    | inl own ↦
        let done = rw (found, resolve_membership_request, own) at e in
        (
          r,
          found,
          refused_found r m s done
              ∙ ap (λ k. set_request k approved s)
                  (find-key MembershipRequest.id id s.requests found),
        )
    | inr alien ↦ let done = rw (found, resolve_membership_request, alien) at e in cc
  ]
]

-- A membership request that is refused because the building has a manager: its row says APPROVED, and no
-- membership was made.
pub refused_request_approved :
    (b id m : ℕ) (s : Registry) {t : Registry}
    → resolve_membership_request b id true m s ≡ (t, err conflict)
    → (r : MembershipRequest) × (find MembershipRequest.id id t.requests ≡ some r)
      × (r.status ≡ approved)
      × (t.memberships ≡ s.memberships)
refused_request_approved b id m s e =
    let (r, found, done) = refused_row b id m s e in
    (
      record r { status = approved },
      rw
          (
            done,
            find-update MembershipRequest.id id id
                (λ (x : MembershipRequest). record x { status = approved }) s.requests (λ x. refl),
            ==_refl id,
            found,
          )
          refl,
      refl,
      ap (λ (x : Registry). x.memberships) done,
    )

leb_agree : (a b c d : ℕ) → ((a ≤ b) → (c ≤ d)) → ((c ≤ d) → (a ≤ b)) → leb a b ≡ leb c d
leb_agree a b c d there back = elim (Bool-cases (leb a b)) [
  | inl e ↦ let le : a ≤ b = ground arith in let le' = there le in ground arith
  | inr e ↦ elim (Bool-cases (leb c d)) [
    | inl f ↦ let le : c ≤ d = ground arith in let le' = back le in ground arith
    | inr f ↦ e ∙ sym f
  ]
]

-- The percentage that is reported reaches the required one exactly when the case passes the threshold.
pub approval_threshold_percent :
    (approvers owners required : ℕ)
    → 1 ≤ owners
    → meets_approval_threshold approvers owners required
      ≡ leb required (compute_approval_percent approvers owners)
unfolding meets_approval_threshold compute_approval_percent
approval_threshold_percent approvers owners required some_owner =
    let positive : ltb 0 owners ≡ true = ground arith in
    rw positive (
      let (down, up) = le-div_iff_mul-le {x = required} {y = approvers * 100} some_owner in
      leb_agree (owners * required) (approvers * 100) required (approvers * 100 / owners)
        (λ h. up (subst (λ k. k ≤ approvers * 100) (mul_comm owners required) h))
        (λ h. subst (λ k. k ≤ approvers * 100) (mul_comm required owners) (down h)))

-- The name that a person has after a fill.
filled_name :
    (person : ℕ) (first last : Option ℕ) (ps : List Person) {p : Person}
    → find Person.id person ps ≡ some p
    → p.first_name ≡ none
    → (q : Person) × (find Person.id person (fill_missing_person_name person first last ps)
        ≡ some q)
      × (q.first_name ≡ first)
unfolding fill_missing_person_name
filled_name person first last ps {p} found unnamed = (
  fill_row first last p,
  rw
      (
        find-update Person.id person person (fill_row first last) ps (λ x. refl),
        ==_refl person,
        found,
      )
      refl,
  rw unnamed refl,
)

-- A new owner who claims a unit after a transfer, and has no first name yet, gets the first name that the
-- unit kept from the invitation of the owner before.
pub transferred_unit_names :
    (b u phone actor person m : ℕ) (s : Registry) {t v : Registry} {unit : Home} {p : Person}
    → find Home.id u s.units ≡ some unit
    → transfer_ownership b u phone actor s ≡ ok t
    → find Person.id person t.persons ≡ some p
    → p.first_name ≡ none
    → claim_ownership b u person m t ≡ ok v
    → (q : Person) × (find Person.id person v.persons ≡ some q)
      × (q.first_name ≡ unit.owner_first_name)
unfolding transfer_ownership claim_ownership link_owner_to_unit
transferred_unit_names b u phone actor person m s {t} {v} {unit} {p} there e found unnamed claim =
    let (_, _, e1) = >>=-eq-ok (get_own_unit b u s) _ e in
    let (_, e2) = guard-eq-ok (is_current_owner_of_unit u actor s) _ _ e1 in
    let units : t.units ≡ update Home.id u (hand_over phone) s.units =
      ap (λ (x : Registry). x.units) (sym (ok-injective e2)) in
    let (w, own, c1) = >>=-eq-ok (get_own_unit b u t) _ claim in
    let (caller, _, c2) = expect-eq-ok (find Person.id person t.persons) _ _ c1 in
    let (_, c3) = forbid-eq-ok (has_current_ownership u t) _ _ c2 in
    let (_, c4) = guard-eq-ok (same w.owner_phone (some caller.phone)) _ _ c3 in
    let persons : v.persons
        ≡ fill_missing_person_name person w.owner_first_name w.owner_last_name t.persons =
      ap (λ (x : Registry). x.persons) (sym (ok-injective c4)) in
    let now : find Home.id u t.units ≡ some (hand_over phone unit) =
      rw (units, find-update Home.id u u (hand_over phone) s.units (λ x. refl), ==_refl u, there)
        refl in
    let row : some w ≡ some (hand_over phone unit) = sym (get_own_unit-id b u t own) ∙ now in
    let kept : w.owner_first_name ≡ unit.owner_first_name = ground arith in
    let (q, stored, name) =
      filled_name person w.owner_first_name w.owner_last_name t.persons found unnamed in
    (q, rw persons stored, name ∙ kept)
