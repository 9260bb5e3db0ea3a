-- ===== src/Building/Sound.antt =====
-- The invariant of the tables of modules/building, and that the operations on a unit keep it.
use vielhome_backend.Base.{
  ℕ, ◌+◌, ◌≤◌, sym, subst, ◌≡◌, refl, Bool, true, false, ◌&&◌, not, some, List, [], ◌∷◌, ◌==◌, same,
  arith, inl, inr, Bool-cases, any, All, All-map,
}
use vielhome_backend.Base.Result.{
  ok, guard-eq-ok, forbid-eq-ok, >>=-eq-ok, expect-eq-ok, ok-injective,
}
use vielhome_backend.Base.Table.{find, find-key, Keyed, Unused}
use vielhome_backend.Base.Count.{indicator, count, update_many, count-update_many-le, count-any}
use vielhome_backend.Base.Unique.{filter-Keyed, filter-passes}
use vielhome_backend.Query.{update-Keyed}
use vielhome_backend.Building.Schema.{Membership, Tenancy, Home, Person, Registry}
use vielhome_backend.Building.Units.{
  get_own_unit, owns_now, rents_now, owner_member, tenant_member, has_current_ownership,
  link_owner_to_unit, link_units, link_owner_account_by_phone, find_unlinked_owner_units_by_phone,
  claim_ownership, transfer_ownership, hand_over, end_ownership, end_membership, TenancyParams,
  create_tenancy, get_managed_tenancy, give_tenancy_notice, end_tenancy, is_open_tenancy,
  is_active_tenancy, owner_or_manager, is_current_owner_of_unit,
}
use vielhome_backend.Building.Managers.{manages_now}
use vielhome_backend.Building.Occupants.{
  InSync, link_owner_to_unit-InSync, transfer_ownership-InSync, create_tenancy-InSync,
  give_tenancy_notice-InSync, end_tenancy-InSync, get_own_unit-id,
}

-- The records of who owns and rents agree; a unit has at most one current owner, and a building at most one
-- current manager; no two rows of a table have one id.
pub record InOrder (s : Registry) : Type 0 where
  pub sync : InSync s
  pub one_owner : (u : ℕ) → count (owns_now u) s.ownerships ≤ 1
  pub one_manager : (b : ℕ) → count (manages_now b) s.memberships ≤ 1
  pub homes : Keyed Home.id s.units
  pub members : Keyed Membership.id s.memberships

update_many-Unused :
    (q : Membership → Bool) (f : Membership → Membership) (k : ℕ) (ms : List Membership)
    → ((m : Membership) → (f m).id ≡ m.id)
    → Unused Membership.id k ms
    → Unused Membership.id k (update_many q f ms)
update_many-Unused q f k [] keeps h = tt
update_many-Unused q f k (m ∷ ms) keeps (apart, h) = elim (Bool-cases (q m)) [
  | inl e ↦ rw e (rw (keeps m) apart, update_many-Unused q f k ms keeps h)
  | inr e ↦ rw e (apart, update_many-Unused q f k ms keeps h)
]

update_many-Keyed :
    (q : Membership → Bool) (f : Membership → Membership) (ms : List Membership)
    → ((m : Membership) → (f m).id ≡ m.id)
    → Keyed Membership.id ms
    → Keyed Membership.id (update_many q f ms)
update_many-Keyed q f [] keeps h = tt
update_many-Keyed q f (m ∷ ms) keeps (fresh, h) =
    let rest = update_many-Unused q f m.id ms keeps fresh in
    elim (Bool-cases (q m)) [
      | inl e ↦ rw e (rw (keeps m) rest, update_many-Keyed q f ms keeps h)
      | inr e ↦ rw e (rest, update_many-Keyed q f ms keeps h)
    ]

link_owner_to_unit-InOrder :
    (id person : ℕ) (u : Home) (s : Registry)
    → Unused Membership.id id s.memberships
    → count (owns_now u.id) s.ownerships ≡ 0
    → InOrder s
    → InOrder (link_owner_to_unit id person u s)
unfolding link_owner_to_unit
link_owner_to_unit-InOrder id person u s fresh free h = record {
  sync = link_owner_to_unit-InSync id person u s h.sync;
  one_owner = λ v. one_more v (h.one_owner v);
  one_manager = λ b. let before = h.one_manager b in omega (arith, before);
  homes = h.homes;
  members = (fresh, h.members);
}
  where
    one_more :
        (v : ℕ)
        → count (owns_now v) s.ownerships ≤ 1
        → indicator (u.id == v) + count (owns_now v) s.ownerships ≤ 1
    one_more v before = elim (Bool-cases (u.id == v)) [
      | inl e ↦
          let unit_is : u.id ≡ v = ground arith in
          let now : count (owns_now v) s.ownerships ≡ 0 =
            subst (λ k. count (owns_now k) s.ownerships ≡ 0) unit_is free in
          rw e (omega (arith, now))
      | inr e ↦ rw e (omega (arith, before))
    ]

-- The ids that the memberships of an automatic link get: each is new when its row is made.
abbrev pub FreshLinks : (ℕ → ℕ) → ℕ → List Home → Registry → Type 0
FreshLinks ids person [] s = Unit
FreshLinks ids person (u ∷ us) s =
    Unused Membership.id (ids u.id) s.memberships
    × FreshLinks ids person us (link_owner_to_unit (ids u.id) person u s)

-- Linking one unit leaves the others without an owner.
link_others :
    (id person : ℕ) (u : Home) (us : List Home) (s : Registry)
    → Unused Home.id u.id us
    → All (λ (v : Home). count (owns_now v.id) s.ownerships ≡ 0) us
    → All (λ (v : Home). count (owns_now v.id) (link_owner_to_unit id person u s).ownerships ≡ 0) us
unfolding link_owner_to_unit
link_others id person u [] s apart free = tt
link_others id person u (v ∷ us) s (other, apart) (none_there, free) =
    let not_it : u.id == v.id ≡ false = ground arith in
    (rw not_it (omega (arith, none_there)), link_others id person u us s apart free)

link_units-InOrder :
    (ids : ℕ → ℕ) (person : ℕ) (us : List Home) (s : Registry)
    → Keyed Home.id us
    → All (λ (u : Home). count (owns_now u.id) s.ownerships ≡ 0) us
    → FreshLinks ids person us s
    → InOrder s
    → InOrder (link_units ids person us s)
link_units-InOrder ids person [] s keyed free fresh h = h
link_units-InOrder ids person (u ∷ us) s (apart, keyed) (none_there, free) (new_id, fresh) h =
    link_units-InOrder ids person us (link_owner_to_unit (ids u.id) person u s) keyed
      (link_others (ids u.id) person u us s apart free) fresh
      (link_owner_to_unit-InOrder (ids u.id) person u s new_id none_there h)

unlinked_unit :
    (phone : ℕ) (s : Registry) (u : Home)
    → (same u.owner_phone (some phone) && not (has_current_ownership u.id s)) ≡ true
    → count (owns_now u.id) s.ownerships ≡ 0
unlinked_unit phone s u e =
    let free : any (owns_now u.id) s.ownerships ≡ false = ground arith in
    count-any (owns_now u.id) s.ownerships free

pub link_owner_account_by_phone-InOrder :
    (ids : ℕ → ℕ) (person phone : ℕ) (s : Registry)
    → FreshLinks ids person (find_unlinked_owner_units_by_phone phone s) s
    → InOrder s
    → InOrder (link_owner_account_by_phone ids person phone s)
unfolding link_owner_account_by_phone find_unlinked_owner_units_by_phone
link_owner_account_by_phone-InOrder ids person phone s fresh h =
    link_units-InOrder ids person _ s (filter-Keyed Home.id _ s.units h.homes)
      (All-map _ (λ (u : Home). count (owns_now u.id) s.ownerships ≡ 0) _ (unlinked_unit phone s)
        (filter-passes _ s.units))
      fresh h

pub claim_ownership-InOrder :
    (b id person m : ℕ) (s : Registry) {t : Registry}
    → claim_ownership b id person m s ≡ ok t
    → Unused Membership.id m s.memberships
    → InOrder s
    → InOrder t
unfolding claim_ownership
claim_ownership-InOrder b id person m s {t} e fresh h =
    let (u, own, e1) = >>=-eq-ok (get_own_unit b id s) _ e in
    let (caller, _, e2) = expect-eq-ok (find Person.id person s.persons) _ _ e1 in
    let (free, e3) = forbid-eq-ok (has_current_ownership id s) _ _ e2 in
    let (_, e4) = guard-eq-ok (same u.owner_phone (some caller.phone)) _ _ e3 in
    let the_unit = find-key Home.id id s.units (get_own_unit-id b id s own) in
    rw (sym (ok-injective e4)) (
      link_owner_to_unit-InOrder m person u s fresh
        (subst (λ k. count (owns_now k) s.ownerships ≡ 0) (sym the_unit)
          (count-any (owns_now id) s.ownerships free))
        h)

pub transfer_ownership-InOrder :
    (b id phone actor : ℕ) (s : Registry) {t : Registry}
    → transfer_ownership b id phone actor s ≡ ok t
    → InOrder s
    → InOrder t
unfolding transfer_ownership
transfer_ownership-InOrder b id phone actor s {t} e h =
    let sync = transfer_ownership-InSync b id phone actor s e h.sync in
    let (u, _, e1) = >>=-eq-ok (get_own_unit b id s) _ e in
    let (_, e2) = guard-eq-ok (is_current_owner_of_unit id actor s) _ _ e1 in
    let done = sym (ok-injective e2) in
    rw done (record {
      sync = subst InSync done sync;
      one_owner = λ v.
          let before = h.one_owner v in
          let after =
            count-update_many-le (owns_now v) (owns_now id) end_ownership s.ownerships
              (λ x hit. refl) in
          omega (arith, before, after);
      one_manager = λ c.
          let before = h.one_manager c in
          let after =
            count-update_many-le (manages_now c) (owner_member id) end_membership s.memberships
              (λ x hit. refl) in
          omega (arith, before, after);
      homes = update-Keyed Home.id id (hand_over phone) s.units (λ x. refl) h.homes;
      members =
          update_many-Keyed (owner_member id) end_membership s.memberships (λ x. refl) h.members;
    })

pub create_tenancy-InOrder :
    (p : TenancyParams) (s : Registry) {t : Registry}
    → create_tenancy p s ≡ ok t
    → Unused Tenancy.id p.tenancy_id s.tenancies
    → Unused Membership.id p.membership_id s.memberships
    → InOrder s
    → InOrder t
unfolding create_tenancy
create_tenancy-InOrder p s {t} e fresh fresh_member h =
    let sync = create_tenancy-InSync p s e fresh h.sync in
    let (u, _, e1) = >>=-eq-ok (get_own_unit p.building_id p.unit_id s) _ e in
    let (_, e2) = guard-eq-ok (owner_or_manager p.building_id p.unit_id p.actor_id s) _ _ e1 in
    let (_, e3) = guard-eq-ok (has_current_ownership p.unit_id s) _ _ e2 in
    let (free, e4) = forbid-eq-ok (any (rents_now p.unit_id) s.tenancies) _ _ e3 in
    let done = ok-injective e4 in
    rw (sym done) (record {
      sync = subst InSync (sym done) sync;
      one_owner = h.one_owner;
      one_manager = λ b. let before = h.one_manager b in omega (arith, before);
      homes = update-Keyed Home.id p.unit_id _ s.units (λ x. refl) h.homes;
      members = (fresh_member, h.members);
    })

pub give_tenancy_notice-InOrder :
    (b id actor : ℕ) (s : Registry) {t : Registry}
    → give_tenancy_notice b id actor s ≡ ok t
    → InOrder s
    → InOrder t
unfolding give_tenancy_notice
give_tenancy_notice-InOrder b id actor s {t} e h =
    let sync = give_tenancy_notice-InSync b id actor s e h.sync in
    let (x, managed, e1) = >>=-eq-ok (get_managed_tenancy b id actor s) _ e in
    let (_, e2) = guard-eq-ok (is_active_tenancy x.status) _ _ e1 in
    let done = sym (ok-injective e2) in
    rw done (record {
      sync = subst InSync done sync;
      one_owner = h.one_owner;
      one_manager = h.one_manager;
      homes = h.homes;
      members = h.members;
    })

pub end_tenancy-InOrder :
    (b id actor : ℕ) (s : Registry) {t : Registry}
    → end_tenancy b id actor s ≡ ok t
    → InOrder s
    → InOrder t
unfolding end_tenancy
end_tenancy-InOrder b id actor s {t} e h =
    let sync = end_tenancy-InSync b id actor s e h.sync in
    let (x, managed, e1) = >>=-eq-ok (get_managed_tenancy b id actor s) _ e in
    let (_, e2) = guard-eq-ok (is_open_tenancy x.status) _ _ e1 in
    let done = sym (ok-injective e2) in
    rw done (record {
      sync = subst InSync done sync;
      one_owner = h.one_owner;
      one_manager = λ c.
          let before = h.one_manager c in
          let after =
            count-update_many-le (manages_now c) (tenant_member x.unit_id x.person_id)
              end_membership s.memberships (λ y hit. refl) in
          omega (arith, before, after);
      homes = update-Keyed Home.id x.unit_id _ s.units (λ y. refl) h.homes;
      members =
          update_many-Keyed (tenant_member x.unit_id x.person_id) end_membership s.memberships
            (λ y. refl) h.members;
    })
