-- ===== src/Building/Occupants.antt =====
-- Who owns and who rents a unit, in the ownerships and tenancies and in the memberships: the two records
-- agree after any run of the operations of Units.
use vielhome_backend.Base.{
  ℕ, ◌+◌, ◌≤◌, ap, sym, subst, ◌∙◌, ◌≡◌, refl, Bool, true, false, ◌&&◌, ◌||◌, some, List, [], ◌∷◌,
  ◌==◌, same, arith, inl, inr, Bool-cases, any, All,
}
use vielhome_backend.Base.Result.{
  ok, guard-eq-ok, forbid-eq-ok, >>=-eq-ok, expect-eq-ok, ok-injective,
}
use vielhome_backend.Base.Table.{find, update, Keyed, Unused, All-update}
use vielhome_backend.Base.Count.{
  indicator, count, update_many, count-update_many-cleared, count-update_many-kept, count-update,
  count-any, count_mono,
}
use vielhome_backend.Query.{update-Keyed, find-All}
use vielhome_backend.Building.Schema.{
  is_owner, Membership, Tenancy, TenancyStatus, active, notice_given, ended, Home, Person,
  BuildingRow, Registry,
}
use vielhome_backend.Building.Units.{
  get_own_unit, owns_now, person_owns, rents_now, person_rents, owner_member, tenant_member,
  has_current_ownership, link_owner_to_unit, link_units, claim_ownership, transfer_ownership,
  TenancyParams, create_tenancy, get_managed_tenancy, give_tenancy_notice, end_row, end_ownership,
  end_membership, end_tenancy, is_open_tenancy, is_active_tenancy, notice_row, owner_or_manager,
  is_current_owner_of_unit,
}

-- A membership as the owner of a unit, of one person.
abbrev pub person_owner_member : ℕ → ℕ → Membership → Bool
person_owner_member unit_id person m =
    m.is_current && is_owner m.role && same m.unit_id (some unit_id) && m.person_id == person

-- A tenancy is current exactly when it has not ended.
abbrev pub TenancySound : Tenancy → Type 0
TenancySound t = t.is_current ≡ is_open_tenancy t.status

-- For every unit and person there are as many current ownerships as current OWNER memberships of the unit,
-- and as many current tenancies as current TENANT memberships; a unit has at most one current tenancy.
pub record InSync (s : Registry) : Type 0 where
  pub owners :
      (u p : ℕ)
      → count (person_owns u p) s.ownerships ≡ count (person_owner_member u p) s.memberships
  pub tenants :
      (u p : ℕ) → count (person_rents u p) s.tenancies ≡ count (tenant_member u p) s.memberships
  pub one_tenancy : (u : ℕ) → count (rents_now u) s.tenancies ≤ 1
  pub keyed : Keyed Tenancy.id s.tenancies
  pub rows : All TenancySound s.tenancies

pub link_owner_to_unit-InSync :
    (id person : ℕ) (u : Home) (s : Registry) → InSync s → InSync (link_owner_to_unit id person u s)
unfolding link_owner_to_unit
link_owner_to_unit-InSync id person u s h = record {
  owners = λ v p. let before = h.owners v p in omega (arith, before);
  tenants = λ v p. let before = h.tenants v p in omega (arith, before);
  one_tenancy = h.one_tenancy;
  keyed = h.keyed;
  rows = h.rows;
}

link_units-InSync :
    (ids : ℕ → ℕ) (person : ℕ) (us : List Home) (s : Registry)
    → InSync s
    → InSync (link_units ids person us s)
link_units-InSync ids person [] s h = h
link_units-InSync ids person (u ∷ us) s h =
    link_units-InSync ids person us (link_owner_to_unit (ids u.id) person u s)
      (link_owner_to_unit-InSync (ids u.id) person u s h)

pub get_own_unit-id :
    (b id : ℕ) (s : Registry) {u : Home}
    → get_own_unit b id s ≡ ok u
    → find Home.id id s.units ≡ some u
unfolding get_own_unit
get_own_unit-id b id s {u} e =
    let (_, _, e1) = expect-eq-ok (find BuildingRow.id b s.buildings) _ _ e in
    let (v, found, e2) = expect-eq-ok (find Home.id id s.units) _ _ e1 in
    let (_, e3) = guard-eq-ok (v.building_id == b) _ _ e2 in
    found ∙ ap (λ x. some x) (ok-injective e3)

pub claim_ownership-InSync :
    (b id person m : ℕ) (s : Registry) {t : Registry}
    → claim_ownership b id person m s ≡ ok t
    → InSync s
    → InSync t
unfolding claim_ownership
claim_ownership-InSync b id person m s {t} e h =
    let (u, _, e1) = >>=-eq-ok (get_own_unit b id s) _ e in
    let (_, _, e2) = expect-eq-ok (find Person.id person s.persons) _ _ e1 in
    let done : t ≡ link_owner_to_unit m person u s = ground arith in
    rw done (link_owner_to_unit-InSync m person u s h)

-- What a transfer leaves of the rows of each unit and person.
transfer_counts :
    (id v p : ℕ) (s : Registry)
    → count (person_owns v p) s.ownerships ≡ count (person_owner_member v p) s.memberships
    → count (person_owns v p) (update_many (owns_now id) end_ownership s.ownerships)
      ≡ count (person_owner_member v p) (update_many (owner_member id) end_membership s.memberships)
transfer_counts id v p s before = elim (Bool-cases (id == v)) [
  | inl e ↦
      let unit_is : id ≡ v = ground arith in
      count-update_many-cleared (person_owns v p) (owns_now id) _ s.ownerships
        (λ x hit. ground arith) (λ x. refl)
      ∙ sym (
          count-update_many-cleared (person_owner_member v p) (owner_member id) _ s.memberships
            (λ x hit. ground arith) (λ x. refl))
  | inr e ↦
      count-update_many-kept (person_owns v p) (owns_now id) _ s.ownerships (λ x hit. ground arith)
        (λ x _. refl)
      ∙ before
      ∙ sym (
          count-update_many-kept (person_owner_member v p) (owner_member id) _ s.memberships
            (λ x hit. ground arith) (λ x _. refl))
]

pub transfer_ownership-InSync :
    (b id phone actor : ℕ) (s : Registry) {t : Registry}
    → transfer_ownership b id phone actor s ≡ ok t
    → InSync s
    → InSync t
unfolding transfer_ownership
transfer_ownership-InSync b id phone actor s {t} e h =
    let (u, _, e1) = >>=-eq-ok (get_own_unit b id s) _ e in
    let (_, e2) = guard-eq-ok (is_current_owner_of_unit id actor s) _ _ e1 in
    rw (sym (ok-injective e2)) (record {
      owners = λ v p. transfer_counts id v p s (h.owners v p);
      tenants = λ v p.
          h.tenants v p
          ∙ sym (
              count-update_many-kept (tenant_member v p) (owner_member id) _ s.memberships
                (λ x hit. ground arith) (λ x _. refl));
      one_tenancy = h.one_tenancy;
      keyed = h.keyed;
      rows = h.rows;
    })

pub create_tenancy-InSync :
    (p : TenancyParams) (s : Registry) {t : Registry}
    → create_tenancy p s ≡ ok t
    → Unused Tenancy.id p.tenancy_id s.tenancies
    → InSync s
    → InSync t
unfolding create_tenancy
create_tenancy-InSync p s {t} e fresh h =
    let (u, _, e1) = >>=-eq-ok (get_own_unit p.building_id p.unit_id s) _ e in
    let (_, e2) = guard-eq-ok (owner_or_manager p.building_id p.unit_id p.actor_id s) _ _ e1 in
    let (_, e3) = guard-eq-ok (has_current_ownership p.unit_id s) _ _ e2 in
    let (free, e4) = forbid-eq-ok (any (rents_now p.unit_id) s.tenancies) _ _ e3 in
    rw (sym (ok-injective e4)) (record {
      owners = λ v q. let before = h.owners v q in omega (arith, before);
      tenants = λ v q. let before = h.tenants v q in omega (arith, before);
      one_tenancy = λ v. one_more p v s free (h.one_tenancy v);
      keyed = (fresh, h.keyed);
      rows = (refl, h.rows);
    })
  where
    one_more :
        (p : TenancyParams) (v : ℕ) (s : Registry)
        → any (rents_now p.unit_id) s.tenancies ≡ false
        → count (rents_now v) s.tenancies ≤ 1
        → indicator (p.unit_id == v) + count (rents_now v) s.tenancies ≤ 1
    one_more p v s free before = elim (Bool-cases (p.unit_id == v)) [
      | inl e ↦
          let none_there = count-any (rents_now p.unit_id) s.tenancies free in
          let unit_is : p.unit_id ≡ v = ground arith in
          let now : count (rents_now v) s.tenancies ≡ 0 =
            subst (λ k. count (rents_now k) s.tenancies ≡ 0) unit_is none_there in
          rw e (omega arith)
      | inr e ↦ rw e (omega arith)
    ]

get_managed_tenancy-found :
    (b id actor : ℕ) (s : Registry) {x : Tenancy}
    → get_managed_tenancy b id actor s ≡ ok x
    → find Tenancy.id id s.tenancies ≡ some x
unfolding get_managed_tenancy
get_managed_tenancy-found b id actor s {x} e =
    let (y, found, e1) = expect-eq-ok (find Tenancy.id id s.tenancies) _ _ e in
    let (_, _, e2) = >>=-eq-ok (get_own_unit b y.unit_id s) _ e1 in
    let (_, e3) =
      guard-eq-ok (owner_or_manager b y.unit_id actor s || y.person_id == actor) _ _ e2 in
    found ∙ ap (λ z. some z) (ok-injective e3)

notice_sound :
    (x : Tenancy) → is_active_tenancy x.status ≡ true → TenancySound x → x.is_current ≡ true
notice_sound x is_now sound = sound ∙ open_one x.status is_now
  where
    open_one : (st : TenancyStatus) → is_active_tenancy st ≡ true → is_open_tenancy st ≡ true
    open_one active e = refl
    open_one notice_given e = refl
    open_one ended e = cc

-- Notice changes neither who rents the unit nor whether the tenancy is current.
pub give_tenancy_notice-InSync :
    (b id actor : ℕ) (s : Registry) {t : Registry}
    → give_tenancy_notice b id actor s ≡ ok t
    → InSync s
    → InSync t
unfolding give_tenancy_notice
give_tenancy_notice-InSync b id actor s {t} e h =
    let (x, managed, e1) = >>=-eq-ok (get_managed_tenancy b id actor s) _ e in
    let (is_now, e2) = guard-eq-ok (is_active_tenancy x.status) _ _ e1 in
    let found = get_managed_tenancy-found b id actor s managed in
    rw (sym (ok-injective e2)) (record {
      owners = h.owners;
      tenants = λ v p.
          let before = h.tenants v p in
          let after = count-update Tenancy.id (person_rents v p) id notice_row s.tenancies found in
          omega (arith, before, after);
      one_tenancy = λ v.
          let before = h.one_tenancy v in
          let after = count-update Tenancy.id (rents_now v) id notice_row s.tenancies found in
          omega (arith, before, after);
      keyed = update-Keyed Tenancy.id id notice_row s.tenancies (λ z. refl) h.keyed;
      rows =
          All-update Tenancy.id TenancySound id notice_row s.tenancies
            (λ y at sound.
              let the_row : x ≡ y = ground arith in
              subst (λ (z : Tenancy). TenancySound z → TenancySound (notice_row z)) the_row
                (notice_sound x is_now) sound)
            h.rows;
    })

-- The tenancy and its membership end together.
end_counts :
    (id : ℕ) (x : Tenancy) (v p : ℕ) (s : Registry)
    → find Tenancy.id id s.tenancies ≡ some x
    → x.is_current ≡ true
    → count (rents_now v) s.tenancies ≤ 1
    → count (person_rents v p) s.tenancies ≡ count (tenant_member v p) s.memberships
    → count (person_rents v p) (update Tenancy.id id end_row s.tenancies)
      ≡ count
          (tenant_member v p)
          (update_many (tenant_member x.unit_id x.person_id) end_membership s.memberships)
end_counts id x v p s found is_current at_most before =
    let after = count-update Tenancy.id (person_rents v p) id end_row s.tenancies found in
    elim (Bool-cases (x.unit_id == v && x.person_id == p)) [
      | inl e ↦
          let stronger =
            count_mono (person_rents v p) (rents_now v) s.tenancies (λ y hit. ground arith) in
          let was_one : indicator (person_rents v p x) ≡ 1 = rw (is_current, e) refl in
          let gone =
            count-update_many-cleared (tenant_member v p) (tenant_member x.unit_id x.person_id)
              end_membership s.memberships (λ y hit. ground arith) (λ y. refl) in
          omega (arith, after, stronger, was_one, gone, at_most)
      | inr e ↦
          let was_none : person_rents v p x ≡ false = rw (is_current, e) refl in
          let kept =
            count-update_many-kept (tenant_member v p) (tenant_member x.unit_id x.person_id)
              end_membership s.memberships (λ y hit. ground arith) (λ y _. refl) in
          let was_zero : indicator (person_rents v p x) ≡ 0 = ap indicator was_none in
          omega (arith, after, was_zero, kept, before)
    ]

pub end_tenancy-InSync :
    (b id actor : ℕ) (s : Registry) {t : Registry}
    → end_tenancy b id actor s ≡ ok t
    → InSync s
    → InSync t
unfolding end_tenancy
end_tenancy-InSync b id actor s {t} e h =
    let (x, managed, e1) = >>=-eq-ok (get_managed_tenancy b id actor s) _ e in
    let (is_open, e2) = guard-eq-ok (is_open_tenancy x.status) _ _ e1 in
    let found = get_managed_tenancy-found b id actor s managed in
    let sound_now : TenancySound x = find-All Tenancy.id TenancySound id s.tenancies h.rows found in
    rw (sym (ok-injective e2)) (record {
      owners = λ v p.
          h.owners v p
          ∙ sym (
              count-update_many-kept (person_owner_member v p) (tenant_member x.unit_id x.person_id)
                _ s.memberships (λ y hit. ground arith) (λ y _. refl));
      tenants = λ v p.
          end_counts id x v p s found (sound_now ∙ is_open) (h.one_tenancy v) (h.tenants v p);
      one_tenancy = λ v.
          let before = h.one_tenancy v in
          let after = count-update Tenancy.id (rents_now v) id end_row s.tenancies found in
          omega (arith, before, after);
      keyed = update-Keyed Tenancy.id id end_row s.tenancies (λ z. refl) h.keyed;
      rows = All-update Tenancy.id TenancySound id end_row s.tenancies (λ y at sound. refl) h.rows;
    })
