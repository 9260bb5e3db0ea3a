-- ===== src/Building/Privacy.antt =====
-- What the shapes of a unit promise: the list of units and the page of a unit agree.
use vielhome_backend.Base.{
  ℕ, ◌≤◌, subst, ◌≡◌, refl, Bool, true, false, ◌&&◌, ◌||◌, Option, none, some, List, [], ◌∷◌, ◌==◌,
  ==_refl, is_some, map, any, filter, includes, if◌then◌else◌, arith, inl, inr, Bool-cases,
}
use vielhome_backend.Base.Result.{ok, expect-eq-ok, guard-eq-ok, ok-injective}
use vielhome_backend.Base.Table.{find}
use vielhome_backend.Base.Unique.{find_first}
use vielhome_backend.Base.Count.{count}
use vielhome_backend.Building.Schema.{Ownership, Tenancy, Home, BuildingRow, Registry}
use vielhome_backend.Building.Units.{
  get_own_unit, owns_now, person_owns, rents_now, person_rents, has_current_ownership,
  is_current_owner_of_unit,
}
use vielhome_backend.Building.Occupants.{get_own_unit-id}
use vielhome_backend.Building.Sound.{InOrder}
use vielhome_backend.Building.Visibility.{
  get_unit_for_person, shape_listed, find_last, owned_unit_ids, tenant_unit_ids,
  unit_ids_with_ownership, in_building, is_tenants,
}

or_true : (b : Bool) → (b || true) ≡ true
or_true true = refl
or_true false = refl

module _ {A : Type 0} where
  same_option : (o : Option A) → (if is_some o then o else none) ≡ o
  same_option none = refl
  same_option (some x) = refl

  none_last : (p : A → Bool) (xs : List A) → count p xs ≡ 0 → find_last p xs ≡ none
  none_last p [] e = refl
  none_last p (x ∷ xs) e = ground (arith, none_last p xs)

  -- Where at most one row passes, the first that passes is the last.
  first_is_last : (p : A → Bool) (xs : List A) → count p xs ≤ 1 → find_last p xs ≡ find_first p xs
  first_is_last p [] h = refl
  first_is_last p (x ∷ xs) h = elim (Bool-cases (p x)) [
    | inl e ↦ let rest_none : count p xs ≡ 0 = ground arith in rw (none_last p xs rest_none, e) refl
    | inr e ↦
        let rest : count p xs ≤ 1 = ground arith in
        rw (e, first_is_last p xs rest) (same_option (find_first p xs))
  ]

  -- A set of ids that were read contains an id exactly when a row with that id was read.
  includes-filter :
      (p q : A → Bool) (g : A → ℕ) (k : ℕ) (xs : List A)
      → ((x : A) → (q x && g x == k) ≡ p x)
      → includes (map g (filter q xs)) k ≡ any p xs
  includes-filter p q g k [] agree = refl
  includes-filter p q g k (x ∷ xs) agree =
      let rest = includes-filter p q g k xs agree in
      let here = agree x in
      elim (Bool-cases (q x)) [
        | inl e ↦ let same_test : g x == k ≡ p x = ground arith in rw (e, rest, same_test) refl
        | inr e ↦ let miss : p x ≡ false = ground arith in rw (e, rest, miss) refl
      ]

any_found :
    (test : Home → Bool) (k : ℕ) (us : List Home) {u : Home}
    → find Home.id k us ≡ some u
    → test u ≡ true
    → any test us ≡ true
unfolding find
any_found test k [] found e = cc
any_found test k (v ∷ us) {u} found e = elim (Bool-cases (v.id == k)) [
  | inl hit ↦ let the_row : v ≡ u = ground arith in rw (the_row, e) refl
  | inr miss ↦
      let later : find Home.id k us ≡ some u = ground arith in
      rw (any_found test k us later e) (or_true (test v))
]

get_own_unit-building :
    (b id : ℕ) (s : Registry) {u : Home} → get_own_unit b id s ≡ ok u → (u.building_id == b ≡ true)
unfolding get_own_unit
get_own_unit-building b id s {u} own =
    let (_, _, e1) = expect-eq-ok (find BuildingRow.id b s.buildings) _ _ own in
    let (v, _, e2) = expect-eq-ok (find Home.id id s.units) _ _ e1 in
    let (here, e3) = guard-eq-ok (v.building_id == b) _ _ e2 in
    subst (λ (x : Home). x.building_id == b ≡ true) (ok-injective e3) here

in_building_own :
    (b : ℕ) (u : Home) (s : Registry) → get_own_unit b u.id s ≡ ok u → in_building b s u.id ≡ true
in_building_own b u s own =
    any_found (λ (v : Home). v.id == u.id && v.building_id == b) u.id s.units
      (get_own_unit-id b u.id s own) (rw (==_refl u.id) (get_own_unit-building b u.id s own))

-- A test of the building adds nothing for a unit that is in it.
shift :
    (current mine inside here : Bool)
    → (here ≡ true → inside ≡ true)
    → ((current && mine && inside) && here) ≡ (current && here && mine)
shift false mine inside here h = refl
shift true false inside true h = refl
shift true false inside false h = refl
shift true true inside true h = rw (h refl) refl
shift true true true false h = refl
shift true true false false h = refl

shift_any :
    (current inside here : Bool)
    → (here ≡ true → inside ≡ true)
    → ((current && inside) && here) ≡ (current && here)
shift_any false inside here h = refl
shift_any true inside true h = rw (h refl) refl
shift_any true true false h = refl
shift_any true false false h = refl

inside_here :
    (b k unit_id : ℕ) (s : Registry)
    → in_building b s k ≡ true
    → unit_id == k ≡ true
    → in_building b s unit_id ≡ true
inside_here b k unit_id s inside e =
    let eq : k ≡ unit_id = ground arith in subst (λ j. in_building b s j ≡ true) eq inside

owner_ids :
    (b person k : ℕ) (s : Registry)
    → in_building b s k ≡ true
    → includes (owned_unit_ids b person s) k ≡ is_current_owner_of_unit k person s
owner_ids b person k s inside =
    includes-filter (person_owns k person)
      (λ (o : Ownership). o.is_current && o.person_id == person && in_building b s o.unit_id)
      (λ (o : Ownership). o.unit_id) k s.ownerships
      (λ o.
        shift o.is_current (o.person_id == person) (in_building b s o.unit_id) (o.unit_id == k)
          (inside_here b k o.unit_id s inside))

tenant_ids :
    (b person k : ℕ) (s : Registry)
    → in_building b s k ≡ true
    → includes (tenant_unit_ids b person s) k ≡ any (person_rents k person) s.tenancies
tenant_ids b person k s inside =
    includes-filter (person_rents k person)
      (λ (t : Tenancy). t.is_current && t.person_id == person && in_building b s t.unit_id)
      (λ (t : Tenancy). t.unit_id) k s.tenancies
      (λ t.
        shift t.is_current (t.person_id == person) (in_building b s t.unit_id) (t.unit_id == k)
          (inside_here b k t.unit_id s inside))

owned_ids :
    (b k : ℕ) (s : Registry)
    → in_building b s k ≡ true
    → includes (unit_ids_with_ownership b s) k ≡ has_current_ownership k s
owned_ids b k s inside =
    includes-filter (owns_now k) (λ (o : Ownership). o.is_current && in_building b s o.unit_id)
      (λ (o : Ownership). o.unit_id) k s.ownerships
      (λ o.
        shift_any o.is_current (in_building b s o.unit_id) (o.unit_id == k)
          (inside_here b k o.unit_id s inside))

or_false : (b : Bool) → (b || false) ≡ b
or_false true = refl
or_false false = refl

no_tenant :
    (k person : ℕ) (ts : List Tenancy)
    → count (rents_now k) ts ≡ 0
    → any (person_rents k person) ts ≡ false
no_tenant k person [] e = refl
no_tenant k person (t ∷ ts) e =
    let rest_none : count (rents_now k) ts ≡ 0 = ground arith in
    let rest = no_tenant k person ts rest_none in ground arith

-- With at most one current tenancy, who rents the unit is the person of the first.
one_tenant :
    (k person : ℕ) (ts : List Tenancy)
    → count (rents_now k) ts ≤ 1
    → any (person_rents k person) ts ≡ is_tenants (find_first (rents_now k) ts) person
one_tenant k person [] h = refl
one_tenant k person (t ∷ ts) h = elim (Bool-cases (rents_now k t)) [
  | inl e ↦
      let rest_none : count (rents_now k) ts ≡ 0 = ground arith in
      let others = no_tenant k person ts rest_none in
      rw (e, others) (or_false (t.person_id == person))
  | inr e ↦
      let rest : count (rents_now k) ts ≤ 1 = ground arith in rw e (one_tenant k person ts rest)
]

-- Where the invariant of the tables holds, a unit of the building is shown in the list as on its own page,
-- to every person.
pub list_units-get_unit :
    (b person : ℕ) (u : Home) (s : Registry)
    → InOrder s
    → get_own_unit b u.id s ≡ ok u
    → get_unit_for_person b u.id person s ≡ ok (shape_listed b person s u)
unfolding get_unit_for_person shape_listed
list_units-get_unit b person u s h own =
    let inside = in_building_own b u s own in
    rw
      (
        own,
        owner_ids b person u.id s inside,
        tenant_ids b person u.id s inside,
        owned_ids b u.id s inside,
        first_is_last (owns_now u.id) s.ownerships (h.one_owner u.id),
        first_is_last (rents_now u.id) s.tenancies (h.sync.one_tenancy u.id),
        one_tenant u.id person s.tenancies (h.sync.one_tenancy u.id),
      )
      refl
