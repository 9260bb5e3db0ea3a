-- ===== src/Building/Residents.antt =====
-- Memberships of a whole building beside those of units: what a change of the first leaves of the second.
use vielhome_backend.Base.{
  ℕ, ◌≤◌, ap, sym, subst, ◌∙◌, ◌≡◌, refl, true, false, Option, some, List, ◌∷◌, ◌==◌, arith, inl,
  inr, Bool-cases,
}
use vielhome_backend.Base.Table.{find, update, Keyed}
use vielhome_backend.Base.Count.{indicator, count, count-update}
use vielhome_backend.Building.Schema.{
  MembershipRole, is_owner, is_tenant, is_manager, ManagerState, Membership, Home, Registry,
}
use vielhome_backend.Building.Units.{tenant_member}
use vielhome_backend.Building.Managers.{manages_now, building_membership}
use vielhome_backend.Building.Occupants.{person_owner_member}
use vielhome_backend.Building.Sound.{InOrder}

-- A list of memberships that counts the same owners and tenants of units.
pub record SameResidents (ms ns : List Membership) : Type 0 where
  pub owners : (u p : ℕ) → count (person_owner_member u p) ns ≡ count (person_owner_member u p) ms
  pub tenants : (u p : ℕ) → count (tenant_member u p) ns ≡ count (tenant_member u p) ms

-- A manager's row is neither an owner's nor a tenant's.
manager_apart :
    (r : MembershipRole) → is_manager r ≡ true → (is_owner r ≡ false) × (is_tenant r ≡ false)
manager_apart MembershipRole.manager e = (refl, refl)
manager_apart MembershipRole.owner e = cc
manager_apart MembershipRole.tenant e = cc
manager_apart MembershipRole.board_member e = cc
manager_apart MembershipRole.accountant e = cc

not_counted :
    (u p : ℕ) (m : Membership)
    → is_manager m.role ≡ true
    → (indicator (person_owner_member u p m) ≡ 0) × (indicator (tenant_member u p m) ≡ 0)
not_counted u p m managing =
    let (not_owner, not_tenant) = manager_apart m.role managing in (ground arith, ground arith)

-- The change of a manager's row leaves the residents.
pub update-SameResidents :
    (k : ℕ) (f : Membership → Membership) (ms : List Membership) {m : Membership}
    → find Membership.id k ms ≡ some m
    → is_manager m.role ≡ true
    → (f m).role ≡ m.role
    → SameResidents ms (update Membership.id k f ms)
update-SameResidents k f ms {m} found managing same_role = record {
  owners = λ u p.
      let after = count-update Membership.id (person_owner_member u p) k f ms found in
      let (old, _) = not_counted u p m managing in
      let (new, _) = not_counted u p (f m) (same_role_managing f m managing same_role) in
      omega (arith, after, old, new);
  tenants = λ u p.
      let after = count-update Membership.id (tenant_member u p) k f ms found in
      let (_, old) = not_counted u p m managing in
      let (_, new) = not_counted u p (f m) (same_role_managing f m managing same_role) in
      omega (arith, after, old, new);
}
  where
    same_role_managing :
        (f : Membership → Membership) (m : Membership)
        → is_manager m.role ≡ true
        → (f m).role ≡ m.role
        → is_manager (f m).role ≡ true
    same_role_managing f m managing same_role = ap is_manager same_role ∙ managing

-- The invariant after a write of the memberships, and of nothing that it names beside them.
pub written-InOrder :
    (s t : Registry)
    → t.ownerships ≡ s.ownerships
    → t.tenancies ≡ s.tenancies
    → Keyed Home.id t.units
    → SameResidents s.memberships t.memberships
    → ((b : ℕ) → count (manages_now b) t.memberships ≤ 1)
    → Keyed Membership.id t.memberships
    → InOrder s
    → InOrder t
written-InOrder s t same_owners same_tenants homes residents one_manager members h = record {
  sync = record {
    owners = λ u p. rw same_owners (h.sync.owners u p ∙ sym (residents.owners u p));
    tenants = λ u p. rw same_tenants (h.sync.tenants u p ∙ sym (residents.tenants u p));
    one_tenancy = λ u. rw same_tenants (h.sync.one_tenancy u);
    keyed = rw same_tenants h.sync.keyed;
    rows = rw same_tenants h.sync.rows;
  };
  one_owner = λ u. rw same_owners (h.one_owner u);
  one_manager = one_manager;
  homes = homes;
  members = members;
}

-- A new row of the whole building is no resident's.
pub cons-SameResidents :
    (id person b : ℕ) (role : MembershipRole) (state : Option ManagerState)
    (ms ns : List Membership)
    → SameResidents ms ns
    → SameResidents ms (building_membership id person b role state ∷ ns)
cons-SameResidents id person b role state ms ns h = record {
  owners = λ u p.
      let before = h.owners u p in
      elim (Bool-cases (is_owner role)) [
        | inl e ↦ rw e (omega (arith, before))
        | inr e ↦ rw e (omega (arith, before))
      ];
  tenants = λ u p.
      let before = h.tenants u p in
      elim (Bool-cases (is_tenant role)) [
        | inl e ↦ rw e (omega (arith, before))
        | inr e ↦ rw e (omega (arith, before))
      ];
}

pub same-SameResidents : (ms : List Membership) → SameResidents ms ms
same-SameResidents ms = record { owners = λ u p. refl; tenants = λ u p. refl }

-- A new current manager, where the building had none.
pub one_more_manager :
    (id person b c : ℕ) (state : Option ManagerState) (role : MembershipRole) (ms : List Membership)
    → (is_manager role ≡ true → count (manages_now b) ms ≡ 0)
    → count (manages_now c) ms ≤ 1
    → count (manages_now c) (building_membership id person b role state ∷ ms) ≤ 1
one_more_manager id person b c state role ms free before = elim (Bool-cases (is_manager role)) [
  | inr e ↦ rw e (omega (arith, before))
  | inl e ↦ elim (Bool-cases (b == c)) [
    | inr f ↦ rw (e, f) (omega (arith, before))
    | inl f ↦
        let b_is : b ≡ c = ground arith in
        let now : count (manages_now c) ms ≡ 0 =
          subst (λ k. count (manages_now k) ms ≡ 0) b_is (free e) in
        rw (e, f) (omega (arith, now))
  ]
]
