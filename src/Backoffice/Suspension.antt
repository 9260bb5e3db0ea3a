-- ===== src/Backoffice/Suspension.antt =====
-- Suspending and reinstating a person by staff: changePersonSuspensionAtomically of backoffice.repository.ts,
-- which user-administration.service.ts calls.
use vielhome_backend.Base.{
  ℕ, ◌≤◌, ap, sym, subst, ◌∙◌, ◌≡◌, refl, Bool, true, false, ◌&&◌, not, Option, none, some, List,
  [], ◌∷◌, ◌==◌, ==_refl, is_some, any, leb, All, All-map, arith, inl, inr, Bool-cases,
  Option-cases, if◌then◌else◌,
}
use vielhome_backend.Base.Result.{
  Result, ok, conflict, not_found, expect, guard, forbid, ◌>>=◌, ◌>>◌, guard-eq-ok, forbid-eq-ok,
  expect-eq-ok, ok-injective,
}
use vielhome_backend.Base.Table.{find, update, find-update, Keyed}
use vielhome_backend.Base.Lookup.{find-cons_self, find-cons-other}
use vielhome_backend.Base.Count.{count, update_many, count_mono}
use vielhome_backend.Base.Unique.{find_first}
use vielhome_backend.Accounts.Tokens.{TokenRow}
use vielhome_backend.Backoffice.Enforcement.{
  Target, on_person, Account, Action, Desk, set_suspended, write_account, is_suspension,
}

pub data StaffRole : Type 0 where
  reviewer : StaffRole
  senior_reviewer : StaffRole
  platform_admin : StaffRole

pub record Staff : Type 0 where
  pub id : ℕ
  pub person_id : ℕ
  pub role : StaffRole
  pub is_active : Bool

pub record Office : Type 0 where
  pub desk : Desk
  pub staff : List Staff
  pub tokens : List TokenRow

abbrev pub rank : StaffRole → ℕ
rank reviewer = 1
rank senior_reviewer = 2
rank platform_admin = 3

abbrev pub is_admin : StaffRole → Bool
is_admin platform_admin = true
is_admin _ = false

abbrev pub is_free_account : Option Account → Bool
is_free_account none = false
is_free_account (some a) = not a.is_suspended

-- An active administrator whose account is not suspended.
abbrev pub is_usable_admin : List Account → Staff → Bool
is_usable_admin accounts r =
    is_admin r.role && r.is_active && is_free_account (find Account.id r.person_id accounts)

abbrev pub outranked : StaffRole → Option Staff → Bool
outranked actor none = false
outranked actor (some t) = t.is_active && not (is_admin actor) && leb (rank actor) (rank t.role)

abbrev pub is_other_admin : List Account → ℕ → Staff → Bool
is_other_admin accounts id r = not (r.id == id) && is_usable_admin accounts r

abbrev pub is_last_admin : List Account → List Staff → Option Staff → Bool
is_last_admin accounts staff none = false
is_last_admin accounts staff (some t) =
    t.is_active && is_admin t.role && (count (is_other_admin accounts t.id) staff == 0)

abbrev pub is_on_person : ℕ → Target → Bool
is_on_person person (on_person p) = p == person
is_on_person person _ = false

-- A suspension of the person that is not taken back.
abbrev pub is_in_force : ℕ → Action → Bool
is_in_force person a =
    is_suspension a.action_type
    && is_on_person person a.target
    && is_some a.previous
    && not a.is_reversed

abbrev pub is_live_token : ℕ → TokenRow → Bool
is_live_token person t = t.person_id == person && not t.is_revoked

abbrev pub revoke : TokenRow → TokenRow
revoke t = record t { is_revoked = true }

-- `changePersonSuspensionAtomically`
unfoldable pub change_person_suspension : ℕ → ℕ → Bool → Office → Result Office
change_person_suspension person actor_id suspend s = do
  forbid (person == actor_id) conflict
  account ← expect (find Account.id person s.desk.accounts) not_found
  actor ←
      expect (find_first (λ (r : Staff). r.person_id == actor_id && r.is_active) s.staff) conflict
  forbid (outranked actor.role (find Staff.person_id person s.staff)) conflict
  forbid (suspend && is_last_admin s.desk.accounts s.staff (find Staff.person_id person s.staff))
      conflict
  forbid (not suspend && any (is_in_force person) s.desk.actions) conflict
  guard (if suspend then not account.is_suspended else account.is_suspended) conflict
  ok (record s {
    desk = write_account person suspend s.desk;
    tokens = if suspend then update_many (is_live_token person) revoke s.tokens else s.tokens;
  })

-- What the operation has checked when it returns.
suspension_checks :
    (person actor_id : ℕ) (suspend : Bool) (s : Office) {t : Office}
    → change_person_suspension person actor_id suspend s ≡ ok t
    → ((suspend && is_last_admin s.desk.accounts s.staff (find Staff.person_id person s.staff))
        ≡ false)
      × (t.desk.accounts ≡ update Account.id person (set_suspended suspend) s.desk.accounts)
      × (t.staff ≡ s.staff)
unfolding change_person_suspension
suspension_checks person actor_id suspend s e =
    let (_, e1) = forbid-eq-ok (person == actor_id) _ _ e in
    let (account, _, e2) = expect-eq-ok (find Account.id person s.desk.accounts) _ _ e1 in
    let (actor, _, e3) = expect-eq-ok (find_first _ s.staff) _ _ e2 in
    let (_, e4) =
      forbid-eq-ok (outranked actor.role (find Staff.person_id person s.staff)) _ _ e3 in
    let (not_last, e5) = forbid-eq-ok (suspend && _) _ _ e4 in
    let (_, e6) = forbid-eq-ok (not suspend && any (is_in_force person) s.desk.actions) _ _ e5 in
    let (_, e7) =
      guard-eq-ok (if suspend then not account.is_suspended else account.is_suspended) _ _ e6 in
    let done = sym (ok-injective e7) in
    (not_last, ap (λ (x : Office). x.desk.accounts) done, ap (λ (x : Office). x.staff) done)

some-injective : {A : Type 0} {x y : A} → some x ≡ some y → x ≡ y
some-injective e = cc

count-All :
    {A : Type 0} (p q : A → Bool) (xs : List A)
    → All (λ x. p x ≡ true → q x ≡ true) xs
    → count p xs ≤ count q xs
count-All p q [] h = omega arith
count-All p q (x ∷ xs) (step, h) = elim (Bool-cases (p x)) [
  | inl e ↦ let rest = count-All p q xs h in rw (e, step e) (omega (arith, rest))
  | inr e ↦ let rest = count-All p q xs h in rw e (omega (arith, rest))
]

-- Every row of a person is the one that is found, where a person has at most one.
rows_of_person :
    (person : ℕ) (xs : List Staff)
    → Keyed Staff.person_id xs
    → All (λ (r : Staff). r.person_id == person ≡ true → find Staff.person_id person xs ≡ some r) xs
rows_of_person person [] h = tt
rows_of_person person (x ∷ xs) (fresh, h) = (
  λ e.
      let the_person : x.person_id ≡ person = ground arith in
      subst (λ k. find Staff.person_id k (x ∷ xs) ≡ some x) the_person
        (find-cons_self Staff.person_id x xs),
  All-map _ _ xs (λ r step e. find-cons-other Staff.person_id person x xs fresh (step e))
      (rows_of_person person xs h),
)

-- Another person's account is not changed.
usable_apart :
    (person : ℕ) (value : Bool) (accounts : List Account) (r : Staff)
    → r.person_id == person ≡ false
    → is_usable_admin accounts r ≡ true
    → is_usable_admin (update Account.id person (set_suspended value) accounts) r ≡ true
usable_apart person value accounts r apart usable =
    let other : person == r.person_id ≡ false = ground arith in
    rw (find-update Account.id person r.person_id (set_suspended value) accounts (λ x. refl), other)
      usable

-- A reinstated person's account is free.
free_after :
    (person k : ℕ) (accounts : List Account)
    → is_free_account (find Account.id k accounts) ≡ true
    → is_free_account (find Account.id k (update Account.id person (set_suspended false) accounts))
      ≡ true
free_after person k accounts free =
    let read = find-update Account.id person k (set_suspended false) accounts (λ x. refl) in
    elim (Option-cases (find Account.id k accounts)) [
      | inl missing ↦ let absurd : is_free_account none ≡ true = rw missing at free in cc
      | inr (a, there) ↦ elim (Bool-cases (person == k)) [
        | inl e ↦ rw (read, e, there) refl
        | inr e ↦ rw (read, e) free
      ]
    ]

-- The administrators that a test picks stay usable, where it picks none of the person's rows.
others_stay :
    (person : ℕ) (accounts : List Account) (staff : List Staff) (p : Staff → Bool)
    → Keyed Staff.person_id staff
    → ((r : Staff) → p r ≡ true → is_usable_admin accounts r ≡ true)
    → ((r : Staff) → find Staff.person_id person staff ≡ some r → p r ≡ false)
    → count p staff
      ≤ count (is_usable_admin (update Account.id person (set_suspended true) accounts)) staff
others_stay person accounts staff p h usable not_picked = count-All p _ staff (
    All-map _ _ staff
      (λ r found picked. elim (Bool-cases (r.person_id == person)) [
        | inl e ↦ let missed = not_picked r (found e) in cc
        | inr e ↦ usable_apart person true accounts r e (usable r picked)
      ])
      (rows_of_person person staff h))

unusable :
    (active : Bool) (role : StaffRole) (free : Bool)
    → (active && is_admin role) ≡ false
    → (is_admin role && active && free) ≡ false
unusable active role free e = ground arith

suspension_keeps :
    (person : ℕ) (accounts : List Account) (staff : List Staff)
    → Keyed Staff.person_id staff
    → is_last_admin accounts staff (find Staff.person_id person staff) ≡ false
    → 1 ≤ count (is_usable_admin accounts) staff
    → 1 ≤ count (is_usable_admin (update Account.id person (set_suspended true) accounts)) staff
suspension_keeps person accounts staff h not_last before =
    elim (Option-cases (find Staff.person_id person staff)) [
      | inl missing ↦
          let kept =
            others_stay person accounts staff (is_usable_admin accounts) h (λ r u. u)
              (λ r found. cc) in
          omega (arith, kept, before)
      | inr (w, there) ↦ elim (Bool-cases (w.is_active && is_admin w.role)) [
        | inl admin ↦
            let another : 1 ≤ count (is_other_admin accounts w.id) staff =
              let refused : is_last_admin accounts staff (some w) ≡ false = rw there at not_last in
              ground arith in
            let kept =
              others_stay person accounts staff (is_other_admin accounts w.id) h
                (λ r u. ground arith)
                (λ r found.
                  let the_row : w ≡ r = some-injective (sym there ∙ found) in
                  subst (λ x. is_other_admin accounts w.id x ≡ false) the_row
                    (rw (==_refl w.id) refl)) in
            omega (arith, kept, another)
        | inr not_admin ↦
            let kept =
              others_stay person accounts staff (is_usable_admin accounts) h (λ r u. u)
                (λ r found.
                  let the_row : w ≡ r = some-injective (sym there ∙ found) in
                  subst (λ x. is_usable_admin accounts x ≡ false) the_row
                    (unusable w.is_active w.role _ not_admin)) in
            omega (arith, kept, before)
      ]
    ]

-- Where a person is staff at most once, a suspension or a reinstatement that returns leaves an active
-- administrator with an account that is not suspended, if there was one.
pub change_person_suspension-keeps_admin :
    (person actor_id : ℕ) (suspend : Bool) (s : Office) {t : Office}
    → Keyed Staff.person_id s.staff
    → 1 ≤ count (is_usable_admin s.desk.accounts) s.staff
    → change_person_suspension person actor_id suspend s ≡ ok t
    → 1 ≤ count (is_usable_admin t.desk.accounts) t.staff
change_person_suspension-keeps_admin person actor_id false s {t} h before e =
    let (_, accounts, staff) = suspension_checks person actor_id false s e in
    let kept =
      count_mono (is_usable_admin s.desk.accounts)
        (is_usable_admin (update Account.id person (set_suspended false) s.desk.accounts)) s.staff
        (λ r usable.
          let free = free_after person r.person_id s.desk.accounts in ground (arith, free)) in
    rw (accounts, staff) (omega (arith, kept, before))
change_person_suspension-keeps_admin person actor_id true s {t} h before e =
    let (not_last, accounts, staff) = suspension_checks person actor_id true s e in
    rw (accounts, staff) (suspension_keeps person s.desk.accounts s.staff h not_last before)
