-- ===== src/Backoffice/Overlap.antt =====
-- Two suspensions of one person: what overturning the first does to the second.
use vielhome_backend.Base.{
  ℕ, ap, sym, ◌∙◌, ◌≡◌, refl, Bool, true, false, some, List, ◌∷◌, ◌==◌, ==_refl, any,
}
use vielhome_backend.Base.Result.{ok, ok-injective}
use vielhome_backend.Base.Table.{find, update, find-update}
use vielhome_backend.Base.Lookup.{find-cons_self}
use vielhome_backend.Backoffice.Enforcement.{
  account_suspension, on_person, Account, was_account, Action, Desk, set_suspended, write_account,
  apply_effect, ActionParams, new_action, add_action, create_enforcement_action, set_appeal,
  appeal_pending, no_appeal, overturned, appeal_enforcement, reverse_effect, mark_reversed,
  overturn, decide_enforcement_appeal,
}
use vielhome_backend.Backoffice.Appeals.{create-eq-ok, appeal-eq-ok}

abbrev pub suspension : ℕ → ℕ → ℕ → ℕ → ActionParams
suspension id person key now = record {
  id = id;
  action_type = account_suspension;
  target = on_person person;
  idempotency_key = key;
  now = now;
}

-- What a suspension that is issued leaves, of an account whose state is known.
suspension-eq-ok :
    (id person key now : ℕ) (s : Desk) {a : Account} {t : Desk}
    → any (λ (b : Action). b.idempotency_key == key) s.actions ≡ false
    → find Account.id person s.accounts ≡ some a
    → create_enforcement_action (suspension id person key now) s ≡ ok t
    → t
      ≡ add_action
          (suspension id person key now)
          (write_account person true s, some (was_account a.is_suspended))
unfolding apply_effect
suspension-eq-ok id person key now s {a} {t} fresh found e =
    let p = suspension id person key now in
    let (done, applied, issued) = create-eq-ok p s fresh e in
    issued ∙ ap (add_action p) (sym (ok-injective (rw found at applied)))

-- The tables after two suspensions of one person, when the first is under appeal.
abbrev both : ℕ → ℕ → ℕ → ℕ → ℕ → ℕ → ℕ → Bool → Desk → Desk
both id id' person key key' now now' before s = record s {
  accounts =
      update Account.id person (set_suspended true)
        (update Account.id person (set_suspended true) s.accounts);
  actions = update Action.id id (set_appeal appeal_pending) (
      new_action (suspension id' person key' now') (some (was_account true))
      ∷ new_action (suspension id person key now) (some (was_account before))
      ∷ s.actions);
}

-- The person is free, and the second action stands.
abbrev pub LiftedOnly : ℕ → ℕ → Desk → Type 0
LiftedOnly person id' v =
    ((x : Account) × (find Account.id person v.accounts ≡ some x) × (x.is_suspended ≡ false))
    × ((y : Action) × (find Action.id id' v.actions ≡ some y)
        × (y.is_reversed ≡ false)
        × (y.appeal_status ≡ no_appeal))

find_behind :
    (id id' : ℕ) (x : Action) (xs : List Action)
    → x.id ≡ id'
    → id' == id ≡ false
    → find Action.id id (x ∷ xs) ≡ find Action.id id xs
unfolding find
find_behind id id' x xs the_id apart = rw (the_id, apart) refl

-- Three updates of another row leave the first row as it is.
untouched :
    (id id' : ℕ) (f g h : Action → Action) (x : Action) (xs : List Action)
    → x.id ≡ id'
    → id' == id ≡ false
    → ((y : Action) → (f y).id ≡ y.id)
    → ((y : Action) → (g y).id ≡ y.id)
    → ((y : Action) → (h y).id ≡ y.id)
    → find Action.id id'
        (update Action.id id f (update Action.id id g (update Action.id id h (x ∷ xs))))
      ≡ some x
unfolding update
untouched id id' f g h x xs the_id apart keeps_f keeps_g keeps_h =
    let miss : x.id == id ≡ false = rw the_id apart in
    rw (miss, miss, miss, sym the_id) (find-cons_self Action.id x _)

first_taken_back :
    (id id' person key key' now now' : ℕ) (s : Desk) {a : Account}
    → id' == id ≡ false
    → find Account.id person s.accounts ≡ some a
    → (v : Desk) × (decide_enforcement_appeal id true (both id id' person key key' now now' false s)
        ≡ ok v)
      × LiftedOnly person id' v
unfolding decide_enforcement_appeal overturn reverse_effect
first_taken_back id id' person key key' now now' s {a} apart found =
    let one = new_action (suspension id person key now) (some (was_account false)) in
    let two = new_action (suspension id' person key' now') (some (was_account true)) in
    let asked = set_appeal appeal_pending in
    let read : find Action.id id (update Action.id id asked (two ∷ one ∷ s.actions))
        ≡ some (asked one) =
      rw
        (
          find-update Action.id id id asked (two ∷ one ∷ s.actions) (λ x. refl),
          ==_refl id,
          find_behind id id' two (one ∷ s.actions) refl apart,
          find-cons_self Action.id one s.actions,
        )
        refl in
    let suspend = set_suspended true in
    let twice : find Account.id person
          (update Account.id person suspend (update Account.id person suspend s.accounts))
        ≡ some (suspend (suspend a)) =
      rw
        (
          find-update Account.id person person suspend (update Account.id person suspend s.accounts)
              (λ x. refl),
          ==_refl person,
          find-update Account.id person person suspend s.accounts (λ x. refl),
          ==_refl person,
          found,
        )
        refl in
    let free = set_suspended false in
    let rows = update Action.id id asked (two ∷ one ∷ s.actions) in
    let after = update Account.id person suspend (update Account.id person suspend s.accounts) in
    let lifted : find Account.id person (update Account.id person free after)
        ≡ some (free (suspend (suspend a))) =
      rw (find-update Account.id person person free after (λ x. refl), ==_refl person, twice)
        refl in
    (
      record s {
        accounts = update Account.id person free after;
        actions =
            update Action.id id mark_reversed (update Action.id id (set_appeal overturned) rows);
      },
      rw (read, twice) refl,
      (
        (free (suspend (suspend a)), lifted, refl),
        (
          two,
          untouched id id' mark_reversed (set_appeal overturned) asked two (one ∷ s.actions) refl
              apart (λ x. refl) (λ x. refl) (λ x. refl),
          refl,
          refl,
        ),
      ),
    )

-- Where a person who is not suspended is suspended twice, by actions of two ids under two new keys, and the
-- appeal against the first is overturned, the person is not suspended, though the second action was neither
-- appealed nor reversed.
pub overlapping_suspensions :
    (id id' person key key' now now' : ℕ) (caller : ℕ) (s : Desk) {a : Account} {t u w : Desk}
    → id' == id ≡ false
    → find Account.id person s.accounts ≡ some a
    → a.is_suspended ≡ false
    → any (λ (b : Action). b.idempotency_key == key) s.actions ≡ false
    → create_enforcement_action (suspension id person key now) s ≡ ok t
    → any (λ (b : Action). b.idempotency_key == key') t.actions ≡ false
    → create_enforcement_action (suspension id' person key' now') t ≡ ok u
    → appeal_enforcement id caller u ≡ ok w
    → (v : Desk) × (decide_enforcement_appeal id true w ≡ ok v) × LiftedOnly person id' v
overlapping_suspensions id id' person key key' now now' caller s {a} {t} {u} {w} apart found free
      fresh e fresh' e' appealed =
    let one = suspension-eq-ok id person key now s fresh found e in
    let again : find Account.id person t.accounts ≡ some (set_suspended true a) =
      ap (λ (d : Desk). find Account.id person d.accounts) one
      ∙ rw
          (
            find-update Account.id person person (set_suspended true) s.accounts (λ x. refl),
            ==_refl person,
            found,
          )
          refl in
    let two = suspension-eq-ok id' person key' now' t fresh' again e' in
    let asked = appeal-eq-ok id caller u appealed in
    let after : w ≡ both id id' person key key' now now' false s =
      asked
      ∙ ap
          (λ (d : Desk). record d {
            actions = update Action.id id (set_appeal appeal_pending) d.actions;
          })
          (two
            ∙ ap
                (λ d.
                  add_action (suspension id' person key' now')
                    (write_account person true d, some (was_account true)))
                (one
                  ∙ ap
                      (λ b.
                        add_action (suspension id person key now)
                          (write_account person true s, some (was_account b)))
                      free)) in
    rw after (first_taken_back id id' person key key' now now' s apart found)
