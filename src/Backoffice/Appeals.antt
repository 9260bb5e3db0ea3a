-- ===== src/Backoffice/Appeals.antt =====
-- What an overturned appeal gives back, and when it gives back too much.
use vielhome_backend.Base.{
  ℕ, ap, sym, subst, ◌∙◌, ◌≡◌, refl, true, false, Option, none, some, List, [], ◌∷◌, ◌==◌, ==_refl,
  same, any, arith, inl, inr, Bool-cases,
}
use vielhome_backend.Base.Result.{ok, expect-eq-ok, guard-eq-ok, >>=-eq-ok, ok-injective}
use vielhome_backend.Base.Table.{find, update, find-update}
use vielhome_backend.Base.Lookup.{find-cons_self}
use vielhome_backend.Building.Schema.{suspended}
use vielhome_backend.Backoffice.Enforcement.{
  site_rejected, ActionType, warning, temporary_restriction, verification_revocation,
  account_suspension, Target, on_person, on_building, on_claim, Account, Site, Claim, Previous,
  was_account, was_site, was_claim, Action, Desk, set_suspended, set_status, set_recovery_time,
  set_manager_state, write_account, write_status, write_claim, apply_effect, ActionParams,
  new_action, add_action, create_enforcement_action, set_appeal, appeal_pending, appeal_enforcement,
  resolve_appellant, reverse_effect, mark_reversed, overturn, decide_enforcement_appeal,
  is_unappealed,
}

-- Writing a row and then writing back what it was leaves the table as it was.
update-undo :
    {A : Type 0} (key : A → ℕ) (k : ℕ) (f g : A → A) (xs : List A) {x : A}
    → find key k xs ≡ some x
    → key (f x) ≡ key x
    → g (f x) ≡ x
    → update key k g (update key k f xs) ≡ xs
unfolding find update
update-undo key k f g [] found keeps back = refl
update-undo key k f g (y ∷ ys) {x} found keeps back = elim (Bool-cases (key y == k)) [
  | inl e ↦
      let the_row : y ≡ x = ground arith in
      let hit : key (f y) == k ≡ true =
        subst (λ z. key (f z) == k ≡ true) (sym the_row)
          (subst (λ j. j == k ≡ true) (sym keeps) (subst (λ z. key z == k ≡ true) the_row e)) in
      rw (e, hit) (ap (λ z. z ∷ ys) (subst (λ z. g (f z) ≡ z) (sym the_row) back))
  | inr e ↦
      let later : find key k ys ≡ some x = ground arith in
      rw (e, e) (ap (λ zs. y ∷ zs) (update-undo key k f g ys later keeps back))
]

-- The tables that an action can change.
abbrev pub with_actions : List Action → Desk → Desk
with_actions actions s = record s { actions = actions }

-- What is known of an effect: it can be taken back, whatever actions have been recorded.
abbrev Reverses : Target → Option Previous → Desk → Desk → Type 0
Reverses target none before after = after ≡ before
Reverses target (some previous) before after =
    (actions : List Action)
    → reverse_effect target previous (with_actions actions after) ≡ ok (with_actions actions before)

account_back :
    (person : ℕ) (s : Desk) {a : Account}
    → find Account.id person s.accounts ≡ some a
    → Reverses
        (on_person person)
        (some (was_account a.is_suspended))
        s
        (write_account person true s)
unfolding reverse_effect
account_back person s {a} found actions =
    rw
      (
        find-update Account.id person person (set_suspended true) s.accounts (λ x. refl),
        ==_refl person,
        found,
      )
      (ap (λ xs. ok (record s { accounts = xs; actions = actions }))
        (update-undo Account.id person (set_suspended true) (set_suspended a.is_suspended)
          s.accounts found refl refl))

site_back :
    (building : ℕ) (s : Desk) {b : Site}
    → find Site.id building s.sites ≡ some b
    → Reverses
        (on_building building)
        (some (was_site b.status))
        s
        (write_status building site_rejected s)
unfolding reverse_effect
site_back building s {b} found actions =
    rw
      (
        find-update Site.id building building (set_status site_rejected) s.sites (λ x. refl),
        ==_refl building,
        found,
      )
      (ap (λ xs. ok (record s { sites = xs; actions = actions }))
        (update-undo Site.id building (set_status site_rejected) (set_status b.status) s.sites found
          refl refl))

claim_back :
    (building membership now : ℕ) (s : Desk) {m : Claim} {b : Site}
    → find Claim.id membership s.claims ≡ some m
    → find Site.id building s.sites ≡ some b
    → Reverses
        (on_claim building membership)
        (some (was_claim m.manager_state b.recovery_entered_at))
        s
        (write_claim building membership (some suspended) (some now) s)
unfolding reverse_effect
claim_back building membership now s {m} {b} claim site actions =
    rw
      (
        find-update Claim.id membership membership (set_manager_state (some suspended)) s.claims
            (λ x. refl),
        ==_refl membership,
        claim,
        find-update Site.id building building (set_recovery_time (some now)) s.sites (λ x. refl),
        ==_refl building,
        site,
      )
      (ap
          (λ xs. ok (record s {
            claims = xs;
            sites =
                update Site.id building (set_recovery_time b.recovery_entered_at)
                  (update Site.id building (set_recovery_time (some now)) s.sites);
            actions = actions;
          }))
          (update-undo Claim.id membership (set_manager_state (some suspended))
            (set_manager_state m.manager_state) s.claims claim refl refl)
        ∙ ap (λ xs. ok (record s { sites = xs; actions = actions }))
            (update-undo Site.id building (set_recovery_time (some now))
              (set_recovery_time b.recovery_entered_at) s.sites site refl refl))

nothing_done :
    (target : Target) (s : Desk) {done : Desk × Option Previous}
    → ok (s, none) ≡ ok done
    → (Reverses target done.1 s done.0) × (done.0.actions ≡ s.actions)
nothing_done target s e =
    subst (λ d. (Reverses target d.1 s d.0) × (d.0.actions ≡ s.actions)) (ok-injective e)
      (refl, refl)

apply_effect-Reverses :
    (action_type : ActionType) (target : Target) (now : ℕ) (s : Desk)
    {done : Desk × Option Previous}
    → apply_effect action_type target now s ≡ ok done
    → (Reverses target done.1 s done.0) × (done.0.actions ≡ s.actions)
unfolding apply_effect
apply_effect-Reverses account_suspension (on_person person) now s e =
    let (a, found, e1) = expect-eq-ok (find Account.id person s.accounts) _ _ e in
    subst (λ d. (Reverses (on_person person) d.1 s d.0) × (d.0.actions ≡ s.actions))
      (ok-injective e1) (account_back person s found, refl)
apply_effect-Reverses verification_revocation (on_building building) now s e =
    let (b, found, e1) = expect-eq-ok (find Site.id building s.sites) _ _ e in
    subst (λ d. (Reverses (on_building building) d.1 s d.0) × (d.0.actions ≡ s.actions))
      (ok-injective e1) (site_back building s found, refl)
apply_effect-Reverses verification_revocation (on_claim building membership) now s e =
    let (m, claim, e1) = expect-eq-ok (find Claim.id membership s.claims) _ _ e in
    let (b, site, e2) = expect-eq-ok (find Site.id building s.sites) _ _ e1 in
    let (_, e3) = guard-eq-ok (m.building_id == b.id) _ _ e2 in
    subst (λ d. (Reverses (on_claim building membership) d.1 s d.0) × (d.0.actions ≡ s.actions))
      (ok-injective e3) (claim_back building membership now s claim site, refl)
apply_effect-Reverses account_suspension (on_building _) now s e = nothing_done _ s e
apply_effect-Reverses account_suspension (on_claim _ _) now s e = nothing_done _ s e
apply_effect-Reverses verification_revocation (on_person _) now s e = nothing_done _ s e
apply_effect-Reverses warning target now s e = nothing_done _ s e
apply_effect-Reverses temporary_restriction target now s e = nothing_done _ s e

pub create-eq-ok :
    (p : ActionParams) (s : Desk) {t : Desk}
    → any (λ (a : Action). a.idempotency_key == p.idempotency_key) s.actions ≡ false
    → create_enforcement_action p s ≡ ok t
    → (done : Desk × Option Previous) × (apply_effect p.action_type p.target p.now s ≡ ok done)
      × (t ≡ add_action p done)
unfolding create_enforcement_action
create-eq-ok p s fresh e =
    let (done, applied, e1) =
      >>=-eq-ok (apply_effect p.action_type p.target p.now s) _ (rw fresh at e) in
    (done, applied, sym (ok-injective e1))

pub appeal-eq-ok :
    (id caller : ℕ) (t : Desk) {u : Desk}
    → appeal_enforcement id caller t ≡ ok u
    → u ≡ record t { actions = update Action.id id (set_appeal appeal_pending) t.actions }
unfolding appeal_enforcement
appeal-eq-ok id caller t e =
    let (a, _, e1) = expect-eq-ok (find Action.id id t.actions) _ _ e in
    let (_, e2) = guard-eq-ok (same (resolve_appellant a.target t) (some caller)) _ _ e1 in
    let (_, e3) = guard-eq-ok (is_unappealed a.appeal_status) _ _ e2 in sym (ok-injective e3)

-- The target's tables are as they were.
abbrev pub SameTargets : Desk → Desk → Type 0
SameTargets v s = (v.accounts ≡ s.accounts) × (v.sites ≡ s.sites) × (v.claims ≡ s.claims)

overturn_gives_back :
    (a : Action) (target : Target) (previous : Option Previous) (actions : List Action) (s t : Desk)
    → a.target ≡ target
    → a.previous ≡ previous
    → a.is_reversed ≡ false
    → Reverses target previous s t
    → (v : Desk) × (overturn a (with_actions actions t) ≡ ok v) × SameTargets v s
unfolding overturn
overturn_gives_back a target none actions s t same_target none_before fresh back = (
  with_actions actions t,
  rw (none_before, overturn) refl,
  (
    ap (λ (d : Desk). d.accounts) back,
    ap (λ (d : Desk). d.sites) back,
    ap (λ (d : Desk). d.claims) back,
  ),
)
overturn_gives_back a target (some previous) actions s t same_target before fresh back = (
  record s { actions = update Action.id a.id mark_reversed actions },
  rw (before, overturn, fresh, same_target, back actions) refl,
  (refl, refl, refl),
)

-- An enforcement action that is issued under a new key, appealed and overturned, with nothing in between: the
-- overturning returns, and the accounts, buildings and memberships are as they were before the action.
pub enforcement_overturned :
    (p : ActionParams) (caller : ℕ) (s : Desk) {t u : Desk}
    → any (λ (a : Action). a.idempotency_key == p.idempotency_key) s.actions ≡ false
    → create_enforcement_action p s ≡ ok t
    → appeal_enforcement p.id caller t ≡ ok u
    → (v : Desk) × (decide_enforcement_appeal p.id true u ≡ ok v) × SameTargets v s
unfolding decide_enforcement_appeal
enforcement_overturned p caller s {t} {u} fresh e appealed =
    let (done, applied, issued) = create-eq-ok p s fresh e in
    let (back, same_actions) = apply_effect-Reverses p.action_type p.target p.now s applied in
    let asked = appeal-eq-ok p.id caller t appealed in
    let new = new_action p done.1 in
    let after : u
        ≡ with_actions (update Action.id p.id (set_appeal appeal_pending) (new ∷ done.0.actions))
            done.0 =
      asked
      ∙ ap
          (λ (d : Desk). record d {
            actions = update Action.id p.id (set_appeal appeal_pending) d.actions;
          })
          issued in
    let read : find Action.id p.id
          (update Action.id p.id (set_appeal appeal_pending) (new ∷ done.0.actions))
        ≡ some (set_appeal appeal_pending new) =
      rw
        (
          find-update Action.id p.id p.id (set_appeal appeal_pending) (new ∷ done.0.actions)
              (λ x. refl),
          ==_refl p.id,
          find-cons_self Action.id new done.0.actions,
        )
        refl in
    rw (after, read)
      (overturn_gives_back (set_appeal appeal_pending new) p.target done.1 _ s done.0 refl refl refl
        back)
