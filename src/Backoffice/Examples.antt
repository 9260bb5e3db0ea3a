-- ===== src/Backoffice/Examples.antt =====
-- Runs of the enforcement of fraud cases at concrete tables.
use vielhome_backend.Base.{ℕ, ◌≤◌, arith, refl, ◌≡◌, true, false, none, some, [], ◌∷◌}
use vielhome_backend.Base.Result.{Result, ok, authorization, conflict, err}
use vielhome_backend.Building.Schema.{verified, suspended}
use vielhome_backend.Backoffice.Enforcement.{
  site_verified, Desk, Account, Claim, set_manager_state, apply_effect, ActionParams, on_claim,
  verification_revocation, create_enforcement_action, appeal_enforcement, resolve_appellant,
  decide_enforcement_appeal, overturn, reverse_effect, enforce,
}
use vielhome_backend.Backoffice.Appeals.{SameTargets, enforcement_overturned}
use vielhome_backend.Backoffice.Overlap.{suspension, LiftedOnly, overlapping_suspensions}
use vielhome_backend.Backoffice.Suspension.{
  platform_admin, Staff, Office, is_usable_admin, change_person_suspension,
  change_person_suspension-keeps_admin,
}
use vielhome_backend.Base.Count.{count}
use vielhome_backend.Base.Table.{find, update}

abbrev the_account : Account
the_account = record { id = 21; is_suspended = false }

abbrev manager_claim : Claim
manager_claim = record { id = 31; building_id = 5; person_id = 21; manager_state = some verified }

abbrev desk : Desk
desk = record {
  accounts = the_account ∷ [];
  sites =
      record { id = 5; created_by_id = 21; status = site_verified; recovery_entered_at = none }
      ∷ [];
  claims = manager_claim ∷ [];
  actions = [];
}

abbrev revoking : ActionParams
revoking = record {
  id = 1;
  action_type = verification_revocation;
  target = on_claim 5 31;
  idempotency_key = 71;
  now = 100;
}

abbrev or_same : Desk → Result Desk → Desk
or_same s (ok t) = t
or_same s (err _) = s

-- What the runs compute with.
trace : Unit {0}
unfolding find update apply_effect create_enforcement_action resolve_appellant appeal_enforcement
    reverse_effect overturn decide_enforcement_appeal enforce
trace = tt

abbrev revoked : Desk
revoked = or_same desk (create_enforcement_action revoking desk)

abbrev disputed : Desk
disputed = or_same desk (appeal_enforcement 1 21 revoked)

-- The person may appeal, and another may not.
appeal_refused : appeal_enforcement 1 22 revoked ≡ err authorization
unfolding trace
appeal_refused = refl

-- A repeated request changes nothing.
repeated : create_enforcement_action revoking revoked ≡ ok revoked
unfolding trace
repeated = refl

-- The manager is suspended, and the building is in recovery.
effect_seen :
    find Claim.id 31 revoked.claims ≡ some (set_manager_state (some suspended) manager_claim)
unfolding trace
effect_seen = refl

-- Only an administrator suspends an account.
suspension_refused :
    enforce
      (record { is_confirmed = true; target_person_id = some 21; target_building_id = none })
      (some false)
      (suspension 1 21 71 100)
      desk
    ≡ err authorization
unfolding trace
suspension_refused = refl

enforcement_overturned_example :
    (v : Desk) × (decide_enforcement_appeal 1 true disputed ≡ ok v) × SameTargets v desk
unfolding trace
enforcement_overturned_example =
    enforcement_overturned revoking 21 desk {t = revoked} {u = disputed} refl refl refl

abbrev once : Desk
once = or_same desk (create_enforcement_action (suspension 1 21 71 100) desk)

abbrev twice : Desk
twice = or_same desk (create_enforcement_action (suspension 2 21 72 200) once)

abbrev contested : Desk
contested = or_same desk (appeal_enforcement 1 21 twice)

overlapping_suspensions_example :
    (v : Desk) × (decide_enforcement_appeal 1 true contested ≡ ok v) × LiftedOnly 21 2 v
unfolding trace
overlapping_suspensions_example =
    overlapping_suspensions 1 2 21 71 72 100 200 21 desk {a = the_account} {t = once} {u = twice}
      {w = contested} refl refl refl refl refl refl refl refl

abbrev admin : ℕ → ℕ → Staff
admin id person = record { id = id; person_id = person; role = platform_admin; is_active = true }

abbrev two_admins : Office
two_admins = record {
  desk = record desk { accounts = record { id = 22; is_suspended = false } ∷ the_account ∷ [] };
  staff = admin 11 21 ∷ admin 12 22 ∷ [];
  tokens = [];
}

abbrev or_kept : Office → Result Office → Office
or_kept s (ok t) = t
or_kept s (err _) = s

abbrev one_admin : Office
one_admin = or_kept two_admins (change_person_suspension 21 22 true two_admins)

-- What the suspension computes with.
suspending : Unit {0}
unfolding trace change_person_suspension
suspending = tt

-- A suspension that is in force is not lifted by staff.
reinstatement_refused :
    change_person_suspension 21 22 false
      (record one_admin { desk = record one_admin.desk { actions = once.actions } })
    ≡ err conflict
unfolding suspending
reinstatement_refused = refl

change_person_suspension-keeps_admin_example :
    1 ≤ count (is_usable_admin one_admin.desk.accounts) one_admin.staff
unfolding suspending
change_person_suspension-keeps_admin_example =
    change_person_suspension-keeps_admin 21 22 true two_admins {t = one_admin}
      (((λ e. omega (arith, e)), tt), (tt, tt)) (omega arith) refl
