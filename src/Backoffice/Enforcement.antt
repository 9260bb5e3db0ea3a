-- ===== src/Backoffice/Enforcement.antt =====
-- Enforcement actions: enforce, appealEnforcement and decideEnforcementAppeal of fraud-case.service.ts, with
-- createEnforcementActionWithEffect, requestEnforcementAppeal and decideEnforcementAppeal of
-- backoffice.repository.ts. A target stands with the ids that assertTargetMatchesType asks for.
use vielhome_backend.Base.{
  ℕ, Bool, true, false, ◌&&◌, not, Option, none, some, List, ◌∷◌, ◌==◌, same, is_some, any,
  if◌then◌else◌,
}
use vielhome_backend.Base.Result.{
  Result, ok, validation, authorization, not_found, conflict, business_rule, unexpected, expect,
  guard, forbid, ◌>>=◌, ◌>>◌,
}
use vielhome_backend.Base.Table.{find, update}
use vielhome_backend.Building.Schema.{ManagerState, suspended}

pub data SiteStatus : Type 0 where
  pending : SiteStatus
  under_review : SiteStatus
  site_verified : SiteStatus
  site_rejected : SiteStatus
  merged : SiteStatus
  pending_information : SiteStatus

pub data ActionType : Type 0 where
  warning : ActionType
  temporary_restriction : ActionType
  verification_revocation : ActionType
  account_suspension : ActionType

pub data Target : Type 0 where
  on_person : (person_id : ℕ) → Target
  on_building : (building_id : ℕ) → Target
  on_claim : (building_id membership_id : ℕ) → Target

pub data AppealStatus : Type 0 where
  no_appeal : AppealStatus
  appeal_pending : AppealStatus
  upheld : AppealStatus
  overturned : AppealStatus

pub record Account : Type 0 where
  pub id : ℕ
  pub is_suspended : Bool

pub record Site : Type 0 where
  pub id : ℕ
  pub created_by_id : ℕ
  pub status : SiteStatus
  pub recovery_entered_at : Option ℕ

pub record Claim : Type 0 where
  pub id : ℕ
  pub building_id : ℕ
  pub person_id : ℕ
  pub manager_state : Option ManagerState

-- `previousTargetState`
pub data Previous : Type 0 where
  was_account : (is_suspended : Bool) → Previous
  was_site : (status : SiteStatus) → Previous
  was_claim : (manager_state : Option ManagerState) (recovery_entered_at : Option ℕ) → Previous

pub record Action : Type 0 where
  pub id : ℕ
  pub action_type : ActionType
  pub target : Target
  pub idempotency_key : ℕ
  pub appeal_status : AppealStatus
  pub previous : Option Previous
  pub is_reversed : Bool

pub record Desk : Type 0 where
  pub accounts : List Account
  pub sites : List Site
  pub claims : List Claim
  pub actions : List Action

abbrev pub set_suspended : Bool → Account → Account
set_suspended value a = record a { is_suspended = value }

abbrev pub set_status : SiteStatus → Site → Site
set_status value b = record b { status = value }

abbrev pub set_recovery_time : Option ℕ → Site → Site
set_recovery_time value b = record b { recovery_entered_at = value }

abbrev pub set_manager_state : Option ManagerState → Claim → Claim
set_manager_state value m = record m { manager_state = value }

abbrev pub write_account : ℕ → Bool → Desk → Desk
write_account id value s = record s {
  accounts = update Account.id id (set_suspended value) s.accounts;
}

abbrev pub write_status : ℕ → SiteStatus → Desk → Desk
write_status id value s = record s { sites = update Site.id id (set_status value) s.sites }

abbrev pub write_claim : ℕ → ℕ → Option ManagerState → Option ℕ → Desk → Desk
write_claim building_id membership_id state recovery s = record s {
  claims = update Claim.id membership_id (set_manager_state state) s.claims;
  sites = update Site.id building_id (set_recovery_time recovery) s.sites;
}

-- The effect of an action: the tables after it, and the state before it if there is an effect.
unfoldable pub apply_effect : ActionType → Target → ℕ → Desk → Result (Desk × Option Previous)
apply_effect account_suspension (on_person person) now s = do
  target ← expect (find Account.id person s.accounts) unexpected
  ok (write_account person true s, some (was_account target.is_suspended))
apply_effect verification_revocation (on_building building) now s = do
  target ← expect (find Site.id building s.sites) unexpected
  ok (write_status building site_rejected s, some (was_site target.status))
apply_effect verification_revocation (on_claim building membership) now s = do
  claim ← expect (find Claim.id membership s.claims) unexpected
  site ← expect (find Site.id building s.sites) unexpected
  guard (claim.building_id == site.id) validation
  ok (
    write_claim building membership (some suspended) (some now) s,
    some (was_claim claim.manager_state site.recovery_entered_at),
  )
apply_effect _ _ now s = ok (s, none)

pub record ActionParams : Type 0 where
  pub id : ℕ
  pub action_type : ActionType
  pub target : Target
  pub idempotency_key : ℕ
  pub now : ℕ

abbrev pub new_action : ActionParams → Option Previous → Action
new_action p previous = record {
  id = p.id;
  action_type = p.action_type;
  target = p.target;
  idempotency_key = p.idempotency_key;
  appeal_status = no_appeal;
  previous = previous;
  is_reversed = false;
}

abbrev pub add_action : ActionParams → Desk × Option Previous → Desk
add_action p (s, previous) = record s { actions = new_action p previous ∷ s.actions }

-- `createEnforcementActionWithEffect`: a request that is repeated changes nothing.
unfoldable pub create_enforcement_action : ActionParams → Desk → Result Desk
create_enforcement_action p s =
    if any (λ (a : Action). a.idempotency_key == p.idempotency_key) s.actions
    then ok s
    else apply_effect p.action_type p.target p.now s >>= λ done. ok (add_action p done)

abbrev pub fits : ActionType → Target → Bool
fits account_suspension (on_person _) = true
fits account_suspension _ = false
fits verification_revocation (on_person _) = false
fits _ _ = true

-- The fraud case that an action is taken for.
pub record FraudCase : Type 0 where
  pub is_confirmed : Bool
  pub target_person_id : Option ℕ
  pub target_building_id : Option ℕ

abbrev pub matches_case : FraudCase → Target → Bool
matches_case k (on_person person) = same k.target_person_id (some person)
matches_case k (on_building building) = same k.target_building_id (some building)
matches_case k (on_claim building _) = same k.target_building_id (some building)

abbrev pub is_suspension : ActionType → Bool
is_suspension account_suspension = true
is_suspension _ = false

-- `enforce`; whether the caller is an administrator, none for no active member of the staff.
unfoldable pub enforce : FraudCase → Option Bool → ActionParams → Desk → Result Desk
enforce k staff p s = do
  guard k.is_confirmed business_rule
  guard (fits p.action_type p.target) validation
  guard (matches_case k p.target) validation
  is_admin ← expect staff authorization
  forbid (is_suspension p.action_type && not is_admin) authorization
  create_enforcement_action p s

abbrev pub is_unappealed : AppealStatus → Bool
is_unappealed no_appeal = true
is_unappealed _ = false

abbrev pub is_appeal_pending : AppealStatus → Bool
is_appeal_pending appeal_pending = true
is_appeal_pending _ = false

abbrev pub set_appeal : AppealStatus → Action → Action
set_appeal status a = record a { appeal_status = status }

abbrev pub creator_of : Option Site → Option ℕ
creator_of none = none
creator_of (some b) = some b.created_by_id

abbrev pub member_of : Option Claim → Option ℕ
member_of none = none
member_of (some m) = some m.person_id

-- `resolveEnforcementAppellant`
unfoldable pub resolve_appellant : Target → Desk → Option ℕ
resolve_appellant (on_person person) s = some person
resolve_appellant (on_claim _ membership) s = member_of (find Claim.id membership s.claims)
resolve_appellant (on_building building) s = creator_of (find Site.id building s.sites)

-- `appealEnforcement` and `requestEnforcementAppeal`
unfoldable pub appeal_enforcement : ℕ → ℕ → Desk → Result Desk
appeal_enforcement id caller s = do
  action ← expect (find Action.id id s.actions) not_found
  guard (same (resolve_appellant action.target s) (some caller)) authorization
  guard (is_unappealed action.appeal_status) business_rule
  ok (record s { actions = update Action.id id (set_appeal appeal_pending) s.actions })

abbrev pub is_rejected : SiteStatus → Bool
is_rejected site_rejected = true
is_rejected _ = false

abbrev pub is_suspended_state : Option ManagerState → Bool
is_suspended_state (some suspended) = true
is_suspended_state _ = false

-- Taking an effect back: the target has to be as the action left it.
unfoldable pub reverse_effect : Target → Previous → Desk → Result Desk
reverse_effect (on_person person) (was_account value) s = do
  target ← expect (find Account.id person s.accounts) conflict
  guard target.is_suspended conflict
  ok (write_account person value s)
reverse_effect (on_building building) (was_site value) s = do
  target ← expect (find Site.id building s.sites) conflict
  guard (is_rejected target.status) conflict
  ok (write_status building value s)
reverse_effect (on_claim building membership) (was_claim state recovery) s = do
  claim ← expect (find Claim.id membership s.claims) conflict
  site ← expect (find Site.id building s.sites) conflict
  guard (is_suspended_state claim.manager_state && is_some site.recovery_entered_at) conflict
  ok (write_claim building membership state recovery s)
reverse_effect _ _ s = ok s

abbrev pub mark_reversed : Action → Action
mark_reversed a = record a { is_reversed = true }

-- What an overturned appeal takes back.
unfoldable pub overturn : Action → Desk → Result Desk
overturn a s = elim a.previous [
  | none ↦ ok s
  | some previous ↦
      if a.is_reversed
      then ok s
      else reverse_effect a.target previous s >>= λ t.
          ok (record t { actions = update Action.id a.id mark_reversed t.actions })
]

-- `decideEnforcementAppeal`: overturned, or upheld.
unfoldable pub decide_enforcement_appeal : ℕ → Bool → Desk → Result Desk
decide_enforcement_appeal id is_overturned s = do
  action ← expect (find Action.id id s.actions) not_found
  guard (is_appeal_pending action.appeal_status) business_rule
  let status = if is_overturned then overturned else upheld
  let written = record s { actions = update Action.id id (set_appeal status) s.actions }
  if is_overturned then overturn action written else ok written
