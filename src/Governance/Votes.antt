-- ===== src/Governance/Votes.antt =====
-- modules/governance: the rows of one vote, and the transactions on them. Each operation is the guards
-- of application/voting.service.ts and domain/policies/vote.policy.ts, then the transaction of
-- infrastructure/repositories/voting.repository.ts. A foreign key is the row that it points to, and
-- the rows of the building that a transaction reads are arguments.
use vielhome_backend.Base.{
  ℕ, Bool, true, false, ◌&&◌, ◌||◌, Option, none, some, List, [], ◌∷◌, map, ltb, leb, ◌==◌, same,
  if◌then◌else◌, length, filter, any, includes,
}
use vielhome_backend.Base.Result.{
  Result, ok, authorization, not_found, business_rule, duplicate, expect, guard, forbid, ◌>>=◌,
  ◌>>◌,
}
use vielhome_backend.Base.Table.{find}
use vielhome_backend.Governance.Voting.{
  OptionValue, abstain, choice, Ballot, VoteResult, calculate_result,
}

pub data VoteStatus : Type 0 where
  draft : VoteStatus
  active : VoteStatus
  closed : VoteStatus
  cancelled : VoteStatus

pub data ScopeType : Type 0 where
  entire_building : ScopeType
  block : ScopeType
  property_type : ScopeType
  selected_units : ScopeType

pub record VoteOption : Type 0 where
  pub id : ℕ
  pub value : OptionValue

pub data EligibilityType : Type 0 where
  owner : EligibilityType
  tenant : EligibilityType

pub record Snapshot : Type 0 where
  pub unit_id : ℕ
  pub eligible_person_id : ℕ
  pub eligibility_type : EligibilityType

pub record BallotRow : Type 0 where
  pub unit_id : ℕ
  pub voter_person_id : ℕ
  pub selected_option : VoteOption

pub record Vote : Type 0 where
  pub building_id : ℕ
  pub status : VoteStatus
  pub is_manager_election : Bool
  pub quorum_percent : Option ℕ
  pub end_at : ℕ
  pub scope_type : ScopeType
  pub scope_block_id : Option ℕ
  pub scope_unit_type : Option ℕ
  pub scope_unit_ids : List ℕ
  pub options : List VoteOption
  pub snapshots : List Snapshot
  pub ballots : List BallotRow
  pub result : Option VoteResult

-- A unit of the building, with the people of its current ownerships and tenancies.
pub record UnitRow : Type 0 where
  pub id : ℕ
  pub block_id : Option ℕ
  pub unit_type : ℕ
  pub owners : List ℕ
  pub tenants : List ℕ

abbrev pub is_draft : VoteStatus → Bool
is_draft draft = true
is_draft _ = false

abbrev pub is_active : VoteStatus → Bool
is_active active = true
is_active _ = false

-- `assertCancellable`
abbrev pub is_over : VoteStatus → Bool
is_over closed = true
is_over cancelled = true
is_over _ = false

abbrev pub in_block : Option ℕ → UnitRow → Bool
in_block none u = true
in_block (some b) u = same u.block_id (some b)

abbrev pub of_type : Option ℕ → UnitRow → Bool
of_type none u = true
of_type (some k) u = u.unit_type == k

abbrev pub is_selected : List ℕ → UnitRow → Bool
is_selected [] u = true
is_selected ids u = includes ids u.id

-- `scopeFilter`
abbrev pub in_scope : Vote → UnitRow → Bool
in_scope v u = elim v.scope_type [
  | entire_building ↦ true
  | block ↦ in_block v.scope_block_id u
  | property_type ↦ of_type v.scope_unit_type u
  | selected_units ↦ is_selected v.scope_unit_ids u
]

-- `if (rows.length === 1)`, with the one person.
abbrev pub single : List ℕ → Option ℕ
single (person ∷ []) = some person
single _ = none

abbrev pub snapshot_of : Bool → UnitRow → Option Snapshot
snapshot_of allow_tenants u = elim (if allow_tenants then single u.tenants else none) [
  | some person ↦
      some (record { unit_id = u.id; eligible_person_id = person; eligibility_type = tenant })
  | none ↦ elim (single u.owners) [
    | some person ↦
        some (record { unit_id = u.id; eligible_person_id = person; eligibility_type = owner })
    | none ↦ none
  ]
]

abbrev pub push : Option Snapshot → List Snapshot → List Snapshot
push none rows = rows
push (some x) rows = x ∷ rows

-- The loop over the units.
unfoldable pub eligible : Bool → List UnitRow → List Snapshot
eligible allow_tenants [] = []
eligible allow_tenants (u ∷ rest) = push (snapshot_of allow_tenants u) (eligible allow_tenants rest)

-- `getVote`
abbrev pub get_vote : ℕ → Vote → Result (Unit {0})
get_vote building_id v = guard (v.building_id == building_id) not_found

-- `publishVote`
unfoldable pub publish_vote : ℕ → Bool → List UnitRow → Vote → Result Vote
publish_vote building_id allow_tenants units v = do
  get_vote building_id v
  guard (is_draft v.status) business_rule
  forbid (ltb (length v.options) 2) business_rule
  ok (record v { status = active; snapshots = eligible allow_tenants (filter (in_scope v) units) })

pub record BallotParams : Type 0 where
  pub building_id : ℕ
  pub unit_id : ℕ
  pub unit_building_id : Option ℕ
  pub actor_person_id : ℕ
  pub selected_option_id : ℕ
  pub is_current_proxy : ℕ → Bool
  pub now : ℕ

-- `assertOpenForBallots`
abbrev pub is_open : ℕ → Vote → Bool
is_open now v = is_active v.status && leb now v.end_at

abbrev pub find_snapshot : ℕ → Vote → Option Snapshot
find_snapshot unit_id v = find Snapshot.unit_id unit_id v.snapshots

abbrev pub has_voted : ℕ → List BallotRow → Bool
has_voted unit_id rows = any (λ (b : BallotRow). b.unit_id == unit_id) rows

abbrev pub is_candidate : ℕ → OptionValue → Bool
is_candidate person abstain = false
is_candidate person (choice n) = n == person

-- `assertNotVotingOnOwnCandidacy`
abbrev pub votes_for_self : ℕ → Vote → Bool
votes_for_self person v =
    v.is_manager_election && any (λ (o : VoteOption). is_candidate person o.value) v.options

abbrev pub may_cast : BallotParams → ℕ → Bool
may_cast p eligible_person =
    eligible_person == p.actor_person_id || p.is_current_proxy eligible_person

-- `createBallot`
unfoldable pub add_ballot : BallotParams → VoteOption → Vote → Vote
add_ballot p option v = record v {
  ballots =
      record { unit_id = p.unit_id; voter_person_id = p.actor_person_id; selected_option = option }
      ∷ v.ballots;
}

-- `castBallot`
unfoldable pub cast_ballot : BallotParams → Vote → Result Vote
cast_ballot p v = do
  get_vote p.building_id v
  guard (is_open p.now v) business_rule
  guard (same p.unit_building_id (some p.building_id)) not_found
  snapshot ← expect (find_snapshot p.unit_id v) business_rule
  guard (may_cast p snapshot.eligible_person_id) authorization
  forbid (has_voted p.unit_id v.ballots) duplicate
  option ← expect (find VoteOption.id p.selected_option_id v.options) not_found
  forbid (votes_for_self snapshot.eligible_person_id v) business_rule
  ok (add_ballot p option v)

-- What `closeVote` counts.
abbrev pub counted : List BallotRow → List Ballot
counted rows =
    map
      (λ (b : BallotRow). record {
        selected_option_id = b.selected_option.id;
        option_value = b.selected_option.value;
      })
      rows

-- `closeVote`
unfoldable pub close_vote : ℕ → Vote → Result Vote
close_vote building_id v = do
  get_vote building_id v
  guard (is_active v.status) business_rule
  ok (record v {
    status = closed;
    result = some (calculate_result v.quorum_percent (length v.snapshots) (counted v.ballots));
  })

-- `cancelVote`
unfoldable pub cancel_vote : ℕ → Vote → Result Vote
cancel_vote building_id v = do
  get_vote building_id v
  forbid (is_over v.status) business_rule
  ok (record v { status = cancelled })
