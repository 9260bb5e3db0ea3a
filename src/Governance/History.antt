-- ===== src/Governance/History.antt =====
-- What holds of a vote after any run of its operations.
use vielhome_backend.Base.{
  subst, Option-cases, inl, inr, suc, ◌<◌, ◌⊎◌, ℕ, ◌≡◌, ◌≢◌, refl, Bool, false, Option, none, some,
  List, [], ◌∷◌, length, All, arith, filter,
}
use vielhome_backend.Base.Result.{ok}
use vielhome_backend.Base.Table.{find, Keyed, Unused}
use vielhome_backend.Governance.Voting.{VoteResult, calculate_result}
use vielhome_backend.Governance.Votes.{
  Vote, VoteStatus, draft, active, closed, cancelled, UnitRow, BallotRow, BallotParams, VoteOption,
  publish_vote, cast_ballot, close_vote, cancel_vote, is_over, counted, eligible, find_snapshot,
  has_voted, in_scope, add_ballot,
}

-- One operation that returns.
pub data Step (v w : Vote) : Type 0 where
  published :
      (building_id : ℕ) (allow_tenants : Bool) (units : List UnitRow)
      → publish_vote building_id allow_tenants units v ≡ ok w
      → Step v w
  cast : (p : BallotParams) → cast_ballot p v ≡ ok w → Step v w
  was_closed : (building_id : ℕ) → close_vote building_id v ≡ ok w → Step v w
  was_cancelled : (building_id : ℕ) → cancel_vote building_id v ≡ ok w → Step v w

pub data Reaches (v : Vote) : Vote → Type 0 where
  here : Reaches v v
  next : {w x : Vote} → Reaches v w → Step w x → Reaches v x

-- The result that the rows of a vote have.
abbrev pub computed : Vote → Option VoteResult
computed v = some (calculate_result v.quorum_percent (length v.snapshots) (counted v.ballots))

-- A vote has the result of its rows if it is closed, and none otherwise.
abbrev pub HasResult : VoteStatus → Vote → Type 0
HasResult closed v = v.result ≡ computed v
HasResult _ v = v.result ≡ none

abbrev pub IsFresh : VoteStatus → Vote → Type 0
IsFresh draft v = (v.ballots ≡ []) × (v.snapshots ≡ [])
IsFresh _ v = Unit

-- Each ballot is of a unit in the snapshot, and no unit has two.
pub record IsFair (v : Vote) : Type 0 where
  pub result : HasResult v.status v
  pub fresh : IsFresh v.status v
  pub distinct : Keyed BallotRow.unit_id v.ballots
  pub eligible_units : All (λ b. find_snapshot b.unit_id v ≢ none) v.ballots

publish_vote-IsFair :
    (building_id : ℕ) (allow_tenants : Bool) (units : List UnitRow) (v : Vote) {w : Vote}
    → publish_vote building_id allow_tenants units v ≡ ok w
    → IsFair v
    → IsFair w
unfolding publish_vote
publish_vote-IsFair building_id allow_tenants units v {w} e fair =
    let was_draft : v.status ≡ draft = ground arith in
    let after : w ≡ record v {
      status = active;
      snapshots = eligible allow_tenants (filter (in_scope v) units);
    } =
      ground arith in
    let (none_cast, _) = subst (λ s. IsFresh s v) was_draft fair.fresh in
    let no_result = subst (λ s. HasResult s v) was_draft fair.result in
    rw (after, none_cast)
      (record { result = no_result; fresh = tt; distinct = tt; eligible_units = tt })

close_vote-IsFair :
    (building_id : ℕ) (v : Vote) {w : Vote} → close_vote building_id v ≡ ok w → IsFair v → IsFair w
unfolding close_vote
close_vote-IsFair building_id v {w} e fair =
    let after : w ≡ record v { status = closed; result = computed v } = ground arith in
    rw after (record {
      result = refl;
      fresh = tt;
      distinct = fair.distinct;
      eligible_units = fair.eligible_units;
    })

open_result : (s : VoteStatus) (v : Vote) → is_over s ≡ false → HasResult s v → v.result ≡ none
open_result draft v e h = h
open_result active v e h = h
open_result closed v e h = cc
open_result cancelled v e h = cc

cancel_vote-IsFair :
    (building_id : ℕ) (v : Vote) {w : Vote} → cancel_vote building_id v ≡ ok w → IsFair v → IsFair w
unfolding cancel_vote
cancel_vote-IsFair building_id v {w} e fair =
    let after : w ≡ record v { status = cancelled } = ground arith in
    rw after (record {
      result = open_result v.status v (ground arith) fair.result;
      fresh = tt;
      distinct = fair.distinct;
      eligible_units = fair.eligible_units;
    })

not_voted :
    (unit_id : ℕ) (rows : List BallotRow)
    → has_voted unit_id rows ≡ false
    → Unused BallotRow.unit_id unit_id rows
not_voted unit_id [] e = tt
not_voted unit_id (b ∷ rest) e = (λ same. ground arith, not_voted unit_id rest (ground arith))

cast_ballot-IsFair :
    (p : BallotParams) (v : Vote) {w : Vote} → cast_ballot p v ≡ ok w → IsFair v → IsFair w
unfolding cast_ballot add_ballot
cast_ballot-IsFair p v {w} e fair =
    elim (Option-cases (find VoteOption.id p.selected_option_id v.options)) [
      | inl missing ↦ ground arith
      | inr (option, chosen) ↦
          let was_active : v.status ≡ active = ground arith in
          let in_snapshot : find_snapshot p.unit_id v ≢ none = λ q. ground arith in
          let first_time : has_voted p.unit_id v.ballots ≡ false = ground arith in
          let after : w ≡ add_ballot p option v = ground arith in
          let no_result = open_result v.status v (rw was_active refl) fair.result in
          rw (after, was_active)
            (record {
              result = no_result;
              fresh = tt;
              distinct = (not_voted p.unit_id v.ballots first_time, fair.distinct);
              eligible_units = (in_snapshot, fair.eligible_units);
            })
    ]

Step-IsFair : {v w : Vote} → Step v w → IsFair v → IsFair w
Step-IsFair {v} (published b a units e) fair = publish_vote-IsFair b a units v e fair
Step-IsFair {v} (cast p e) fair = cast_ballot-IsFair p v e fair
Step-IsFair {v} (was_closed b e) fair = close_vote-IsFair b v e fair
Step-IsFair {v} (was_cancelled b e) fair = cancel_vote-IsFair b v e fair

-- From a draft without ballots, snapshot and result, every run of the operations leaves a vote that has
-- the result of its own rows if it is closed and none otherwise, whose ballots are of units in its
-- snapshot, and in which no unit has two ballots.
pub history-IsFair :
    {v w : Vote}
    → v.status ≡ draft
    → v.ballots ≡ []
    → v.snapshots ≡ []
    → v.result ≡ none
    → Reaches v w
    → IsFair w
history-IsFair {v} d b s r here =
    rw (d, b) (record { result = r; fresh = (refl, s); distinct = tt; eligible_units = tt })
history-IsFair d b s r (next run step) = Step-IsFair step (history-IsFair d b s r run)

-- How far a vote is: a draft, open, or over.
abbrev pub stage : VoteStatus → ℕ
stage draft = 0
stage active = 1
stage closed = 2
stage cancelled = 2

not_over : (s : VoteStatus) → is_over s ≡ false → stage s < 2
not_over draft e = omega arith
not_over active e = omega arith
not_over closed e = cc
not_over cancelled e = cc

-- An operation moves a vote on in its life, or adds one ballot to an open vote; a vote that is over
-- allows none.
pub Step-stage :
    {v w : Vote}
    → Step v w
    → (stage v.status < 2)
      × ((stage v.status < stage w.status)
          ⊎ ((v.status ≡ active)
              × (w.status ≡ active)
              × (length w.ballots ≡ suc (length v.ballots))))
unfolding publish_vote cast_ballot close_vote cancel_vote add_ballot
Step-stage {v} {w} (published b a units e) =
    let was : v.status ≡ draft = ground arith in
    let now : w.status ≡ active = ground arith in rw (was, now) (omega arith, inl (omega arith))
Step-stage {v} {w} (cast p e) =
    elim (Option-cases (find VoteOption.id p.selected_option_id v.options)) [
      | inl missing ↦ ground arith
      | inr (option, chosen) ↦
          let was : v.status ≡ active = ground arith in
          let after : w ≡ add_ballot p option v = ground arith in
          rw (after, was) (omega arith, inr (refl, refl, refl))
    ]
Step-stage {v} {w} (was_closed b e) =
    let was : v.status ≡ active = ground arith in
    let now : w.status ≡ closed = ground arith in rw (was, now) (omega arith, inl (omega arith))
Step-stage {v} {w} (was_cancelled b e) =
    let before : stage v.status < 2 = not_over v.status (ground arith) in
    let now : w.status ≡ cancelled = ground arith in rw now (before, inl before)
