-- ===== src/Governance/Examples.antt =====
-- A vote of a building with three units, from its draft to its result: two options and two ballots.
use vielhome_backend.Base.{
  ◌≤◌, ℕ, suc, length, ◌⊎◌, ◌↔◌, ◌≡◌, refl, ◌<◌, ◌≢◌, true, false, none, some, List, [], ◌∷◌, arith,
}
use vielhome_backend.Base.Result.{Result, ok, err}
use vielhome_backend.Base.Table.{find}
use vielhome_backend.Governance.Voting.{
  choice, abstain, Ballot, bump, tally_ballots, scan_entry, scan, winning_option, calculate_result,
}
use vielhome_backend.Governance.Tally.{votes}
use vielhome_backend.Governance.Result.{winning_option_iff, calculate_result_order}
use vielhome_backend.Governance.Votes.{
  Vote, draft, active, entire_building, BallotParams, UnitRow, eligible, publish_vote, add_ballot,
  cast_ballot, close_vote,
}
use vielhome_backend.Governance.History.{
  Reaches, here, next, published, cast, was_closed, IsFair, history-IsFair, Step-stage, stage,
}
use vielhome_backend.Governance.Turnout.{history_turnout}

abbrev planned : Vote
planned = record {
  building_id = 5;
  status = draft;
  is_manager_election = false;
  quorum_percent = some 50;
  end_at = 100;
  scope_type = entire_building;
  scope_block_id = none;
  scope_unit_type = none;
  scope_unit_ids = [];
  options =
      record { id = 1; value = choice 21 }
      ∷ record { id = 2; value = choice 22 }
      ∷ record { id = 3; value = abstain }
      ∷ [];
  snapshots = [];
  ballots = [];
  result = none;
}

abbrev units : List UnitRow
units =
    record { id = 11; block_id = none; unit_type = 0; owners = 31 ∷ []; tenants = [] }
    ∷ record { id = 12; block_id = none; unit_type = 0; owners = 32 ∷ []; tenants = [] }
    ∷ record { id = 13; block_id = none; unit_type = 0; owners = 33 ∷ 34 ∷ []; tenants = 35 ∷ [] }
    ∷ []

abbrev ballot_params : ℕ → ℕ → ℕ → BallotParams
ballot_params unit_id person option = record {
  building_id = 5;
  unit_id = unit_id;
  unit_building_id = some 5;
  actor_person_id = person;
  selected_option_id = option;
  is_current_proxy = λ _. false;
  now = 50;
}

abbrev or_planned : Result Vote → Vote
or_planned (ok v) = v
or_planned (err _) = planned

abbrev opened : Vote
opened = or_planned (publish_vote 5 true units planned)

abbrev one_ballot : Vote
one_ballot = or_planned (cast_ballot (ballot_params 11 31 2) opened)

abbrev two_ballots : Vote
two_ballots = or_planned (cast_ballot (ballot_params 13 35 2) one_ballot)

abbrev counted_vote : Vote
counted_vote = or_planned (close_vote 5 two_ballots)

-- All that the runs below compute with.
trace : Unit {0}
unfolding find eligible publish_vote add_ballot cast_ballot close_vote bump tally_ballots scan_entry
    scan winning_option calculate_result votes
trace = tt

run : Reaches planned counted_vote
unfolding trace
run =
    next
      (next (next (next here (published 5 true units refl)) (cast (ballot_params 11 31 2) refl))
        (cast (ballot_params 13 35 2) refl))
      (was_closed 5 refl)

history-IsFair_example : IsFair counted_vote
history-IsFair_example = history-IsFair refl refl refl refl run

abbrev ballots : List Ballot
ballots =
    record { selected_option_id = 2; option_value = choice 22 }
    ∷ record { selected_option_id = 3; option_value = abstain }
    ∷ record { selected_option_id = 2; option_value = choice 22 }
    ∷ record { selected_option_id = 1; option_value = choice 21 }
    ∷ []

abbrev reordered : List Ballot
reordered =
    record { selected_option_id = 1; option_value = choice 21 }
    ∷ record { selected_option_id = 2; option_value = choice 22 }
    ∷ record { selected_option_id = 2; option_value = choice 22 }
    ∷ record { selected_option_id = 3; option_value = abstain }
    ∷ []

winning_option_iff_example :
    (winning_option ballots ≡ some 2)
    ↔ ((0 < votes 2 ballots) × ((o : ℕ) → o ≢ 2 → votes o ballots < votes 2 ballots))
winning_option_iff_example = winning_option_iff ballots 2

same_votes : (o : ℕ) → votes o ballots ≡ votes o reordered
unfolding votes
same_votes o = ground arith

calculate_result_order_example :
    calculate_result (some 50) 4 ballots ≡ calculate_result (some 50) 4 reordered
calculate_result_order_example =
    calculate_result_order (some 50) 4 ballots reordered refl same_votes

Step-stage_example :
    (stage opened.status < 2)
    × ((stage opened.status < stage one_ballot.status)
        ⊎ ((opened.status ≡ active)
            × (one_ballot.status ≡ active)
            × (length one_ballot.ballots ≡ suc (length opened.ballots))))
unfolding trace
Step-stage_example = Step-stage {v = opened} {w = one_ballot} (cast (ballot_params 11 31 2) refl)

history_turnout_example : length counted_vote.ballots ≤ length counted_vote.snapshots
history_turnout_example = history_turnout refl refl refl refl run
