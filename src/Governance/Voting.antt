-- ===== src/Governance/Voting.antt =====
-- modules/governance/domain/policies/vote.policy.ts, `isQuorumMet` and `calculateResult`: how the
-- ballots of a vote are counted when it is closed. The percentage of a quorum is an integer.
use vielhome_backend.Base.{
  ℕ, ◌+◌, ◌*◌, Bool, true, false, ◌&&◌, Option, none, some, List, [], ◌∷◌, ltb, leb, ◌==◌,
  if◌then◌else◌, length,
}

pub data OptionValue : Type 0 where
  abstain : OptionValue
  choice : ℕ → OptionValue

pub record Ballot : Type 0 where
  pub selected_option_id : ℕ
  pub option_value : OptionValue

pub data ResultStatus : Type 0 where
  passed : ResultStatus
  not_passed : ResultStatus
  quorum_not_met : ResultStatus

pub record VoteResult : Type 0 where
  pub total_eligible_count : ℕ
  pub total_ballot_count : ℕ
  pub quorum_met : Bool
  pub winning_option_id : Option ℕ
  pub result_status : ResultStatus

-- `isQuorumMet`
abbrev pub is_quorum_met : Option ℕ → ℕ → ℕ → Bool
is_quorum_met none eligible ballots = true
is_quorum_met (some percent) eligible ballots =
    if eligible == 0 then false else leb (percent * eligible) (ballots * 100)

-- An entry of the `tally` map; a map keeps its entries in the order of their first insertion.
pub record Entry : Type 0 where
  pub option_id : ℕ
  pub count : ℕ

-- `tally.set(id, (tally.get(id) ?? 0) + 1)`
unfoldable pub bump : ℕ → List Entry → List Entry
bump id [] = record { option_id = id; count = 1 } ∷ []
bump id (e ∷ rest) =
    if e.option_id == id then record e { count = e.count + 1 } ∷ rest else e ∷ bump id rest

abbrev pub is_abstain : OptionValue → Bool
is_abstain abstain = true
is_abstain (choice _) = false

-- The loop over the ballots.
unfoldable pub tally_ballots : List Ballot → List Entry → List Entry
tally_ballots [] tally = tally
tally_ballots (b ∷ rest) tally =
    tally_ballots rest
      (if is_abstain b.option_value then tally else bump b.selected_option_id tally)

pub record Scan : Type 0 where
  pub winning_option_id : Option ℕ
  pub top_count : ℕ
  pub tie : Bool

-- One round of the loop over the tally.
unfoldable pub scan_entry : Entry → Scan → Scan
scan_entry e s =
    if ltb s.top_count e.count
    then record { winning_option_id = some e.option_id; top_count = e.count; tie = false }
    else if e.count == s.top_count && ltb 0 e.count
    then record s { tie = true }
    else s

unfoldable pub scan : List Entry → Scan → Scan
scan [] s = s
scan (e ∷ rest) s = scan rest (scan_entry e s)

abbrev pub start : Scan
start = record { winning_option_id = none; top_count = 0; tie = false }

-- `if (tie) winningOptionId = null`
abbrev pub winner_of : Scan → Option ℕ
winner_of s = if s.tie then none else s.winning_option_id

abbrev pub status_of : Bool → Option ℕ → ResultStatus
status_of false _ = quorum_not_met
status_of true none = not_passed
status_of true (some _) = passed

unfoldable pub winning_option : List Ballot → Option ℕ
winning_option ballots = winner_of (scan (tally_ballots ballots []) start)

unfoldable pub calculate_result : Option ℕ → ℕ → List Ballot → VoteResult
calculate_result percent eligible ballots =
    let met = is_quorum_met percent eligible (length ballots) in
    record {
      total_eligible_count = eligible;
      total_ballot_count = length ballots;
      quorum_met = met;
      winning_option_id = winning_option ballots;
      result_status = status_of met (winning_option ballots);
    }
