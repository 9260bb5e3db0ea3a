-- ===== src/Governance/Turnout.antt =====
-- How many ballots a vote can have.
use vielhome_backend.Base.{
  ℕ, suc, ◌≤◌, ◌≡◌, ◌≢◌, refl, sym, ◌∙◌, inl, inr, none, List, [], ◌∷◌, arith, ap, ◌==◌,
  if◌then◌else◌, length, All, Bool-cases,
}
use vielhome_backend.Base.Table.{find, Keyed, Unused}
use vielhome_backend.Governance.Votes.{Vote, draft, Snapshot, BallotRow}
use vielhome_backend.Governance.History.{Reaches, history-IsFair}

-- The rows without the first of a unit.
unfoldable without : ℕ → List Snapshot → List Snapshot
without k [] = []
without k (x ∷ t) = if x.unit_id == k then t else x ∷ without k t

without-find :
    (k j : ℕ) (t : List Snapshot)
    → j ≢ k
    → find Snapshot.unit_id j (without k t) ≡ find Snapshot.unit_id j t
unfolding without find
without-find k j [] other = refl
without-find k j (x ∷ t) other = ground (arith, without-find k j t)

without-length :
    (k : ℕ) (t : List Snapshot)
    → find Snapshot.unit_id k t ≢ none
    → suc (length (without k t)) ≡ length t
unfolding without find
without-length k [] there = ground arith
without-length k (x ∷ t) there = elim (Bool-cases (x.unit_id == k)) [
  | inl hit ↦ rw hit refl
  | inr miss ↦ rw miss (ap suc (without-length k t (λ e. there (rw miss e))))
]

abbrev InSnapshot : List BallotRow → List Snapshot → Type 0
InSnapshot ballots t = All (λ (b : BallotRow). find Snapshot.unit_id b.unit_id t ≢ none) ballots

without-InSnapshot :
    (k : ℕ) (ballots : List BallotRow) (t : List Snapshot)
    → Unused BallotRow.unit_id k ballots
    → InSnapshot ballots t
    → InSnapshot ballots (without k t)
without-InSnapshot k [] t u h = tt
without-InSnapshot k (b ∷ rest) t (other, u) (there, h) =
    (λ e. there (sym (without-find k b.unit_id t other) ∙ e), without-InSnapshot k rest t u h)

ballots_fit :
    (ballots : List BallotRow) (t : List Snapshot)
    → Keyed BallotRow.unit_id ballots
    → InSnapshot ballots t
    → length ballots ≤ length t
ballots_fit [] t k h = omega arith
ballots_fit (b ∷ rest) t (u, k) (there, h) = omega (
  arith,
  without-length b.unit_id t there,
  ballots_fit rest (without b.unit_id t) k (without-InSnapshot b.unit_id rest t u h),
)

-- From a draft without ballots, snapshot and result, no run of the operations leaves a vote with more
-- ballots than there are units in its snapshot.
pub history_turnout :
    {v w : Vote}
    → v.status ≡ draft
    → v.ballots ≡ []
    → v.snapshots ≡ []
    → v.result ≡ none
    → Reaches v w
    → length w.ballots ≤ length w.snapshots
history_turnout {v} {w} d b s r run =
    let fair = history-IsFair d b s r run in
    ballots_fit w.ballots w.snapshots fair.distinct fair.eligible_units
