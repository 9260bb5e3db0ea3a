-- ===== src/Governance/Tally.antt =====
-- What the tally of a vote counts: the votes for each option.
use vielhome_backend.Base.{
  ℕ, ◌+◌, ◌≡◌, ◌≢◌, inl, inr, sym, List, [], ◌∷◌, ◌==◌, arith, if◌then◌else◌, Bool-cases,
}
use vielhome_backend.Base.Table.{Unused, Keyed}
use vielhome_backend.Governance.Voting.{Ballot, is_abstain, Entry, bump, tally_ballots}

-- The ballots for an option that do not abstain.
unfoldable pub votes : ℕ → List Ballot → ℕ
votes id [] = 0
votes id (b ∷ rest) =
    let n = votes id rest in
    if is_abstain b.option_value then n else if b.selected_option_id == id then 1 + n else n

unfoldable pub count_of : ℕ → List Entry → ℕ
count_of id [] = 0
count_of id (e ∷ rest) = if e.option_id == id then e.count else count_of id rest

count_of-bump :
    (id j : ℕ) (t : List Entry)
    → count_of id (bump j t) ≡ (if j == id then 1 + count_of id t else count_of id t)
unfolding count_of bump
count_of-bump id j [] = ground arith
count_of-bump id j (e ∷ t) = ground (arith, count_of-bump id j t)

pub count_of-tally :
    (id : ℕ) (bs : List Ballot) (t : List Entry)
    → count_of id (tally_ballots bs t) ≡ count_of id t + votes id bs
unfolding tally_ballots votes
count_of-tally id [] t = omega arith
count_of-tally id (b ∷ bs) t = ground (
  arith,
  count_of-tally id bs t,
  count_of-tally id bs (bump b.selected_option_id t),
  count_of-bump id b.selected_option_id t,
)

bump-Unused :
    (id j : ℕ) (t : List Entry)
    → id ≢ j
    → Unused Entry.option_id id t
    → Unused Entry.option_id id (bump j t)
unfolding bump
bump-Unused id j [] other h = (λ e. other (sym e), tt)
bump-Unused id j (e ∷ t) other (p, h) = elim (Bool-cases (e.option_id == j)) [
  | inl q ↦ rw q (p, h)
  | inr q ↦ rw q (p, bump-Unused id j t other h)
]

bump-Keyed : (j : ℕ) (t : List Entry) → Keyed Entry.option_id t → Keyed Entry.option_id (bump j t)
unfolding bump
bump-Keyed j [] h = (tt, tt)
bump-Keyed j (e ∷ t) (p, h) = elim (Bool-cases (e.option_id == j)) [
  | inl q ↦ rw q (p, h)
  | inr q ↦ rw q (bump-Unused e.option_id j t (λ same. ground arith) p, bump-Keyed j t h)
]

pub tally-Keyed :
    (bs : List Ballot) (t : List Entry)
    → Keyed Entry.option_id t
    → Keyed Entry.option_id (tally_ballots bs t)
unfolding tally_ballots
tally-Keyed [] t h = h
tally-Keyed (b ∷ bs) t h = elim (Bool-cases (is_abstain b.option_value)) [
  | inl q ↦ rw q (tally-Keyed bs t h)
  | inr q ↦
      rw q (tally-Keyed bs (bump b.selected_option_id t) (bump-Keyed b.selected_option_id t h))
]
