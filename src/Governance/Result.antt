-- ===== src/Governance/Result.antt =====
-- Who wins a vote: the scan of the tally against the votes themselves.
use vielhome_backend.Base.{
  ℕ, ◌+◌, ◌≤◌, ◌<◌, ◌≡◌, ◌≢◌, ◌↔◌, inl, inr, refl, sym, Bool, true, false, ◌&&◌, Option, none, some,
  List, [], ◌∷◌, ltb, ◌==◌, arith, if◌then◌else◌, length, All, Bool-cases, subst,
}
use vielhome_backend.Base.Table.{Unused, Keyed}
use vielhome_backend.Governance.Voting.{
  Ballot, Entry, tally_ballots, Scan, scan, scan_entry, start, winner_of, winning_option,
  calculate_result,
}
use vielhome_backend.Governance.Tally.{votes, count_of, count_of-tally, tally-Keyed}

-- Where the count has come to: nobody has a vote, one option leads, or two share the lead.
data Standing (c : ℕ → ℕ) (s : Scan) : Type 0 where
  nobody : s ≡ start → ((o : ℕ) → c o ≡ 0) → Standing c s
  leads :
      (w : ℕ)
      → s.winning_option_id ≡ some w
      → s.tie ≡ false
      → 0 < s.top_count
      → c w ≡ s.top_count
      → ((o : ℕ) → o ≢ w → c o < s.top_count)
      → Standing c s
  level :
      (w v : ℕ)
      → s.tie ≡ true
      → 0 < s.top_count
      → w ≢ v
      → c w ≡ s.top_count
      → c v ≡ s.top_count
      → ((o : ℕ) → c o ≤ s.top_count)
      → Standing c s

abbrev add_count : Entry → (ℕ → ℕ) → ℕ → ℕ
add_count e c o = if e.option_id == o then e.count else c o

scan_entry-new_top :
    (e : Entry) (c : ℕ → ℕ) (s : Scan)
    → ltb s.top_count e.count ≡ true
    → ((o : ℕ) → c o ≤ s.top_count)
    → Standing (add_count e c) (scan_entry e s)
unfolding scan_entry
scan_entry-new_top e c s above bound =
    rw above (
      leads e.option_id refl refl (ground arith) (ground arith)
        (λ o other. ground (arith, bound o)))

abbrev is_level : Entry → Scan → Bool
is_level e s = e.count == s.top_count && ltb 0 e.count

scan_entry-Standing :
    (e : Entry) (c : ℕ → ℕ) (s : Scan)
    → c e.option_id ≡ 0
    → Standing c s
    → Standing (add_count e c) (scan_entry e s)
unfolding scan_entry
scan_entry-Standing e c s new (nobody at_start none_yet) =
    elim (Bool-cases (ltb s.top_count e.count)) [
      | inl above ↦ scan_entry-new_top e c s above (λ o. ground (arith, none_yet o))
      | inr below ↦
          let no_count : e.count ≡ 0 = ground arith in
          rw (below, no_count) (nobody (rw at_start refl) (λ o. ground (arith, none_yet o)))
    ]
scan_entry-Standing e c s new (leads w win single some_votes is_top others) =
    elim (Bool-cases (ltb s.top_count e.count)) [
      | inl above ↦ scan_entry-new_top e c s above (λ o. ground (arith, others o))
      | inr below ↦ elim (Bool-cases (is_level e s)) [
        | inl same ↦
            rw (below, same)
              (level w e.option_id refl some_votes (λ q. ground arith) (ground arith) (ground arith)
                (λ o. ground (arith, others o)))
        | inr lower ↦
            rw (below, lower)
              (leads w win single some_votes (ground arith) (λ o other. ground (arith, others o)))
      ]
    ]
scan_entry-Standing e c s new (level w v tied some_votes two first second bound) =
    elim (Bool-cases (ltb s.top_count e.count)) [
      | inl above ↦ scan_entry-new_top e c s above bound
      | inr below ↦ elim (Bool-cases (is_level e s)) [
        | inl same ↦
            rw (below, same)
              (level w v refl some_votes two (ground arith) (ground arith)
                (λ o. ground (arith, bound o)))
        | inr lower ↦
            rw (below, lower)
              (level w v tied some_votes two (ground arith) (ground arith)
                (λ o. ground (arith, bound o)))
      ]
    ]

abbrev add_counts : List Entry → (ℕ → ℕ) → ℕ → ℕ
add_counts [] c = c
add_counts (e ∷ t) c = add_counts t (add_count e c)

-- An option without an entry so far is not counted yet.
abbrev Uncounted : (ℕ → ℕ) → List Entry → Type 0
Uncounted c t = All (λ e. c e.option_id ≡ 0) t

add_count-Uncounted :
    (e : Entry) (c : ℕ → ℕ) (t : List Entry)
    → Unused Entry.option_id e.option_id t
    → Uncounted c t
    → Uncounted (add_count e c) t
add_count-Uncounted e c [] h k = tt
add_count-Uncounted e c (x ∷ t) (p, h) (q, k) = (ground arith, add_count-Uncounted e c t h k)

scan-Standing :
    (t : List Entry) (c : ℕ → ℕ) (s : Scan)
    → Keyed Entry.option_id t
    → Uncounted c t
    → Standing c s
    → Standing (add_counts t c) (scan t s)
unfolding scan
scan-Standing [] c s h k standing = standing
scan-Standing (e ∷ t) c s (p, h) (q, k) standing =
    scan-Standing t (add_count e c) (scan_entry e s) h (add_count-Uncounted e c t p k)
      (scan_entry-Standing e c s q standing)

count_of-Unused : (id : ℕ) (t : List Entry) → Unused Entry.option_id id t → count_of id t ≡ 0
unfolding count_of
count_of-Unused id [] h = refl
count_of-Unused id (e ∷ t) (p, h) = ground (arith, count_of-Unused id t h)

add_counts-count_of :
    (t : List Entry) (c : ℕ → ℕ) (o : ℕ)
    → Keyed Entry.option_id t
    → Uncounted c t
    → add_counts t c o ≡ c o + count_of o t
unfolding count_of
add_counts-count_of [] c o h k = omega arith
add_counts-count_of (e ∷ t) c o (p, h) (q, k) =
    let rest = add_counts-count_of t (add_count e c) o h (add_count-Uncounted e c t p k) in
    let unused = count_of-Unused e.option_id t p in
    elim (Bool-cases (e.option_id == o)) [
      | inl same ↦
          let one : e.option_id ≡ o = ground arith in
          let none_after : count_of o t ≡ 0 = subst (λ x. count_of x t ≡ 0) one unused in
          let none_before : c o ≡ 0 = subst (λ x. c x ≡ 0) one q in ground arith
      | inr other ↦ ground arith
    ]

abbrev final : List Ballot → Scan
final ballots = scan (tally_ballots ballots []) start

zero-Uncounted : (t : List Entry) → Uncounted (λ _. 0) t
zero-Uncounted [] = tt
zero-Uncounted (e ∷ t) = (refl, zero-Uncounted t)

count-votes :
    (ballots : List Ballot) (o : ℕ)
    → add_counts (tally_ballots ballots []) (λ _. 0) o ≡ votes o ballots
unfolding count_of
count-votes ballots o = omega (
  arith,
  add_counts-count_of (tally_ballots ballots []) (λ _. 0) o (tally-Keyed ballots [] tt)
      (zero-Uncounted (tally_ballots ballots [])),
  count_of-tally o ballots [],
)

final-Standing : (ballots : List Ballot) → Standing (λ o. votes o ballots) (final ballots)
final-Standing ballots =
    subst (λ c. Standing c (final ballots)) (λ i o. count-votes ballots o i)
      (scan-Standing (tally_ballots ballots []) (λ _. 0) start (tally-Keyed ballots [] tt)
        (zero-Uncounted (tally_ballots ballots [])) (nobody refl (λ _. refl)))

abbrev Wins : (ℕ → ℕ) → ℕ → Type 0
Wins c w = (0 < c w) × ((o : ℕ) → o ≢ w → c o < c w)

Standing-winner : (c : ℕ → ℕ) (s : Scan) (w : ℕ) → Standing c s → (winner_of s ≡ some w) ↔ Wins c w
Standing-winner c s w (nobody at_start none_yet) =
    (λ e. ground (arith, at_start), λ (wins, _). ground (arith, none_yet w))
Standing-winner c s w (leads v win single some_votes is_top others) = (
  λ e.
      let one : v ≡ w = ground arith in
      subst (Wins c) one (rw is_top some_votes, λ o other. ground (arith, others o)),
  λ (wins, beats). let one : v ≡ w = ground (arith, others w, beats v) in ground arith,
)
Standing-winner c s w (level v u tied some_votes two first second bound) =
    (λ e. ground arith, λ (wins, beats). ground (arith, beats v, beats u, bound w, first, second))

-- An option wins a vote exactly if it has more votes than each other option, votes that abstain left
-- out; so a vote with a shared lead, or without votes, has no winner.
pub winning_option_iff :
    (ballots : List Ballot) (w : ℕ)
    → (winning_option ballots ≡ some w)
      ↔ ((0 < votes w ballots) × ((o : ℕ) → o ≢ w → votes o ballots < votes w ballots))
unfolding winning_option
winning_option_iff ballots w =
    Standing-winner (λ o. votes o ballots) (final ballots) w (final-Standing ballots)

Option-ext :
    (a b : Option ℕ)
    → ((w : ℕ) → a ≡ some w → b ≡ some w)
    → ((w : ℕ) → b ≡ some w → a ≡ some w)
    → a ≡ b
Option-ext none none f g = refl
Option-ext none (some y) f g = g y refl
Option-ext (some x) b f g = sym (f x refl)

votes-order :
    (xs ys : List Ballot)
    → ((o : ℕ) → votes o xs ≡ votes o ys)
    → (w : ℕ) → winning_option xs ≡ some w
    → winning_option ys ≡ some w
votes-order xs ys same w e =
    (winning_option_iff ys w).1
      (subst (λ c. Wins c w) (λ i o. same o i) ((winning_option_iff xs w).0 e))

-- The result of a vote depends on how many ballots there are and on the votes for each option only: not
-- on the order in which the ballots were cast or are read.
pub calculate_result_order :
    (percent : Option ℕ) (eligible : ℕ) (xs ys : List Ballot)
    → length xs ≡ length ys
    → ((o : ℕ) → votes o xs ≡ votes o ys)
    → calculate_result percent eligible xs ≡ calculate_result percent eligible ys
unfolding calculate_result
calculate_result_order percent eligible xs ys lengths same =
    let winners : winning_option xs ≡ winning_option ys =
      Option-ext (winning_option xs) (winning_option ys) (votes-order xs ys same)
        (votes-order ys xs (λ o. sym (same o))) in
    rw (lengths, winners) refl
