-- ===== src/Accounts/Guessing/Bound.antt =====
-- How many wrong guesses of a one-time code a run can have.
use vielhome_backend.Base.{
  ℕ, ◌+◌, ◌≤◌, ◌≡◌, refl, ap, sym, ◌∙◌, subst, Bool, true, false, ◌&&◌, not, Option, none, some,
  List, [], ◌==◌, ==_iff, leb, ltb, arith, inl, inr, Bool-cases, Option-cases,
}
use vielhome_backend.Base.Table.{find, update, find-update}
use vielhome_backend.Base.Lookup.{find-Unused}
use vielhome_backend.Base.Count.{indicator}
use vielhome_backend.Base.Unique.{find_first, find_first-find}
use vielhome_backend.Query.{find-All}
use vielhome_backend.Accounts.Otp.{
  OtpRow, is_open_code, count_attempt, consume, request_otp, verify_otp, Step, requested, verified,
  Reaches, here, next, OtpBounded, OtpSound, check_code, is_wrong_guess, step_guesses, guesses,
}
use vielhome_backend.Accounts.Guessing.{history-OtpSound}

-- The attempts that a code's row counts; none for a code that is not there.
abbrev attempts_of : Option OtpRow → ℕ
attempts_of none = 0
attempts_of (some o) = o.attempts

attempts-update :
    (k id : ℕ) (f : OtpRow → OtpRow) (rows : List OtpRow)
    → ((o : OtpRow) → (f o).id ≡ o.id)
    → ((o : OtpRow) → (f o).attempts ≡ o.attempts)
    → attempts_of (find OtpRow.id id (update OtpRow.id k f rows))
      ≡ attempts_of (find OtpRow.id id rows)
attempts-update k id f rows keeps same =
    rw (find-update OtpRow.id k id f rows keeps) (elim (Bool-cases (k == id)) [
      | inl e ↦ elim (Option-cases (find OtpRow.id id rows)) [
        | inl missing ↦ rw (e, missing) refl
        | inr (o, found) ↦ rw (e, found) (same o)
      ]
      | inr e ↦ rw e refl
    ])

-- Counting an attempt adds it to its own code.
attempts-counted :
    (o : OtpRow) (id : ℕ) (rows : List OtpRow)
    → find OtpRow.id o.id rows ≡ some o
    → attempts_of (find OtpRow.id id (update OtpRow.id o.id count_attempt rows))
      ≡ attempts_of (find OtpRow.id id rows) + indicator (o.id == id)
attempts-counted o id rows found =
    rw (find-update OtpRow.id o.id id count_attempt rows (λ x. refl))
      (elim (Bool-cases (o.id == id)) [
        | inl e ↦
            let here : find OtpRow.id id rows ≡ some o =
              subst (λ k. find OtpRow.id k rows ≡ some o) ((==_iff o.id id).0 e) found in
            rw (e, here) (omega arith)
        | inr e ↦ rw e (omega arith)
      ])

answered : (a b : Bool) → (a && b && false) ≡ false
answered false b = refl
answered true false = refl
answered true true = refl

matched : (a c : Bool) → (a && false && c) ≡ false
matched false c = refl
matched true c = refl

wrong : (a : Bool) → (a && true && true) ≡ a
wrong false = refl
wrong true = refl

check_code-guesses :
    (hashed : ℕ) (o : OtpRow) (now id : ℕ) (rows : List OtpRow)
    → find OtpRow.id o.id rows ≡ some o
    → attempts_of (find OtpRow.id id (check_code hashed o now rows).0)
      ≡ attempts_of (find OtpRow.id id rows)
        + indicator (is_wrong_guess id (some o) hashed (check_code hashed o now rows).1)
unfolding check_code
check_code-guesses hashed o now id rows found = elim (Bool-cases (ltb o.expires_at now)) [
  | inl e ↦ rw (e, unseen) (omega arith)
  | inr e ↦ elim (Bool-cases (leb o.max_attempts o.attempts)) [
    | inl f ↦ rw (e, f, unseen) (omega arith)
    | inr f ↦ elim (Bool-cases (hashed == o.code_hash)) [
      | inr g ↦ rw (e, f, g, wrong (o.id == id)) (attempts-counted o id rows found)
      | inl g ↦ elim (Bool-cases (ltb now o.expires_at)) [
        | inl h ↦
            rw (e, f, g, h, matched (o.id == id) false)
              (attempts-update o.id id consume rows (λ x. refl) (λ x. refl) ∙ omega arith)
        | inr h ↦ rw (e, f, g, h, matched (o.id == id) true) (omega arith)
      ]
    ]
  ]
]
  where
    unseen : (o.id == id && not (hashed == o.code_hash) && false) ≡ false
    unseen = answered (o.id == id) (not (hashed == o.code_hash))

Step-guesses :
    {rows t : List OtpRow} (id : ℕ) (step : Step rows t)
    → OtpSound rows
    → attempts_of (find OtpRow.id id t)
      ≡ attempts_of (find OtpRow.id id rows) + step_guesses id step
unfolding request_otp verify_otp find
Step-guesses {rows} id (requested k phone purpose code_hash expires_at max_attempts fresh) h =
    elim (Bool-cases (k == id)) [
      | inl e ↦
          let the_id : k ≡ id = (==_iff k id).0 e in
          let unused : find OtpRow.id id rows ≡ none =
            subst (λ j. find OtpRow.id j rows ≡ none) the_id (find-Unused OtpRow.id k rows fresh) in
          rw (e, unused) refl
      | inr e ↦ rw e (omega arith)
    ]
Step-guesses {rows} id (verified hash phone purpose code now) h =
    elim (Option-cases (find_first (is_open_code phone purpose) rows)) [
      | inl missing ↦ rw (missing, verify_otp) (omega arith)
      | inr (o, there) ↦
          rw (there, verify_otp)
            (check_code-guesses (hash code) o now id rows
              (find_first-find OtpRow.id (is_open_code phone purpose) rows h.keyed there))
    ]

counted_guesses :
    {rows : List OtpRow} (id : ℕ) (run : Reaches [] rows)
    → attempts_of (find OtpRow.id id rows) ≡ guesses id run
unfolding find
counted_guesses id here = refl
counted_guesses id (next run step) =
    let before = counted_guesses id run in
    let now = Step-guesses id step (history-OtpSound run) in omega (arith, before, now)

-- In any run of requests and checks from an empty table, the number of wrong guesses of a code, by checks that
-- answer that it does not match, is at most its maximum.
pub history_guesses :
    {rows : List OtpRow} (id : ℕ) (run : Reaches [] rows) {o : OtpRow}
    → find OtpRow.id id rows ≡ some o
    → guesses id run ≤ o.max_attempts
history_guesses {rows} id run {o} found =
    let sound = history-OtpSound run in
    let counted : o.attempts ≡ guesses id run =
      ap attempts_of (sym found) ∙ counted_guesses id run in
    let bound : OtpBounded o = find-All OtpRow.id OtpBounded id rows sound.bounded found in
    omega (arith, counted, bound)
