-- ===== src/Accounts/Guessing.antt =====
-- What the checks of a one-time code promise over a run: how the rows stay, and that no code is accepted
-- twice.
pub mod Bound
use vielhome_backend.Base.{
  ℕ, ◌+◌, ◌≤◌, ◌≡◌, ◌≢◌, refl, ap, sym, ◌∙◌, subst, Bool, true, false, ◌&&◌, not, Option, none,
  some, List, [], ◌==◌, ==_refl, ==_iff, leb, ltb, arith, inl, inr, Bool-cases, Option-cases,
}
use vielhome_backend.Base.Result.{
  AppError, Result, ok, err, business_rule, authorization, ok-injective,
}
use vielhome_backend.Base.Table.{find, update, find-update, All-update}
use vielhome_backend.Base.Lookup.{find-cons-other, find-Unused}
use vielhome_backend.Base.Count.{indicator}
use vielhome_backend.Base.Unique.{find_first, find_first-passes, find_first-find}
use vielhome_backend.Query.{update-Keyed, find-All}
use vielhome_backend.Accounts.Otp.{
  OtpRow, is_open_code, count_attempt, consume, request_otp, accept, verify_otp, Step, requested,
  verified, Reaches, here, next, OtpBounded, OtpSound, check_code-cases, check_code, is_wrong_guess,
  step_guesses, guesses,
}

-- How verifyOtp ends: nothing is written, or a wrong code is counted, or the code is consumed.
verify_otp-cases :
    (P : List OtpRow × Result ℕ → Type 0) (hash : ℕ → ℕ) (phone purpose code now : ℕ)
    (rows : List OtpRow)
    → ((e : AppError) → P (rows, err e))
    → ((o : OtpRow)
        → find_first (is_open_code phone purpose) rows ≡ some o
        → leb o.max_attempts o.attempts ≡ false
        → P (update OtpRow.id o.id count_attempt rows, err authorization))
    → ((o : OtpRow)
        → find_first (is_open_code phone purpose) rows ≡ some o
        → P (update OtpRow.id o.id consume rows, ok o.id))
    → P (verify_otp hash phone purpose code now rows)
unfolding verify_otp
verify_otp-cases P hash phone purpose code now rows kept counted consumed =
    elim (Option-cases (find_first (is_open_code phone purpose) rows)) [
      | inl missing ↦ rw (missing, verify_otp) (kept business_rule)
      | inr (o, found) ↦
          rw (found, verify_otp)
            (check_code-cases P (hash code) o now rows kept (counted o found)
              (λ _. consumed o found))
    ]

counted_bounded :
    (o : OtpRow) → leb o.max_attempts o.attempts ≡ false → OtpBounded (count_attempt o)
counted_bounded o e = ground arith

count_attempt-OtpSound :
    (p : OtpRow → Bool) (rows : List OtpRow) (o : OtpRow)
    → find_first p rows ≡ some o
    → leb o.max_attempts o.attempts ≡ false
    → OtpSound rows
    → OtpSound (update OtpRow.id o.id count_attempt rows)
count_attempt-OtpSound p rows o there room h =
    let found = find_first-find OtpRow.id p rows h.keyed there in
    record {
      keyed = update-Keyed OtpRow.id o.id count_attempt rows (λ x. refl) h.keyed;
      bounded =
          All-update OtpRow.id OtpBounded o.id count_attempt rows
            (λ x at _.
              let the_row : o ≡ x = ground arith in
              subst (λ y. OtpBounded (count_attempt y)) the_row (counted_bounded o room))
            h.bounded;
    }

consume-OtpSound :
    (rows : List OtpRow) (id : ℕ) → OtpSound rows → OtpSound (update OtpRow.id id consume rows)
consume-OtpSound rows id h = record {
  keyed = update-Keyed OtpRow.id id consume rows (λ x. refl) h.keyed;
  bounded = All-update OtpRow.id OtpBounded id consume rows (λ x at sound. sound) h.bounded;
}

pub Step-OtpSound : {rows t : List OtpRow} → Step rows t → OtpSound rows → OtpSound t
unfolding request_otp
Step-OtpSound {rows} (requested id phone purpose code_hash expires_at max_attempts fresh) =
    λ h. record { keyed = (fresh, h.keyed); bounded = (omega arith, h.bounded) }
Step-OtpSound {rows} (verified hash phone purpose code now) = λ h.
    verify_otp-cases (λ r. OtpSound r.0) hash phone purpose code now rows (λ e. h)
      (λ o found room. count_attempt-OtpSound (is_open_code phone purpose) rows o found room h)
      (λ o found. consume-OtpSound rows o.id h)

pub history-OtpSound : {rows : List OtpRow} → Reaches [] rows → OtpSound rows
history-OtpSound here = record { keyed = tt; bounded = tt }
history-OtpSound (next run step) = Step-OtpSound step (history-OtpSound run)

-- The code of this id was used.
abbrev Used : ℕ → List OtpRow → Type 0
Used id rows = (o : OtpRow) × (find OtpRow.id id rows ≡ some o) × (o.is_consumed ≡ true)

update-Used :
    (id k : ℕ) (f : OtpRow → OtpRow) (rows : List OtpRow)
    → ((o : OtpRow) → (f o).id ≡ o.id)
    → ((o : OtpRow) → o.is_consumed ≡ true → (f o).is_consumed ≡ true)
    → Used id rows
    → Used id (update OtpRow.id k f rows)
update-Used id k f rows keeps stays (o, found, used) = elim (Bool-cases (k == id)) [
  | inl e ↦ (f o, rw (find-update OtpRow.id k id f rows keeps, e, found) refl, stays o used)
  | inr e ↦ (o, rw (find-update OtpRow.id k id f rows keeps, e, found) refl, used)
]

Step-Used : {rows t : List OtpRow} (id : ℕ) → Step rows t → Used id rows → Used id t
unfolding request_otp
Step-Used {rows} id (requested k phone purpose code_hash expires_at max_attempts fresh) =
    λ (o, found, used). (o, find-cons-other OtpRow.id id _ rows fresh found, used)
Step-Used {rows} id (verified hash phone purpose code now) = λ h.
    verify_otp-cases (λ r. Used id r.0) hash phone purpose code now rows (λ e. h)
      (λ o _ _. update-Used id o.id count_attempt rows (λ x. refl) (λ x used. used) h)
      (λ o _. update-Used id o.id consume rows (λ x. refl) (λ x _. refl) h)

Reaches-Used : {rows t : List OtpRow} (id : ℕ) → Reaches rows t → Used id rows → Used id t
Reaches-Used id here h = h
Reaches-Used id (next run step) h = Step-Used id step (Reaches-Used id run h)

Reaches-OtpSound : {rows t : List OtpRow} → Reaches rows t → OtpSound rows → OtpSound t
Reaches-OtpSound here h = h
Reaches-OtpSound (next run step) h = Step-OtpSound step (Reaches-OtpSound run h)

-- A check that accepts a code finds it unused and leaves it used.
accepted :
    (hash : ℕ → ℕ) (phone purpose code now : ℕ) (rows : List OtpRow) {t : List OtpRow} {i : ℕ}
    → OtpSound rows
    → verify_otp hash phone purpose code now rows ≡ (t, ok i)
    → (o : OtpRow) × (find OtpRow.id i rows ≡ some o) × (o.is_consumed ≡ false) × Used i t
accepted hash phone purpose code now rows {t} {i} h e =
    verify_otp-cases
      (λ r.
        r ≡ (t, ok i)
        → (o : OtpRow) × (find OtpRow.id i rows ≡ some o) × (o.is_consumed ≡ false) × Used i t)
      hash phone purpose code now rows (λ thrown wrong. cc) (λ o _ _ wrong. cc)
      (λ o there equal. the_row o there equal) e
  where
    the_row :
        (o : OtpRow)
        → find_first (is_open_code phone purpose) rows ≡ some o
        → accept o rows ≡ (t, ok i)
        → (x : OtpRow) × (find OtpRow.id i rows ≡ some x) × (x.is_consumed ≡ false) × Used i t
    the_row o there equal =
        let found = find_first-find OtpRow.id (is_open_code phone purpose) rows h.keyed there in
        let hit = find_first-passes (is_open_code phone purpose) rows there in
        let the_id : o.id ≡ i = ok-injective (ap (λ (r : List OtpRow × Result ℕ). r.1) equal) in
        let written : update OtpRow.id o.id consume rows ≡ t =
          ap (λ (r : List OtpRow × Result ℕ). r.0) equal in
        let unused : o.is_consumed ≡ false = ground arith in
        (
          o,
          rw (sym the_id) found,
          unused,
          (
            consume o,
            rw (sym written, sym the_id)
                (rw (find-update OtpRow.id o.id o.id consume rows (λ x. refl), ==_refl o.id, found)
                  refl),
            refl,
          ),
        )

-- A code that was accepted is not accepted again: after any run, with any hash and any numbers, a check that
-- accepts a code accepts another one.
pub accepted_once :
    (hash hash' : ℕ → ℕ) (phone phone' purpose purpose' code code' now now' : ℕ)
    (rows : List OtpRow) {t u v : List OtpRow} {i j : ℕ}
    → OtpSound rows
    → verify_otp hash phone purpose code now rows ≡ (t, ok i)
    → Reaches t u
    → verify_otp hash' phone' purpose' code' now' u ≡ (v, ok j)
    → i ≢ j
accepted_once hash hash' phone phone' purpose purpose' code code' now now' rows {t} {u} {v} {i} {j}
      h e run again same_id =
    let (_, _, _, used) = accepted hash phone purpose code now rows h e in
    let after : OtpSound t =
      subst OtpSound (ap (λ (r : List OtpRow × Result ℕ). r.0) e)
        (Step-OtpSound (verified hash phone purpose code now) h) in
    let (x, found, still_used) = Reaches-Used i run used in
    let (y, found', unused, _) =
      accepted hash' phone' purpose' code' now' u (Reaches-OtpSound run after) again in
    let same_row : some x ≡ some y = sym found ∙ ap (λ k. find OtpRow.id k u) same_id ∙ found' in
    ground arith
