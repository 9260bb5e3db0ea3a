-- ===== src/Accounts/Otp.antt =====
-- One-time codes: requestOtp and the check of verifyOtp in auth.service.ts, with auth.repository.ts,
-- otp.policy.ts and otp.domain-service.ts. The hash of a code is an argument; rows stand newest first.
use vielhome_backend.Base.{
  ℕ, suc, ◌+◌, ◌≤◌, ◌≡◌, Bool, true, false, ◌&&◌, not, Option, none, some, List, ◌∷◌, ◌==◌, ltb,
  leb, if◌then◌else◌, All, inl, inr, Bool-cases,
}
use vielhome_backend.Base.Result.{
  AppError, Result, ok, err, business_rule, rate_limit, authorization,
}
use vielhome_backend.Base.Table.{update, Keyed, Unused}
use vielhome_backend.Base.Count.{indicator}
use vielhome_backend.Base.Unique.{find_first}

pub record OtpRow : Type 0 where
  pub id : ℕ
  pub phone : ℕ
  pub purpose : ℕ
  pub code_hash : ℕ
  pub expires_at : ℕ
  pub attempts : ℕ
  pub max_attempts : ℕ
  pub is_consumed : Bool

-- `findLatestActiveOtp`
abbrev pub is_open_code : ℕ → ℕ → OtpRow → Bool
is_open_code phone purpose o = o.phone == phone && o.purpose == purpose && not o.is_consumed

abbrev pub count_attempt : OtpRow → OtpRow
count_attempt o = record o { attempts = suc o.attempts }

abbrev pub consume : OtpRow → OtpRow
consume o = record o { is_consumed = true }

-- `createOtpRequest`
unfoldable pub request_otp : ℕ → ℕ → ℕ → ℕ → ℕ → ℕ → List OtpRow → List OtpRow
request_otp id phone purpose code_hash expires_at max_attempts rows =
    record {
      id = id;
      phone = phone;
      purpose = purpose;
      code_hash = code_hash;
      expires_at = expires_at;
      attempts = 0;
      max_attempts = max_attempts;
      is_consumed = false;
    }
    ∷ rows

abbrev pub accept : OtpRow → List OtpRow → List OtpRow × Result ℕ
accept o rows = (update OtpRow.id o.id consume rows, ok o.id)

-- `claimOtp`, in the same moment as the read: the row is as it was read, and still has time.
abbrev pub claim_otp : OtpRow → ℕ → List OtpRow → List OtpRow × Result ℕ
claim_otp o now rows = if ltb now o.expires_at then accept o rows else (rows, err authorization)

-- The checks of the row that was found.
unfoldable pub check_code : ℕ → OtpRow → ℕ → List OtpRow → List OtpRow × Result ℕ
check_code hashed o now rows =
    if ltb o.expires_at now
    then (rows, err business_rule)
    else if leb o.max_attempts o.attempts
    then (rows, err rate_limit)
    else if hashed == o.code_hash
    then claim_otp o now rows
    else (update OtpRow.id o.id count_attempt rows, err authorization)

-- `verifyOtp`, up to the accepted code: the row's id. A wrong code changes the rows although it throws.
unfoldable pub verify_otp : (ℕ → ℕ) → ℕ → ℕ → ℕ → ℕ → List OtpRow → List OtpRow × Result ℕ
verify_otp hash phone purpose code now rows = elim (find_first (is_open_code phone purpose) rows) [
  | none ↦ (rows, err business_rule)
  | some o ↦ check_code (hash code) o now rows
]

pub data Step (rows : List OtpRow) : List OtpRow → Type 0 where
  requested :
      (id phone purpose code_hash expires_at max_attempts : ℕ)
      → Unused OtpRow.id id rows
      → Step rows (request_otp id phone purpose code_hash expires_at max_attempts rows)
  verified :
      (hash : ℕ → ℕ) (phone purpose code now : ℕ)
      → Step rows (verify_otp hash phone purpose code now rows).0

pub data Reaches (rows : List OtpRow) : List OtpRow → Type 0 where
  here : Reaches rows rows
  next : {t u : List OtpRow} → Reaches rows t → Step t u → Reaches rows u

-- The answer to a code that does not match. (A matching code is refused so in its last moment.)
abbrev pub is_refused_code : Result ℕ → Bool
is_refused_code (err authorization) = true
is_refused_code _ = false

-- Whether a check was a wrong guess of the code with this id: the row that stood for the phone, another hash,
-- and an answer that says so.
abbrev pub is_wrong_guess : ℕ → Option OtpRow → ℕ → Result ℕ → Bool
is_wrong_guess id none hashed answer = false
is_wrong_guess id (some o) hashed answer =
    o.id == id && not (hashed == o.code_hash) && is_refused_code answer

-- How many wrong guesses of a code a run has.
abbrev pub step_guesses : {rows t : List OtpRow} → ℕ → Step rows t → ℕ
step_guesses id (requested _ _ _ _ _ _ _) = 0
step_guesses {rows} id (verified hash phone purpose code now) = indicator (
    is_wrong_guess id (find_first (is_open_code phone purpose) rows) (hash code)
      (verify_otp hash phone purpose code now rows).1)

abbrev pub guesses : {rows t : List OtpRow} → ℕ → Reaches rows t → ℕ
guesses id here = 0
guesses id (next run step) = guesses id run + step_guesses id step

abbrev pub OtpBounded : OtpRow → Type 0
OtpBounded o = o.attempts ≤ o.max_attempts

pub record OtpSound (rows : List OtpRow) : Type 0 where
  pub keyed : Keyed OtpRow.id rows
  pub bounded : All OtpBounded rows

-- How a check ends: nothing is written, or a wrong code is counted, or the code is consumed.
pub check_code-cases :
    (P : List OtpRow × Result ℕ → Type 0) (hashed : ℕ) (o : OtpRow) (now : ℕ) (rows : List OtpRow)
    → ((e : AppError) → P (rows, err e))
    → (leb o.max_attempts o.attempts ≡ false
        → P (update OtpRow.id o.id count_attempt rows, err authorization))
    → (hashed == o.code_hash ≡ true → P (update OtpRow.id o.id consume rows, ok o.id))
    → P (check_code hashed o now rows)
unfolding check_code
check_code-cases P hashed o now rows kept counted consumed =
    elim (Bool-cases (ltb o.expires_at now)) [
      | inl e ↦ rw e (kept business_rule)
      | inr e ↦ elim (Bool-cases (leb o.max_attempts o.attempts)) [
        | inl f ↦ rw (e, f) (kept rate_limit)
        | inr f ↦ elim (Bool-cases (hashed == o.code_hash)) [
          | inr g ↦ rw (e, f, g) (counted f)
          | inl g ↦ elim (Bool-cases (ltb now o.expires_at)) [
            | inl h ↦ rw (e, f, g, h) (consumed g)
            | inr h ↦ rw (e, f, g, h) (kept authorization)
          ]
        ]
      ]
    ]
