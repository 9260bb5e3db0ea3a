-- ===== src/Accounts/Tokens.antt =====
-- Refresh tokens: refresh of auth.service.ts with rotateRefreshToken of auth.repository.ts. A row is known by
-- the hash of its token; whether a person is missing or suspended is an argument.
use vielhome_backend.Base.{
  ℕ, ◌≡◌, refl, sym, Bool, true, false, ◌&&◌, not, Option, none, some, List, [], ◌∷◌, ◌==◌, ==_refl,
  ltb, arith, inl, inr, Bool-cases,
}
use vielhome_backend.Base.Result.{
  Result, ok, returns, not_found, authorization, expect, guard, forbid, ◌>>=◌, ◌>>◌, expect-eq-ok,
  guard-eq-ok, forbid-eq-ok, ok-injective,
}
use vielhome_backend.Base.Table.{find, update, find-update, Unused}
use vielhome_backend.Base.Lookup.{find-cons-other}
use vielhome_backend.Base.Count.{indicator, count, count-update}

pub record TokenRow : Type 0 where
  pub token_hash : ℕ
  pub person_id : ℕ
  pub device_id : ℕ
  pub expires_at : ℕ
  pub is_revoked : Bool
  pub replaced_by : Option ℕ

abbrev pub new_token : ℕ → ℕ → ℕ → ℕ → TokenRow
new_token token_hash person device expires_at = record {
  token_hash = token_hash;
  person_id = person;
  device_id = device;
  expires_at = expires_at;
  is_revoked = false;
  replaced_by = none;
}

-- `createRefreshToken`
unfoldable pub issue_token : ℕ → ℕ → ℕ → ℕ → List TokenRow → List TokenRow
issue_token token_hash person device expires_at rows =
    new_token token_hash person device expires_at ∷ rows

abbrev pub replace : ℕ → TokenRow → TokenRow
replace successor t = record t { is_revoked = true; replaced_by = some successor }

-- `refresh` and `rotateRefreshToken`, in one moment.
unfoldable pub refresh : (ℕ → Bool) → ℕ → ℕ → ℕ → ℕ → List TokenRow → Result (List TokenRow)
refresh is_suspended hash now successor expires_at rows = do
  existing ← expect (find TokenRow.token_hash hash rows) not_found
  forbid existing.is_revoked authorization
  forbid (ltb existing.expires_at now) authorization
  forbid (is_suspended existing.person_id) authorization
  guard (ltb now existing.expires_at) authorization
  ok (
      new_token successor existing.person_id existing.device_id expires_at
      ∷ update TokenRow.token_hash hash (replace successor) rows)

pub data Step (rows : List TokenRow) : List TokenRow → Type 0 where
  issued :
      (hash person device expires_at : ℕ)
      → Unused TokenRow.token_hash hash rows
      → Step rows (issue_token hash person device expires_at rows)
  refreshed :
      (is_suspended : ℕ → Bool) (hash now successor expires_at : ℕ) {t : List TokenRow}
      → Unused TokenRow.token_hash successor rows
      → refresh is_suspended hash now successor expires_at rows ≡ ok t
      → Step rows t

pub data Reaches (rows : List TokenRow) : List TokenRow → Type 0 where
  here : Reaches rows rows
  next : {t u : List TokenRow} → Reaches rows t → Step t u → Reaches rows u

-- A token of the person that `refresh` would take at that moment, as far as the row says.
abbrev pub is_usable_of : ℕ → ℕ → TokenRow → Bool
is_usable_of person now t = not t.is_revoked && ltb now t.expires_at && t.person_id == person

-- What a refresh that returns found and wrote.
pub refresh-eq-ok :
    (is_suspended : ℕ → Bool) (hash now successor expires_at : ℕ) (rows : List TokenRow)
    {t : List TokenRow}
    → refresh is_suspended hash now successor expires_at rows ≡ ok t
    → (x : TokenRow) × (find TokenRow.token_hash hash rows ≡ some x)
      × (x.is_revoked ≡ false)
      × (ltb now x.expires_at ≡ true)
      × (t
          ≡ new_token successor x.person_id x.device_id expires_at
            ∷ update TokenRow.token_hash hash (replace successor) rows)
unfolding refresh
refresh-eq-ok is_suspended hash now successor expires_at rows e =
    let (x, found, e1) = expect-eq-ok (find TokenRow.token_hash hash rows) _ _ e in
    let (live, e2) = forbid-eq-ok x.is_revoked _ _ e1 in
    let (_, e3) = forbid-eq-ok (ltb x.expires_at now) _ _ e2 in
    let (_, e4) = forbid-eq-ok (is_suspended x.person_id) _ _ e3 in
    let (in_time, e5) = guard-eq-ok (ltb now x.expires_at) _ _ e4 in
    (x, found, live, in_time, sym (ok-injective e5))

-- A refresh whose new token has time left leaves, for every person, as many usable tokens as there were: those
-- that are not revoked and have not expired at that moment.
pub refresh_keeps_usable :
    (is_suspended : ℕ → Bool) (hash now successor expires_at person : ℕ) (rows : List TokenRow)
    {t : List TokenRow}
    → ltb now expires_at ≡ true
    → refresh is_suspended hash now successor expires_at rows ≡ ok t
    → count (is_usable_of person now) t ≡ count (is_usable_of person now) rows
refresh_keeps_usable is_suspended hash now successor expires_at person rows {t} has_time e =
    let (x, found, live, in_time, done) =
      refresh-eq-ok is_suspended hash now successor expires_at rows e in
    let after =
      count-update TokenRow.token_hash (is_usable_of person now) hash (replace successor) rows
        found in
    let was : indicator (is_usable_of person now x) ≡ indicator (x.person_id == person) =
      rw (live, in_time) refl in
    let new = new_token successor x.person_id x.device_id expires_at in
    let is_new : indicator (is_usable_of person now new) ≡ indicator (x.person_id == person) =
      rw has_time refl in
    rw done (omega (arith, after, was, is_new))

-- The token with this hash was replaced or withdrawn.
abbrev Revoked : ℕ → List TokenRow → Type 0
Revoked hash rows =
    (x : TokenRow) × (find TokenRow.token_hash hash rows ≡ some x) × (x.is_revoked ≡ true)

update-Unused :
    (k hash : ℕ) (f : TokenRow → TokenRow) (rows : List TokenRow)
    → ((x : TokenRow) → (f x).token_hash ≡ x.token_hash)
    → Unused TokenRow.token_hash k rows
    → Unused TokenRow.token_hash k (update TokenRow.token_hash hash f rows)
unfolding update
update-Unused k hash f [] keeps h = tt
update-Unused k hash f (x ∷ xs) keeps (apart, h) = elim (Bool-cases (x.token_hash == hash)) [
  | inl e ↦ rw e (rw (keeps x) apart, h)
  | inr e ↦ rw e (apart, update-Unused k hash f xs keeps h)
]

replaced-Revoked :
    (k hash successor : ℕ) (new : TokenRow) (rows : List TokenRow)
    → Unused TokenRow.token_hash new.token_hash rows
    → Revoked k rows
    → Revoked k (new ∷ update TokenRow.token_hash hash (replace successor) rows)
replaced-Revoked k hash successor new rows fresh (x, found, gone) =
    let other = update-Unused new.token_hash hash (replace successor) rows (λ y. refl) fresh in
    elim (Bool-cases (hash == k)) [
      | inl e ↦ (
        replace successor x,
        find-cons-other TokenRow.token_hash k new _ other (
            rw
              (
                find-update TokenRow.token_hash hash k (replace successor) rows (λ y. refl),
                e,
                found,
              )
              refl),
        refl,
      )
      | inr e ↦ (
        x,
        find-cons-other TokenRow.token_hash k new _ other (
            rw
              (
                find-update TokenRow.token_hash hash k (replace successor) rows (λ y. refl),
                e,
                found,
              )
              refl),
        gone,
      )
    ]

Step-Revoked :
    {rows t : List TokenRow} (hash : ℕ) → Step rows t → Revoked hash rows → Revoked hash t
unfolding issue_token
Step-Revoked {rows} hash (issued k person device expires_at fresh) =
    λ (x, found, gone). (x, find-cons-other TokenRow.token_hash hash _ rows fresh found, gone)
Step-Revoked {rows} hash (refreshed is_suspended k now successor expires_at fresh e) = λ h.
    let (x, _, _, _, done) = refresh-eq-ok is_suspended k now successor expires_at rows e in
    rw done (
      replaced-Revoked hash k successor (new_token successor x.person_id x.device_id expires_at)
        rows fresh h)

Reaches-Revoked :
    {rows t : List TokenRow} (hash : ℕ) → Reaches rows t → Revoked hash rows → Revoked hash t
Reaches-Revoked hash here h = h
Reaches-Revoked hash (next run step) h = Step-Revoked hash step (Reaches-Revoked hash run h)

refused :
    (is_suspended : ℕ → Bool) (hash now successor expires_at : ℕ) (rows : List TokenRow)
    {x : TokenRow}
    → find TokenRow.token_hash hash rows ≡ some x
    → x.is_revoked ≡ true
    → returns (refresh is_suspended hash now successor expires_at rows) ≡ false
unfolding refresh
refused is_suspended hash now successor expires_at rows found gone = rw (found, gone) refl

-- A token that was exchanged is never accepted again: after any run, with new hashes for new tokens, a
-- refresh with the same token does not return.
pub refresh_once :
    (is_suspended is_suspended' : ℕ → Bool)
    (hash now now' successor successor' expires_at expires_at' : ℕ) (rows : List TokenRow)
    {t u : List TokenRow}
    → refresh is_suspended hash now successor expires_at rows ≡ ok t
    → Unused TokenRow.token_hash successor rows
    → Reaches t u
    → returns (refresh is_suspended' hash now' successor' expires_at' u) ≡ false
refresh_once is_suspended is_suspended' hash now now' successor successor' expires_at expires_at'
      rows {t} {u} e fresh run =
    let (x, found, _, _, done) = refresh-eq-ok is_suspended hash now successor expires_at rows e in
    let new = new_token successor x.person_id x.device_id expires_at in
    let gone : Revoked hash t = rw done (
      replace successor x,
      find-cons-other TokenRow.token_hash hash new _
          (update-Unused successor hash (replace successor) rows (λ y. refl) fresh)
          (rw
            (
              find-update TokenRow.token_hash hash hash (replace successor) rows (λ y. refl),
              ==_refl hash,
              found,
            )
            refl),
      refl,
    ) in
    let (y, there, revoked) = Reaches-Revoked hash run gone in
    refused is_suspended' hash now' successor' expires_at' u there revoked
