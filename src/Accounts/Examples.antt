-- ===== src/Accounts/Examples.antt =====
-- A code that is tried twice and then used, and a refresh token that is exchanged.
use vielhome_backend.Base.{ℕ, ◌≤◌, ◌≡◌, ◌≢◌, refl, Bool, false, List, [], arith, ◌+◌}
use vielhome_backend.Base.Result.{Result, ok, err, returns}
use vielhome_backend.Base.Table.{find, update}
use vielhome_backend.Base.Count.{count}
use vielhome_backend.Accounts.Otp.{
  OtpRow, request_otp, check_code, verify_otp, Reaches, here, next, requested, verified, OtpSound,
  guesses,
}
use vielhome_backend.Accounts.Guessing.{Step-OtpSound, accepted_once}
use vielhome_backend.Accounts.Guessing.Bound.{history_guesses}
use vielhome_backend.Accounts.Tokens.{
  TokenRow, refresh, issue_token, is_usable_of, refresh_keeps_usable, refresh_once,
}
use vielhome_backend.Accounts.Tokens

abbrev hash : ℕ → ℕ
hash code = code + 1

abbrev asked : List OtpRow
asked = request_otp 1 901 0 (hash 1234) 500 5 []

abbrev tried : List OtpRow
tried = (verify_otp hash 901 0 1111 100 asked).0

abbrev used : List OtpRow
used = (verify_otp hash 901 0 1234 110 tried).0

abbrev asked_again : List OtpRow
asked_again = request_otp 2 901 0 (hash 77) 600 5 used

trace : Unit {0}
unfolding find update request_otp check_code verify_otp refresh issue_token
trace = tt

abbrev run : Reaches [] tried
run = next (next here (requested 1 901 0 (hash 1234) 500 5 tt)) (verified hash 901 0 1111 100)

history_guesses_example : guesses 1 run ≤ 5
unfolding trace
history_guesses_example = history_guesses 1 run refl

-- The run has one wrong guess.
guesses_counted : guesses 1 run ≡ 1
unfolding trace
guesses_counted = refl

tried-OtpSound : OtpSound tried
unfolding trace
tried-OtpSound =
    Step-OtpSound {rows = asked} (verified hash 901 0 1111 100)
      (record { keyed = (tt, tt); bounded = (omega arith, tt) })

abbrev first_id : ℕ
first_id = 1

abbrev second_id : ℕ
second_id = 2

accepted_once_example : first_id ≢ second_id
unfolding trace
accepted_once_example =
    accepted_once hash hash 901 901 0 0 1234 77 110 120 tried {t = used} {u = asked_again}
      tried-OtpSound refl (next here (requested 2 901 0 (hash 77) 600 5 ((λ e. ground arith), tt)))
      refl

abbrev nobody : ℕ → Bool
nobody person = false

abbrev first_tokens : List TokenRow
first_tokens = issue_token 31 21 41 1000 []

abbrev or_none : Result (List TokenRow) → List TokenRow
or_none (ok rows) = rows
or_none (err _) = []

abbrev second_tokens : List TokenRow
second_tokens = or_none (refresh nobody 31 200 32 1200 first_tokens)

refresh_keeps_usable_example :
    count (is_usable_of 21 200) second_tokens ≡ count (is_usable_of 21 200) first_tokens
unfolding trace
refresh_keeps_usable_example = refresh_keeps_usable nobody 31 200 32 1200 21 first_tokens refl refl

refresh_once_example : returns (refresh nobody 31 300 33 1300 second_tokens) ≡ false
unfolding trace
refresh_once_example =
    refresh_once nobody nobody 31 200 300 32 33 1200 1300 first_tokens refl
      ((λ e. ground arith), tt) Tokens.here
