-- ===== src/Finance/Requests/Ceiling.antt =====
-- What a reported payment may amount to, and what a retry of the request does.
use vielhome_backend.Base.{
  ℕ, ◌+◌, ◌-◌, ◌≤◌, ◌≡◌, refl, true, false, Option, none, some, arith, ==_refl, same,
}
use vielhome_backend.Base.Int.{ℤ, pos, pos_part, ◌-ℤ◌}
use vielhome_backend.Base.Result.{ok}
use vielhome_backend.Finance.Schema.{Payment, Store}
use vielhome_backend.Finance.Debt.{compute_debt_snapshot}
use vielhome_backend.Finance.Requests.{
  PaymentParams, has_key, find_by_key, is_same_request, new_payment, add_payment, check_ceiling,
  create_payment,
}

-- What the unit may still pay.
abbrev pub remaining : ℕ → Store → ℕ
remaining unit_id s = (compute_debt_snapshot unit_id s).remaining_payable

less_waiting :
    (net : ℤ) (n waiting : ℕ)
    → pos_part (net -ℤ pos (n + waiting)) ≡ pos_part (net -ℤ pos waiting) - n
unfolding ◌-ℤ◌
less_waiting net n waiting = ground arith

after_report :
    (p : PaymentParams) (s : Store)
    → remaining p.unit_id (add_payment (new_payment p) s) ≡ remaining p.unit_id s - p.amount
unfolding compute_debt_snapshot
after_report p s = rw (==_refl p.unit_id) (less_waiting _ p.amount _)

-- A payment reported under a new key, and not entered by hand, is within what the unit may still pay,
-- and what may be paid after it is less by its amount.
pub create_payment_reserves :
    (p : PaymentParams) (s : Store) {q : Payment} {t : Store}
    → p.is_manual_amount ≡ false
    → find_by_key p.payer_id p.building_id p.idempotency_key s.payments ≡ none
    → create_payment p s ≡ ok (q, t)
    → (p.amount ≤ remaining p.unit_id s)
      × (remaining p.unit_id t + p.amount ≡ remaining p.unit_id s)
unfolding create_payment check_ceiling
create_payment_reserves p s {q} {t} manual fresh e =
    let bound : p.amount ≤ remaining p.unit_id s = ground arith in
    let after : t ≡ add_payment (new_payment p) s = ground arith in
    (bound, rw after (omega (arith, after_report p s)))

has_key_self :
    (p : PaymentParams) → has_key p.payer_id p.building_id p.idempotency_key (new_payment p) ≡ true
has_key_self p = rw (==_refl p.payer_id, ==_refl p.building_id, ==_refl p.idempotency_key)

same_self : (o : Option ℕ) → same o o ≡ true
same_self none = refl
same_self (some a) = ==_refl a

is_same_request_self : (p : PaymentParams) → is_same_request p (new_payment p) ≡ true
is_same_request_self p = rw (
  ==_refl p.unit_id,
  ==_refl p.fund_id,
  ==_refl p.amount,
  ==_refl p.method,
  same_self p.reference,
  same_self p.note,
)

-- A retry of a request that was accepted under a new key returns the same payment and writes
-- nothing.
pub create_payment_replay :
    (p : PaymentParams) (s : Store) {q : Payment} {t : Store}
    → find_by_key p.payer_id p.building_id p.idempotency_key s.payments ≡ none
    → create_payment p s ≡ ok (q, t)
    → create_payment p t ≡ ok (q, t)
unfolding create_payment find_by_key
create_payment_replay p s {q} {t} fresh e = ground (arith, has_key_self p, is_same_request_self p)
