-- ===== src/Base/Result.antt =====
-- common/errors/app-error.ts: a handler returns, or throws one of the application's errors. The
-- message of an error is left out.
use mathlib.Core.Path.{◌≡◌, refl}
use mathlib.Core.Bool.{Bool, true, false}
use mathlib.Core.Option.{Option, none, some}

pub data AppError : Type 0 where
  validation : AppError
  authorization : AppError
  not_found : AppError
  conflict : AppError
  business_rule : AppError
  duplicate : AppError
  rate_limit : AppError
  unexpected : AppError
  deprecated_charge_kind : AppError
  incompatible_charge_fund : AppError

-- What a handler returns, or the error that it throws.
pub data Result {u} (Value : Type u) : Type u where
  err : AppError → Result Value
  ok : Value → Result Value

-- `if (test) throw new E(…)`
abbrev pub forbid : Bool → AppError → Result (Unit {0})
forbid false thrown = ok tt
forbid true thrown = err thrown

-- `if (!test) throw new E(…)`
abbrev pub guard : Bool → AppError → Result (Unit {0})
guard false thrown = err thrown
guard true thrown = ok tt

-- `if (!row) throw new E(…)`
abbrev pub expect {u} : {Row : Type u} → Option Row → AppError → Result Row
expect (some row) thrown = ok row
expect none thrown = err thrown

-- A throw ends the handler.
infixl 5 ◌>>=◌
abbrev pub ◌>>=◌ {u v} : {X : Type u} {Y : Type v} → Result X → (X → Result Y) → Result Y
err thrown >>= rest = err thrown
ok value >>= rest = rest value

infixl 5 ◌>>◌
abbrev pub ◌>>◌ {u} : {Y : Type u} → Result (Unit {0}) → Result Y → Result Y
check >> rest = check >>= λ _. rest

-- Whether a handler returns.
abbrev pub returns {u} : {X : Type u} → Result X → Bool
returns (ok value) = true
returns (err thrown) = false

pub ok-injective {u} : {X : Type u} {x y : X} → ok x ≡ ok y → x ≡ y
ok-injective same = cc

-- A chain of checks that returned passed each of them.
pub guard-eq-ok {u} :
    {Y : Type u} (test : Bool) (thrown : AppError) (rest : Result Y) {y : Y}
    → (guard test thrown >> rest) ≡ ok y
    → (test ≡ true) × (rest ≡ ok y)
guard-eq-ok false thrown rest returned = cc
guard-eq-ok true thrown rest returned = (refl, returned)

pub forbid-eq-ok {u} :
    {Y : Type u} (test : Bool) (thrown : AppError) (rest : Result Y) {y : Y}
    → (forbid test thrown >> rest) ≡ ok y
    → (test ≡ false) × (rest ≡ ok y)
forbid-eq-ok true thrown rest returned = cc
forbid-eq-ok false thrown rest returned = (refl, returned)

pub expect-eq-ok {u v} :
    {X : Type u} {Y : Type v} (row : Option X) (thrown : AppError) (rest : X → Result Y) {y : Y}
    → (expect row thrown >>= rest) ≡ ok y
    → (x : X) × (row ≡ some x) × (rest x ≡ ok y)
expect-eq-ok none thrown rest returned = cc
expect-eq-ok (some x) thrown rest returned = (x, refl, returned)

pub >>=-eq-ok {u v} :
    {X : Type u} {Y : Type v} (first : Result X) (rest : X → Result Y) {y : Y}
    → (first >>= rest) ≡ ok y
    → (x : X) × (first ≡ ok x) × (rest x ≡ ok y)
>>=-eq-ok (err thrown) rest returned = cc
>>=-eq-ok (ok x) rest returned = (x, refl, returned)
