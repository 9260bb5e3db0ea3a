-- ===== src/Finance/Funds.antt =====
-- finance.repository.ts, `createFund`, `setFundActive` and `getOrCreateDefaultFund`, with
-- domain/policies/fund.policy.ts and the fund part of application/finance.service.ts.
use vielhome_backend.Base.{
  ℕ, Bool, true, false, ◌&&◌, Option, none, some, List, [], ◌∷◌, ◌==◌, if◌then◌else◌,
}
use vielhome_backend.Base.Int.{pos}
use vielhome_backend.Base.Result.{
  Result, ok, business_rule, not_found, unexpected, expect, guard, forbid, ◌>>=◌, ◌>>◌,
}
use vielhome_backend.Base.Table.{update}
use vielhome_backend.Finance.Schema.{
  FundType, current, Fund, EntryType, Direction, Reference, Store,
}
use vielhome_backend.Finance.Store.{find_fund, post_cash}

-- `assertDeactivatable`
abbrev pub assert_deactivatable : Bool → Result (Unit {0})
assert_deactivatable is_default = forbid is_default business_rule

-- `assertActive`
abbrev pub assert_active : Bool → Result (Unit {0})
assert_active is_active = guard is_active business_rule

pub record FundParams : Type 0 where
  pub fund_id : ℕ
  pub building_id : ℕ
  pub fund_type : FundType
  pub is_default : Bool
  pub initial_balance : ℕ

abbrev pub new_fund : FundParams → Fund
new_fund p = record {
  id = p.fund_id;
  building_id = p.building_id;
  fund_type = p.fund_type;
  is_default = p.is_default;
  is_active = true;
  balance = pos 0;
}

abbrev pub add_fund : Fund → Store → Store
add_fund f s = record s { funds = f ∷ s.funds }

-- A positive initial balance is posted as an opening balance, never written directly.
unfoldable pub create_fund : FundParams → Store → Result Store
create_fund p s =
    let t = add_fund (new_fund p) s in
    if p.initial_balance == 0
    then ok t
    else post_cash EntryType.opening_balance Direction.credit p.fund_id p.initial_balance
        (Reference.of_fund p.fund_id) t

abbrev pub active_row : Bool → Fund → Fund
active_row is_active f = record f { is_active = is_active }

unfoldable pub set_fund_active : ℕ → Bool → Store → Result Store
set_fund_active id is_active s = do
  _ ← expect (find_fund id s) unexpected
  ok (record s { funds = update Fund.id id (active_row is_active) s.funds })

-- `FinanceService.getFund`
unfoldable pub get_fund : ℕ → ℕ → Store → Result Fund
get_fund building_id id s = do
  f ← expect (find_fund id s) not_found
  guard (f.building_id == building_id) not_found
  ok f

-- `FinanceService.deactivateFund`
unfoldable pub deactivate_fund : ℕ → ℕ → Store → Result Store
unfolding get_fund set_fund_active
deactivate_fund building_id id s = do
  f ← get_fund building_id id s
  assert_deactivatable f.is_default
  set_fund_active id false s

-- `FinanceService.reactivateFund`
unfoldable pub reactivate_fund : ℕ → ℕ → Store → Result Store
unfolding get_fund set_fund_active
reactivate_fund building_id id s = do _ ← get_fund building_id id s; set_fund_active id true s

-- `findFirst({ where: { buildingId, isDefault: true } })`
unfoldable pub find_default : ℕ → List Fund → Option Fund
find_default building_id [] = none
find_default building_id (f ∷ fs) =
    if f.building_id == building_id && f.is_default then some f else find_default building_id fs

-- `getOrCreateDefaultFund`: the fund, and the tables with it. The database gives `new_id`.
unfoldable pub get_or_create_default_fund : ℕ → ℕ → Store → Fund × Store
get_or_create_default_fund new_id building_id s = elim (find_default building_id s.funds) [
  | some f ↦ (f, s)
  | none ↦
      let f = new_fund (record {
        fund_id = new_id;
        building_id = building_id;
        fund_type = current;
        is_default = true;
        initial_balance = 0;
      }) in
      (f, add_fund f s)
]

abbrev pub choose_fund : ℕ → ℕ → Option ℕ → Store → Result (Fund × Store)
choose_fund new_id building_id none s = ok (get_or_create_default_fund new_id building_id s)
choose_fund new_id building_id (some id) s = expect (find_fund id s) not_found >>= λ f. ok (f, s)

-- `FinanceService.resolveFundForWrite`
unfoldable pub resolve_fund_for_write : ℕ → ℕ → Option ℕ → Store → Result (Fund × Store)
resolve_fund_for_write new_id building_id fund_id s = do
  (f, t) ← choose_fund new_id building_id fund_id s
  guard (f.building_id == building_id) not_found
  assert_active f.is_active
  ok (f, t)
