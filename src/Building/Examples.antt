-- ===== src/Building/Examples.antt =====
-- Runs of the operations on a building with two units: a manager founds it, the owner of a unit claims it,
-- lets it, and hands it over.
use vielhome_backend.Base.{ℕ, ◌≡◌, refl, true, false, none, some, List, [], ◌∷◌, arith, leb}
use vielhome_backend.Base.Result.{Result, ok, err, returns}
use vielhome_backend.Base.Table.{find, update}
use vielhome_backend.Building.Schema.{
  manager, MembershipRequest, pending, approved, Home, vacant, Person, Registry,
}
use vielhome_backend.Building.Units.{
  get_own_unit, fill_missing_person_name, link_owner_to_unit, claim_ownership, can_claim_ownership,
  transfer_ownership, TenancyParams, create_tenancy, get_managed_tenancy, give_tenancy_notice,
  end_tenancy, invite_owner_v2,
}
use vielhome_backend.Building.Visibility.{get_unit_for_person, shape_listed}
use vielhome_backend.Building.Privacy.{list_units-get_unit}
use vielhome_backend.Building.Mandate.{appoint, carry_out, managers_of, run_mandate-carry_out}
use vielhome_backend.Building.Managers.{
  create_building, change_manager, resolve_found, resolve_membership_request,
  meets_approval_threshold, compute_approval_percent,
}
use vielhome_backend.Building.Sound.{InOrder}
use vielhome_backend.Building.History.{
  Reaches, here, next, built, others, invited_v2, claimed, rented, noticed, left, transferred,
  requested, empty_registry, history-InOrder,
}
use vielhome_backend.Building.Claims.{
  claim_ownership-can_claim, refused_request_approved, approval_threshold_percent,
  transferred_unit_names,
}

abbrev person : ℕ → ℕ → Person
person id phone = record { id = id; phone = phone; first_name = none; last_name = none }

abbrev people : List Person
people = person 21 901 ∷ person 22 902 ∷ person 23 903 ∷ person 31 904 ∷ []

abbrev request : MembershipRequest
request = record { id = 61; building_id = 5; person_id = 22; role = manager; status = pending }

abbrev or_nothing : Result Registry → Registry
or_nothing (ok s) = s
or_nothing (err _) = empty_registry

abbrev ids : ℕ → ℕ
ids n = n

abbrev founded : Registry
founded = create_building 5 71 31 manager ids 2 empty_registry

abbrev peopled : Registry
peopled = record founded { persons = people; requests = request ∷ [] }

abbrev join : ℕ → ℕ → ℕ
join first last = first

abbrev offered : Registry
offered = or_nothing (invite_owner_v2 join 5 1 41 42 901 peopled)

abbrev owned : Registry
owned = or_nothing (claim_ownership 5 1 21 72 offered)

abbrev lease : TenancyParams
lease = record {
  building_id = 5;
  unit_id = 1;
  tenant_id = 23;
  actor_id = 21;
  tenancy_id = 81;
  membership_id = 73;
}

abbrev let_out : Registry
let_out = or_nothing (create_tenancy lease owned)

abbrev with_notice : Registry
with_notice = or_nothing (give_tenancy_notice 5 81 23 let_out)

abbrev emptied : Registry
emptied = or_nothing (end_tenancy 5 81 31 with_notice)

abbrev sold : Registry
sold = or_nothing (transfer_ownership 5 1 902 21 emptied)

abbrev bought : Registry
bought = or_nothing (claim_ownership 5 1 22 74 sold)

abbrev refused : Registry
refused = (resolve_membership_request 5 61 true 75 bought).0

-- All that the runs below compute with.
trace : Unit {0}
unfolding find update create_building get_own_unit invite_owner_v2 fill_missing_person_name
    link_owner_to_unit claim_ownership create_tenancy get_managed_tenancy give_tenancy_notice
    end_tenancy transfer_ownership resolve_found resolve_membership_request
trace = tt

run_offered : Reaches empty_registry offered
unfolding trace
run_offered =
    next
      (next
        (next here (
          built 5 71 31 manager ids 2 (record {
            no_members = tt;
            new_member = tt;
            homes = (((λ e. ground arith), tt), (tt, tt));
          })))
        (others people (request ∷ [])))
      (invited_v2 join 5 1 41 42 901 refl)

run_owned : Reaches empty_registry owned
unfolding trace
run_owned = next run_offered (claimed 5 1 21 72 ((λ e. ground arith), tt) refl)

run_emptied : Reaches empty_registry emptied
unfolding trace
run_emptied =
    next
      (next (next run_owned (rented lease tt ((λ e. ground arith), ((λ e. ground arith), tt)) refl))
        (noticed 5 81 23 refl))
      (left 5 81 31 refl)

run_bought : Reaches empty_registry bought
unfolding trace
run_bought =
    next (next run_emptied (transferred 5 1 902 21 refl)) (
      claimed 5 1 22 74 ((λ e. ground arith), ((λ e. ground arith), ((λ e. ground arith), tt)))
        refl)

run_refused : Reaches empty_registry refused
unfolding trace
run_refused = next run_bought (
    requested 5 61 true 75 (
      (λ e. ground arith),
      ((λ e. ground arith), ((λ e. ground arith), ((λ e. ground arith), tt))),
    ))

history-InOrder_example : InOrder refused
history-InOrder_example = history-InOrder run_refused

abbrev first_unit : Home
first_unit = record {
  id = 1;
  building_id = 5;
  occupancy = vacant;
  owner_full_name = some 41;
  owner_first_name = some 41;
  owner_last_name = some 42;
  owner_phone = some 901;
}

claim_ownership-can_claim_example :
    returns (claim_ownership 5 1 21 72 offered)
    ≡ can_claim_ownership first_unit (person 21 901) offered
unfolding trace
claim_ownership-can_claim_example =
    claim_ownership-can_claim 5 1 21 72 offered {unit = first_unit} {caller = person 21 901} refl
      refl

refused_request_approved_example :
    (r : MembershipRequest) × (find MembershipRequest.id 61 refused.requests ≡ some r)
    × (r.status ≡ approved)
    × (refused.memberships ≡ bought.memberships)
unfolding trace
refused_request_approved_example = refused_request_approved 5 61 75 bought refl

approval_threshold_percent_example :
    meets_approval_threshold 1 3 30 ≡ leb 30 (compute_approval_percent 1 3)
approval_threshold_percent_example = approval_threshold_percent 1 3 30 (omega arith)

transferred_unit_names_example :
    (q : Person) × (find Person.id 22 bought.persons ≡ some q) × (q.first_name ≡ some 41)
unfolding trace
transferred_unit_names_example =
    transferred_unit_names 5 1 902 21 22 74 emptied {unit = first_unit} {p = person 22 902} refl
      refl refl refl refl

owned-InOrder : InOrder owned
owned-InOrder = history-InOrder run_owned

list_units-get_unit_example :
    get_unit_for_person 5 1 22 owned ≡ ok (shape_listed 5 22 owned first_unit)
unfolding trace
list_units-get_unit_example = list_units-get_unit 5 22 first_unit owned owned-InOrder refl

abbrev appointed : Registry
appointed = or_nothing (change_manager 5 21 false 76 owned)

-- What the appointment computes with.
appointment : Unit {0}
unfolding trace change_manager
appointment = tt

run_mandate-carry_out_example :
    managers_of appointed 5 ≡ carry_out (appoint 5 21) (managers_of owned) 5
unfolding appointment
run_mandate-carry_out_example =
    run_mandate-carry_out (appoint 5 21) false 76 owned {t = appointed} owned-InOrder refl 5
