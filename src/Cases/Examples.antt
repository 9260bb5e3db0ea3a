-- ===== src/Cases/Examples.antt =====
-- Runs of the operations on cases: two cases of building 5, one of them merged into the other.
use vielhome_backend.Base.{ℕ, ◌≡◌, refl, true, false, none, some, [], ◌∷◌, filter, arith}
use vielhome_backend.Base.Result.{Result, ok, err, returns}
use vielhome_backend.Base.Table.{find, update}
use vielhome_backend.Building.Schema.{manager, tenant}
use vielhome_backend.Cases.Defs.{
  Case, CaseStore, CreateParams, closed, open_case, completed, restricted, urgent, find_case,
  create_case, is_resolved, get_case_or_throw, assert_visible,
}
use vielhome_backend.Cases.Operations.{
  AssignParams, assign_case, MessageParams, add_message, check_merge, write_merge, merge_case,
  resolve_case, close_case,
}
use vielhome_backend.Cases.Life.{
  Reaches, here, next, created, assigned, messaged, merged, was_resolved, was_closed, empty_cases,
  CasesSound, history-CasesSound,
}
use vielhome_backend.Cases.Ends.{case_can_close}
use vielhome_backend.Cases.Merges.{Leads, Rooted, history-Rooted, merge_race}
use vielhome_backend.Cases.Access.{
  get_case, list_cases, list_messages, no_filter, list_cases-get_case, internal_note_unseen,
}

abbrev new : ℕ → CreateParams
new id = record {
  case_id = id;
  building_id = 5;
  building_found = true;
  unit_id = some 11;
  unit_building_id = some 5;
  priority = some urgent;
  visibility = none;
  is_against_manager = none;
  actor_id = 21;
}

abbrev or_empty : Result CaseStore → CaseStore
or_empty (ok s) = s
or_empty (err _) = empty_cases

abbrev one : CaseStore
one = or_empty (create_case (new 1) empty_cases)

abbrev two : CaseStore
two = or_empty (create_case (new 2) one)

abbrev to_manager : AssignParams
to_manager = record {
  building_id = 5;
  case_id = 1;
  actor_id = 31;
  assigned_to_id = 31;
  assignee_roles = manager ∷ [];
}

abbrev in_hand : CaseStore
in_hand = or_empty (assign_case to_manager two)

abbrev note : MessageParams
note = record {
  building_id = 5;
  case_id = 1;
  actor_id = 31;
  roles = manager ∷ [];
  is_internal = true;
}

abbrev noted : CaseStore
noted = or_empty (add_message note in_hand)

abbrev joined : CaseStore
joined = or_empty (merge_case 5 2 1 100 noted)

abbrev finished : CaseStore
finished = or_empty (resolve_case 5 1 completed joined)

abbrev shut : CaseStore
shut = or_empty (close_case 5 1 200 finished)

-- All that the runs below compute with.
trace : Unit {0}
unfolding find update get_case_or_throw assert_visible create_case assign_case add_message
    check_merge write_merge merge_case resolve_case close_case
trace = tt

run : Reaches empty_cases shut
unfolding trace
run =
    next
      (next
        (next
          (next
            (next
              (next (next here (created (new 1) tt refl))
                (created (new 2) ((λ e. ground arith), tt) refl))
              (assigned to_manager refl))
            (messaged note refl))
          (merged 5 2 1 100 refl))
        (was_resolved 5 1 completed refl))
      (was_closed 5 1 200 refl)

history-CasesSound_example : CasesSound shut
history-CasesSound_example = history-CasesSound run

history-Rooted_example : Rooted shut
history-Rooted_example = history-Rooted run

abbrev the_case : Case
the_case = record {
  id = 1;
  building_id = 5;
  unit_id = some 11;
  status = open_case;
  priority = urgent;
  visibility = restricted;
  is_against_manager = false;
  created_by_id = 21;
  assignee_id = none;
  resolution_code = none;
  merged_into_id = none;
  closed_at = none;
}

case_can_close_example :
    (t : CaseStore) × (d : Case) × Reaches two t
    × (find_case 1 t ≡ some d)
    × (d.status ≡ closed)
    × (d.closed_at ≡ some 300)
    × (is_resolved the_case.status ≡ false → d.resolution_code ≡ some completed)
unfolding trace
case_can_close_example = case_can_close 5 1 300 completed two {c = the_case} refl refl refl

merge_race_example :
    (t u : CaseStore) × (write_merge 1 2 100 open_case two ≡ ok t)
    × (write_merge 2 1 101 open_case t ≡ ok u)
    × (Leads u 1 → ⊥)
unfolding trace
merge_race_example = merge_race 5 5 1 2 100 101 two refl refl

list_cases-get_case_example :
    list_cases 5 no_filter 22 (tenant ∷ []) two
    ≡ filter (λ (c : Case). returns (get_case 5 c.id 22 (tenant ∷ []) two)) two.cases
unfolding trace
list_cases-get_case_example =
    list_cases-get_case 5 22 (tenant ∷ []) two (((λ e. ground arith), tt), (tt, tt))

internal_note_unseen_example :
    list_messages 5 1 21 (tenant ∷ []) noted ≡ list_messages 5 1 21 (tenant ∷ []) in_hand
unfolding trace
internal_note_unseen_example = internal_note_unseen note in_hand 5 1 21 (tenant ∷ []) refl refl refl
