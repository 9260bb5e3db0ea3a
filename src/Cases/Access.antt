-- ===== src/Cases/Access.antt =====
-- What a person sees of the cases (06.07 Rules 016 and 021): getCase, listCases, listMessages and
-- listAssignments of cases.service.ts with the `where` of case.repository.ts. Rows come in the order of the
-- tables; pages are in Common/Pagination.
use vielhome_backend.Base.{
  ℕ, ap, ◌≡◌, refl, Bool, true, false, ◌&&◌, ◌||◌, not, Option, none, some, List, [], ◌∷◌, arith,
  ◌==◌, same, filter, All, All-map,
}
use vielhome_backend.Base.Result.{Result, ok, returns, ◌>>=◌, ◌>>◌}
use vielhome_backend.Base.Table.{find, Keyed, Unused}
use vielhome_backend.Base.Lookup.{find-cons_self}
use vielhome_backend.Building.Schema.{MembershipRole}
use vielhome_backend.Cases.Defs.{
  CaseStatus, CasePriority, low, normal, high, urgent, Case, CaseStore, Message, Assignment,
  find_case, get_case_or_throw, assert_visible, is_privileged, is_public, same_status,
}
use vielhome_backend.Cases.Operations.{MessageParams, add_message}
use vielhome_backend.Cases.Life.{get_case_or_throw-eq-ok}

unfoldable pub get_case : ℕ → ℕ → ℕ → List MembershipRole → CaseStore → Result Case
get_case building_id case_id actor_id roles s = do
  found ← get_case_or_throw building_id case_id s
  assert_visible found actor_id (is_privileged roles)
  ok found

-- The filters of `listCases` that this model has a column for.
pub record CaseFilter : Type 0 where
  pub status : Option CaseStatus
  pub priority : Option CasePriority
  pub assignee_id : Option ℕ

abbrev pub no_filter : CaseFilter
no_filter = record { status = none; priority = none; assignee_id = none }

abbrev pub has_status : Option CaseStatus → CaseStatus → Bool
has_status none actual = true
has_status (some wanted) actual = same_status actual wanted

abbrev pub same_priority : CasePriority → CasePriority → Bool
same_priority low low = true
same_priority normal normal = true
same_priority high high = true
same_priority urgent urgent = true
same_priority _ _ = false

abbrev pub has_priority : Option CasePriority → CasePriority → Bool
has_priority none actual = true
has_priority (some wanted) actual = same_priority actual wanted

abbrev pub has_assignee : Option ℕ → Option ℕ → Bool
has_assignee none actual = true
has_assignee (some wanted) actual = same actual (some wanted)

-- The `OR` that a person who is not privileged gets.
abbrev pub own_or_public : ℕ → Case → Bool
own_or_public actor_id c =
    is_public c.visibility || c.created_by_id == actor_id || same c.assignee_id (some actor_id)

abbrev pub case_where : ℕ → CaseFilter → ℕ → Bool → Case → Bool
case_where building_id wanted actor_id privileged c =
    c.building_id == building_id
    && has_status wanted.status c.status
    && has_priority wanted.priority c.priority
    && has_assignee wanted.assignee_id c.assignee_id
    && (privileged || own_or_public actor_id c)

unfoldable pub list_cases : ℕ → CaseFilter → ℕ → List MembershipRole → CaseStore → List Case
list_cases building_id wanted actor_id roles s =
    filter (case_where building_id wanted actor_id (is_privileged roles)) s.cases

abbrev pub message_where : ℕ → Bool → Message → Bool
message_where case_id privileged m = m.case_id == case_id && (privileged || not m.is_internal)

unfoldable pub list_messages : ℕ → ℕ → ℕ → List MembershipRole → CaseStore → Result (List Message)
list_messages building_id case_id actor_id roles s = do
  found ← get_case_or_throw building_id case_id s
  assert_visible found actor_id (is_privileged roles)
  ok (filter (message_where case_id (is_privileged roles)) s.messages)

unfoldable pub list_assignments :
    ℕ → ℕ → ℕ → List MembershipRole → CaseStore → Result (List Assignment)
list_assignments building_id case_id actor_id roles s = do
  seen ← get_case building_id case_id actor_id roles s
  ok (filter (λ (a : Assignment). a.case_id == case_id) s.assignments)

filter_agree :
    {A : Type 0} (p q : A → Bool) (xs : List A)
    → All (λ x. p x ≡ q x) xs
    → filter p xs ≡ filter q xs
filter_agree p q [] h = refl
filter_agree p q (x ∷ xs) (e, h) = rw (e, filter_agree p q xs h) refl

-- Reading a row by its own id finds it, when no two rows have one id.
find_own_later :
    (x : Case) (xs ys : List Case)
    → Unused Case.id x.id ys
    → All (λ c. find Case.id c.id xs ≡ some c) ys
    → All (λ c. find Case.id c.id (x ∷ xs) ≡ some c) ys
unfolding find
find_own_later x xs [] fresh h = tt
find_own_later x xs (y ∷ ys) (apart, fresh) (found, h) =
    let eq : x.id == y.id ≡ false = ground arith in (rw eq found, find_own_later x xs ys fresh h)

find_own : (xs : List Case) → Keyed Case.id xs → All (λ c. find Case.id c.id xs ≡ some c) xs
find_own [] h = tt
find_own (x ∷ xs) (fresh, h) =
    (find-cons_self Case.id x xs, find_own_later x xs xs fresh (find_own xs h))

case_where_get :
    (b actor : ℕ) (roles : List MembershipRole) (s : CaseStore) (c : Case)
    → find_case c.id s ≡ some c
    → case_where b no_filter actor (is_privileged roles) c ≡ returns (get_case b c.id actor roles s)
unfolding get_case get_case_or_throw assert_visible
case_where_get b actor roles s c found = rw found (ground arith)

-- What a person is listed, with no filter set, is exactly the cases that the same person may open: in a
-- table where no two cases have one id, the list is the rows whose id getCase returns.
pub list_cases-get_case :
    (b actor : ℕ) (roles : List MembershipRole) (s : CaseStore)
    → Keyed Case.id s.cases
    → list_cases b no_filter actor roles s
      ≡ filter (λ (c : Case). returns (get_case b c.id actor roles s)) s.cases
unfolding list_cases
list_cases-get_case b actor roles s h = filter_agree _ _ s.cases (
    All-map (λ c. find Case.id c.id s.cases ≡ some c) _ s.cases (case_where_get b actor roles s)
      (find_own s.cases h))

and_false : (b : Bool) → (b && false) ≡ false
and_false true = refl
and_false false = refl

hidden_note :
    (id : ℕ) (privileged : Bool) (m : Message) (ms : List Message)
    → m.is_internal ≡ true
    → privileged ≡ false
    → filter (message_where id privileged) (m ∷ ms) ≡ filter (message_where id privileged) ms
hidden_note id true m ms is_note outsider = cc
hidden_note id false m ms is_note outsider = rw is_note (rw (and_false (m.case_id == id)) refl)

-- A person without a privileged role lists the same messages of every case before and after somebody adds
-- an internal note to a case.
pub internal_note_unseen :
    (p : MessageParams) (s : CaseStore) {t : CaseStore} (b id actor : ℕ)
    (roles : List MembershipRole)
    → add_message p s ≡ ok t
    → p.is_internal ≡ true
    → is_privileged roles ≡ false
    → list_messages b id actor roles t ≡ list_messages b id actor roles s
unfolding add_message list_messages get_case_or_throw assert_visible
internal_note_unseen p s {t} b id actor roles e is_note outsider =
    let (c, found, _, e1) = get_case_or_throw-eq-ok p.building_id p.case_id s _ e in
    let note : Message = record {
      case_id = p.case_id;
      sender_id = p.actor_id;
      is_internal = p.is_internal;
    } in
    let done : t ≡ record s { messages = note ∷ s.messages } = ground arith in
    rw done (
      ap
        (λ ms.
          get_case_or_throw b id s >>= λ c. assert_visible c actor (is_privileged roles) >> ok ms)
        (hidden_note id (is_privileged roles) note s.messages is_note outsider))
