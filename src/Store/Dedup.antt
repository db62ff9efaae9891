-- ===== src/Store/Dedup.antt =====
-- A client request id is used once per run (`AppendAction` of internal/engine/a/repo/run_repo.go).
use sys_escape.Prelude.{
  ◌∙◌, ℕ, ◌≡◌, refl, inl, inr, true, false, List, ◌∷◌, ◌++◌, Option, none, some, String, arith, ok,
  find_first, find_first-ok, find_first-append_right, Option-cases, Result-cases,
}
use sys_escape.Prelude.Text.{eq_iff, eq_refl}
use sys_escape.Store.Tables.{Run, DbError, RunAction, same_request, request_taken}
use sys_escape.Store.RunRepo.{
  AppendActionInput, Generated, Schedule, get_action_by_client_request_id, nullable_string_equal,
  accept_existing, insert_action, recover, append_new, append_action,
}

nullable_string_equal_refl : (o : Option String) → nullable_string_equal o o ≡ true
unfolding nullable_string_equal
nullable_string_equal_refl none = refl
nullable_string_equal_refl (some s) = eq_refl s

pub nullable_string_equal_iff : (a b : Option String) → nullable_string_equal a b ≡ true → a ≡ b
unfolding nullable_string_equal
nullable_string_equal_iff none none h = refl
nullable_string_equal_iff (some a) (some b) h = ground (arith, eq_iff a b)
nullable_string_equal_iff none (some b) h = cc
nullable_string_equal_iff (some a) none h = cc

-- The row says what the input asks for.
pub record Answers (input : AppendActionInput) (row : RunAction) : Type 0 where
  pub run_id : row.run_id ≡ input.run_id
  pub action_type : row.action_type ≡ input.action_type
  pub action_key : row.action_key ≡ input.action_key
  pub client_request_id : row.client_request_id ≡ input.client_request_id

pub same_request→ :
    (run : ℕ) (req : String) (a : RunAction)
    → same_request run req a ≡ true
    → (a.run_id ≡ run) × (a.client_request_id ≡ some req)
same_request→ run req a h = request_of a.client_request_id refl
  where
    request_of :
        (o : Option String)
        → a.client_request_id ≡ o
        → (a.run_id ≡ run) × (a.client_request_id ≡ some req)
    request_of none e = absurd (ground arith)
    request_of (some r) e = ground (arith, eq_iff r req)

pub get_action-ok :
    (t : List RunAction) (run : ℕ) (req : String) (a : RunAction)
    → get_action_by_client_request_id t run req ≡ some a
    → (a.run_id ≡ run) × (a.client_request_id ≡ some req)
unfolding get_action_by_client_request_id
get_action-ok t run req a h = same_request→ run req a (find_first-ok (same_request run req) t a h)

accept_existing-Answers :
    (existing row : RunAction) (input : AppendActionInput) (req : String)
    → input.client_request_id ≡ some req
    → (existing.run_id ≡ input.run_id) × (existing.client_request_id ≡ some req)
    → accept_existing existing input ≡ ok row
    → Answers input row
unfolding accept_existing
accept_existing-Answers existing row input req p q h = ground (
  arith,
  eq_iff existing.action_type input.action_type,
  nullable_string_equal_iff existing.action_key input.action_key,
)

recover-Answers :
    (s : Schedule) (input : AppendActionInput) (e : DbError) (o : Option String) (row : RunAction)
    → input.client_request_id ≡ o
    → recover s input e o ≡ ok row
    → Answers input row
unfolding recover
recover-Answers s input e none row p h = cc
recover-Answers s input e (some req) row p h = elim (Result-cases s.relookup_sees) [
  | inr (failure, q) ↦ absurd (ground arith)
  | inl (t, q) ↦ elim (Option-cases (get_action_by_client_request_id t input.run_id req)) [
    | inl missing ↦ absurd (ground arith)
    | inr (a, found) ↦
        accept_existing-Answers a row input req p (get_action-ok t input.run_id req a found)
          (ground arith)
  ]
]

pub insert_action-Answers :
    (runs : List Run) (snapshot current : List RunAction) (gen : Generated)
    (input : AppendActionInput) (row : RunAction)
    → insert_action runs snapshot current gen input ≡ ok row
    → Answers input row × (request_taken row current ≡ false)
unfolding insert_action
insert_action-Answers runs snapshot current gen input row h = ground arith

append_new-Answers :
    (s : Schedule) (runs : List Run) (gen : Generated) (input : AppendActionInput) (row : RunAction)
    → (append_new s runs gen input).0 ≡ ok row
    → Answers input row
unfolding append_new
append_new-Answers s runs gen input row h = elim (Result-cases s.insert_sees) [
  | inr (e, q) ↦ recover-Answers s input e input.client_request_id row refl (ground arith)
  | inl (t, q) ↦ elim (Result-cases (insert_action runs s.snapshot t gen input)) [
    | inr (e, r) ↦ recover-Answers s input e input.client_request_id row refl (ground arith)
    | inl (a, r) ↦ (insert_action-Answers runs s.snapshot t gen input row (ground arith)).0
  ]
]

-- Whenever `AppendAction` returns a row without an error, on any of its branches and whatever other
-- transactions do, the row is of the input's run and has its action type, key and request id.
pub append_action-Answers :
    (s : Schedule) (runs : List Run) (gen : Generated) (input : AppendActionInput) (row : RunAction)
    → (append_action s runs gen input).0 ≡ ok row
    → Answers input row
unfolding append_action
append_action-Answers s runs gen input row h = elim (Option-cases input.client_request_id) [
  | inl p ↦ append_new-Answers s runs gen input row (ground arith)
  | inr (req, p) ↦ elim (Result-cases s.lookup_sees) [
    | inr (e, q) ↦ absurd (ground arith)
    | inl (t, q) ↦ elim (Option-cases (get_action_by_client_request_id t input.run_id req)) [
      | inl missing ↦ append_new-Answers s runs gen input row (ground arith)
      | inr (a, found) ↦
          accept_existing-Answers a row input req p (get_action-ok t input.run_id req a found)
            (ground arith)
    ]
  ]
]

same_request_of :
    (run : ℕ) (req : String) (a : RunAction)
    → a.run_id ≡ run
    → a.client_request_id ≡ some req
    → same_request run req a ≡ true
same_request_of run req a p q = ground (arith, eq_refl req)

-- What it means that the dedup index lets a row in.
request_free :
    (row : RunAction) (t : List RunAction) (req : String)
    → row.client_request_id ≡ some req
    → request_taken row t ≡ false
    → find_first (same_request row.run_id req) t ≡ none
unfolding request_taken
request_free row t req p h = ground arith

append_action-inserted :
    (s : Schedule) (runs : List Run) (gen : Generated) (input : AppendActionInput)
    (current : List RunAction) (row : RunAction)
    → s.insert_sees ≡ ok current
    → (append_action s runs gen input).1 ≡ some row
    → Answers input row
      × (request_taken row current ≡ false)
      × ((append_action s runs gen input).0 ≡ ok row)
unfolding append_action append_new
append_action-inserted s runs gen input current row seen h =
    let inserted : insert_action runs s.snapshot current gen input ≡ ok row = ground arith in
    let (answers, free) = insert_action-Answers runs s.snapshot current gen input row inserted in
    (answers, free, ground arith)

accept_existing_self :
    (row : RunAction) (input : AppendActionInput)
    → Answers input row
    → accept_existing row input ≡ ok row
unfolding accept_existing
accept_existing_self row input answers =
    ground
      (arith, eq_iff row.action_type input.action_type, nullable_string_equal_refl row.action_key)

get_action-appended :
    (t others : List RunAction) (row : RunAction) (req : String)
    → row.client_request_id ≡ some req
    → request_taken row t ≡ false
    → get_action_by_client_request_id (t ++ row ∷ others) row.run_id req ≡ some row
unfolding get_action_by_client_request_id
get_action-appended t others row req p free =
    find_first-append_right (same_request row.run_id req) t (row ∷ others)
      (request_free row t req p free)
    ∙ ground (arith, same_request_of row.run_id req row refl p)

-- A request that was recorded is not recorded again: once a call has added a row for a client
-- request id, a later call with the same input that finds that row, after any further rows, returns the
-- same row and adds nothing, whatever happens after its lookup.
pub append_action_again :
    (s later : Schedule) (runs runs' : List Run) (gen gen' : Generated) (input : AppendActionInput)
    (current others : List RunAction) (row : RunAction) (req : String)
    → input.client_request_id ≡ some req
    → s.insert_sees ≡ ok current
    → (append_action s runs gen input).1 ≡ some row
    → later.lookup_sees ≡ ok (current ++ row ∷ others)
    → append_action later runs' gen' input ≡ (ok row, none)
unfolding append_action
append_action_again s later runs runs' gen gen' input current others row req p seen h sees =
    let (answers, free, _) = append_action-inserted s runs gen input current row seen h in
    let request : row.client_request_id ≡ some req = answers.client_request_id ∙ p in
    let found = get_action-appended current others row req request free in
    ground (arith, found, accept_existing_self row input answers, answers.run_id)
