-- ===== src/Store/RunRepo.antt =====
-- internal/engine/a/repo/run_repo.go. Each SQL statement is a function of the table that it sees.
-- Other transactions run between the statements of one call, so `AppendAction` takes a schedule: the
-- table that each of its statements sees, or the driver's error there.
use mathlib.Core.Bool.{◌&&◌, not}
use sys_escape.Prelude.{
  ℕ, ◌+◌, Bool, true, false, List, [], ◌∷◌, ◌++◌, Option, none, some, String, ◌==◌, leb,
  if◌then◌else◌, find_first, Result, ok, err,
}
use sys_escape.Prelude.Int.{ℤ}
use sys_escape.Prelude.Text.{str_eq}
use sys_escape.Store.Tables.{
  Run, active, RunAction, DbError, no_rows, check_violation, unique_violation,
  idx_run_actions_dedup, run_actions_seq_key, same_request, rows_of, max_seq, has_seq, has_run,
  passes_check, request_taken,
}

pub data RepoError : Type 0 where
  action_conflict : RepoError
  db_error : DbError → RepoError

pub record AppendActionInput : Type 0 where
  pub run_id : ℕ
  pub action_type : String
  pub action_key : Option String
  pub client_request_id : Option String

-- What the database generates for a row: `gen_random_uuid()` and `now()`.
pub record Generated : Type 0 where
  pub id : ℕ
  pub at : ℕ

-- The rows of the foreign keys are there. The result is the row that the statement returns.
unfoldable pub create_run : List Run → Generated → ℕ → ℕ → ℤ → Run × List Run
create_run runs gen user_id room_version_id seed = (run, runs ++ run ∷ [])
  where
    run : Run
    run = record {
      id = gen.id;
      user_id = user_id;
      room_version_id = room_version_id;
      seed = seed;
      status = active;
      started_at = gen.at;
      completed_at = none;
    }

-- `none` is the nil run of `pgx.ErrNoRows`.
unfoldable pub get_run_by_id : List Run → ℕ → Option Run
get_run_by_id runs run_id = find_first (λ r. r.id == run_id) runs

unfoldable pub get_action_by_client_request_id : List RunAction → ℕ → String → Option RunAction
get_action_by_client_request_id t run_id req = find_first (same_request run_id req) t

unfoldable pub nullable_string_equal : Option String → Option String → Bool
nullable_string_equal none none = true
nullable_string_equal (some a) (some b) = str_eq a b
nullable_string_equal _ _ = false

-- The INSERT: `snapshot` is what the statement reads `MAX(seq)` from, `current` what the unique
-- indexes hold when the row goes in, after the wait for the row lock on the run.
unfoldable pub insert_action :
    List Run
    → List RunAction
    → List RunAction
    → Generated
    → AppendActionInput
    → Result DbError RunAction
insert_action runs snapshot current gen input =
    if not (has_run input.run_id runs)
    then err no_rows
    else if not (passes_check row)
    then err check_violation
    else if has_seq row.seq (rows_of input.run_id current)
    then err (unique_violation run_actions_seq_key)
    else if request_taken row current
    then err (unique_violation idx_run_actions_dedup)
    else ok row
  where
    row : RunAction
    row = record {
      id = gen.id;
      run_id = input.run_id;
      seq = max_seq (rows_of input.run_id snapshot) + 1;
      action_type = input.action_type;
      action_key = input.action_key;
      client_request_id = input.client_request_id;
      applied_at = gen.at;
    }

pub record Schedule : Type 0 where
  pub lookup_sees : Result DbError (List RunAction)
  pub snapshot : List RunAction
  pub insert_sees : Result DbError (List RunAction)
  pub relookup_sees : Result DbError (List RunAction)

-- The row of an earlier request counts as this one's if it says the same.
unfoldable pub accept_existing : RunAction → AppendActionInput → Result RepoError RunAction
accept_existing existing input =
    if str_eq existing.action_type input.action_type
      && nullable_string_equal existing.action_key input.action_key
    then ok existing
    else err action_conflict

unfoldable pub is_dedup_violation : DbError → Bool
is_dedup_violation (unique_violation name) = str_eq name idx_run_actions_dedup
is_dedup_violation _ = false

-- After a failed INSERT: only a violation of the dedup index is looked up again.
unfoldable pub recover :
    Schedule → AppendActionInput → DbError → Option String → Result RepoError RunAction
recover s input e none = err (db_error e)
recover s input e (some req) =
    if not (is_dedup_violation e) then err (db_error e) else elim s.relookup_sees [
      | err failure ↦ err (db_error failure)
      | ok t ↦ elim (get_action_by_client_request_id t input.run_id req) [
        | none ↦ err (db_error e)
        | some existing ↦ accept_existing existing input
      ]
    ]

-- The result, and the row that went into the table, if one did.
unfoldable pub append_new :
    Schedule
    → List Run
    → Generated
    → AppendActionInput
    → Result RepoError RunAction × Option RunAction
append_new s runs gen input = elim s.insert_sees [
  | err e ↦ (recover s input e input.client_request_id, none)
  | ok current ↦ elim (insert_action runs s.snapshot current gen input) [
    | err e ↦ (recover s input e input.client_request_id, none)
    | ok row ↦ (ok row, some row)
  ]
]

unfoldable pub append_action :
    Schedule
    → List Run
    → Generated
    → AppendActionInput
    → Result RepoError RunAction × Option RunAction
append_action s runs gen input = elim input.client_request_id [
  | none ↦ append_new s runs gen input
  | some req ↦ elim s.lookup_sees [
    | err e ↦ (err (db_error e), none)
    | ok t ↦ elim (get_action_by_client_request_id t input.run_id req) [
      | none ↦ append_new s runs gen input
      | some existing ↦ (accept_existing existing input, none)
    ]
  ]
]

-- No other transaction, and no failure of the connection.
abbrev pub quiet : List RunAction → Schedule
quiet t = record { lookup_sees = ok t; snapshot = t; insert_sees = ok t; relookup_sees = ok t }

abbrev pub committed : List RunAction → Option RunAction → List RunAction
committed t none = t
committed t (some row) = t ++ row ∷ []

-- A call with no other transaction near: its result, and the table after it.
unfoldable pub append_alone :
    List Run
    → List RunAction
    → Generated
    → AppendActionInput
    → Result RepoError RunAction × List RunAction
append_alone runs t gen input =
    let (r, row) = append_action (quiet t) runs gen input in (r, committed t row)

-- `ORDER BY seq ASC`.
unfoldable pub insert_by_seq : RunAction → List RunAction → List RunAction
insert_by_seq a [] = a ∷ []
insert_by_seq a (b ∷ bs) =
    let rest = insert_by_seq a bs in if leb a.seq b.seq then a ∷ b ∷ bs else b ∷ rest

unfoldable pub order_by_seq : List RunAction → List RunAction
unfolding insert_by_seq
order_by_seq [] = []
order_by_seq (a ∷ rest) = insert_by_seq a (order_by_seq rest)

unfoldable pub list_actions : List RunAction → ℕ → List RunAction
list_actions t run_id = order_by_seq (rows_of run_id t)
