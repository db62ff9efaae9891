-- ===== src/Store/Tables.antt =====
-- pkg/models/run.go, and the tables `runs` and `run_actions` of migrations/0005_runs_actions.up.sql.
-- A uuid is its 128-bit number, `uuid.Nil` is 0, and a time is a number of nanoseconds. A table is the
-- list of its rows in the order of their commits.
use mathlib.Core.Bool.{◌&&◌, ◌||◌, not}
use Prim.Native.Nat.{max}
use sys_escape.Prelude.{
  ℕ, Bool, false, List, [], ◌∷◌, Option, none, some, String, ◌==◌, is_some, select, find_first,
}
use sys_escape.Prelude.Int.{ℤ}
use sys_escape.Prelude.Text.{str_eq}

pub data RunStatus : Type 0 where
  active completed abandoned : RunStatus

pub record Run : Type 0 where
  pub id : ℕ
  pub user_id : ℕ
  pub room_version_id : ℕ
  pub seed : ℤ
  pub status : RunStatus
  pub started_at : ℕ
  pub completed_at : Option ℕ

abbrev pub run_action_type_player : String
run_action_type_player = "player"

abbrev pub run_action_type_tick : String
run_action_type_tick = "tick"

pub record RunAction : Type 0 where
  pub id : ℕ
  pub run_id : ℕ
  pub seq : ℕ
  pub action_type : String
  pub action_key : Option String
  pub client_request_id : Option String
  pub applied_at : ℕ

abbrev pub idx_run_actions_dedup : String
idx_run_actions_dedup = "idx_run_actions_dedup"

-- Postgres's own name for `UNIQUE (run_id, seq)`.
abbrev pub run_actions_seq_key : String
run_actions_seq_key = "run_actions_run_id_seq_key"

-- What the driver reports: no row, a violated constraint (code 23505 with the constraint's name, or
-- 23514), or any other failure.
pub data DbError : Type 0 where
  no_rows check_violation other_failure : DbError
  unique_violation : String → DbError

abbrev pub same_request : ℕ → String → RunAction → Bool
same_request run req a =
    a.run_id == run && elim a.client_request_id [ none ↦ false | some r ↦ str_eq r req ]

-- The rows of one run.
abbrev pub rows_of : ℕ → List RunAction → List RunAction
rows_of run = select λ a. a.run_id == run

abbrev pub max_seq : List RunAction → ℕ
max_seq [] = 0
max_seq (a ∷ rest) = max a.seq (max_seq rest)

abbrev pub has_seq : ℕ → List RunAction → Bool
has_seq n [] = false
has_seq n (a ∷ rest) = a.seq == n || has_seq n rest

abbrev pub has_run : ℕ → List Run → Bool
has_run id [] = false
has_run id (r ∷ rs) = r.id == id || has_run id rs

-- The CHECK of `run_actions`: a player's action has both texts, a tick has neither.
unfoldable pub passes_check : RunAction → Bool
passes_check a =
    str_eq a.action_type run_action_type_player
      && is_some a.action_key
      && is_some a.client_request_id
    || str_eq a.action_type run_action_type_tick
      && not (is_some a.action_key)
      && not (is_some a.client_request_id)

-- A row of `idx_run_actions_dedup`, which leaves out rows with no request id.
unfoldable pub request_taken : RunAction → List RunAction → Bool
request_taken row t = elim row.client_request_id [
  | none ↦ false
  | some req ↦ is_some (find_first (same_request row.run_id req) t)
]
