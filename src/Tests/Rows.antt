-- ===== src/Tests/Rows.antt =====
-- Two rows of one run, and calls of the repository of internal/engine/a/repo/run_repo.go on them.
use sys_escape.Prelude.{◌≡◌, refl, [], ◌∷◌, none, some, ok, err, arith, Option, String}
use sys_escape.Prelude.Int.{pos}
use sys_escape.Store.Tables.{
  Run, active, RunAction, unique_violation, run_actions_seq_key, passes_check, request_taken,
}
use sys_escape.Store.RunRepo.{
  AppendActionInput, Generated, Schedule, db_error, get_action_by_client_request_id,
  accept_existing, insert_action, recover, append_new, append_action, is_dedup_violation,
  nullable_string_equal, quiet,
}
use sys_escape.Store.Numbering.{IsNumbered, append_action-IsNumbered}
use sys_escape.Store.Dedup.{Answers, append_action-Answers, append_action_again}
use sys_escape.Store.Races.{append_action-stale}

abbrev pub run_row : Run
run_row = record {
  id = 7;
  user_id = 1;
  room_version_id = 2;
  seed = pos 0;
  status = active;
  started_at = 0;
  completed_at = none;
}

abbrev pub generated : Generated
generated = record { id = 100; at = 5 }

abbrev pub tick_row : RunAction
tick_row = record {
  id = 100;
  run_id = 7;
  seq = 1;
  action_type = "tick";
  action_key = none;
  client_request_id = none;
  applied_at = 5;
}

abbrev pub cache_input : AppendActionInput
cache_input = record {
  run_id = 7;
  action_type = "player";
  action_key = some "enable_cache";
  client_request_id = some "r1";
}

abbrev pub cache_row : RunAction
cache_row = record {
  id = 100;
  run_id = 7;
  seq = 2;
  action_type = "player";
  action_key = some "enable_cache";
  client_request_id = some "r1";
  applied_at = 5;
}

-- All that a call of the repository computes with.
unfoldable pub repository : Unit {0}
unfolding append_action append_new insert_action recover accept_existing
    get_action_by_client_request_id is_dedup_violation nullable_string_equal passes_check
    request_taken
repository = tt

pub one_row-IsNumbered : IsNumbered (tick_row ∷ [])
one_row-IsNumbered run = ground arith

two_rows-IsNumbered : IsNumbered (tick_row ∷ cache_row ∷ [])
two_rows-IsNumbered run = ground arith

-- The INSERT of the second row.
insert_cache :
    append_action (quiet (tick_row ∷ [])) (run_row ∷ []) generated cache_input
    ≡ (ok cache_row, some cache_row)
unfolding repository
insert_cache = refl

append_action-IsNumbered_example : IsNumbered (tick_row ∷ cache_row ∷ [])
unfolding repository
append_action-IsNumbered_example =
    append_action-IsNumbered (quiet (tick_row ∷ [])) (run_row ∷ []) generated cache_input []
      cache_row refl one_row-IsNumbered refl

append_action_again_example :
    append_action (quiet (tick_row ∷ cache_row ∷ [])) [] generated cache_input
    ≡ (ok cache_row, none)
unfolding repository
append_action_again_example =
    append_action_again (quiet (tick_row ∷ [])) (quiet (tick_row ∷ cache_row ∷ [])) (run_row ∷ [])
      [] generated generated cache_input (tick_row ∷ []) [] cache_row "r1" refl refl refl refl

append_action-Answers_example : Answers cache_input cache_row
unfolding repository
append_action-Answers_example =
    append_action-Answers (quiet (tick_row ∷ [])) (run_row ∷ []) generated cache_input cache_row
      refl

-- The request is recorded by another transaction while this one waits for the lock.
abbrev late : Schedule
late = record {
  lookup_sees = ok (tick_row ∷ []);
  snapshot = tick_row ∷ [];
  insert_sees = ok (tick_row ∷ cache_row ∷ []);
  relookup_sees = ok (tick_row ∷ cache_row ∷ []);
}

unseen :
    (req : String)
    → ◌≡◌ {A = Option String} (some "r1") (some req)
    → get_action_by_client_request_id (tick_row ∷ []) 7 req ≡ none
unfolding repository
unseen req p = refl

append_action-stale_example :
    append_action late (run_row ∷ []) generated cache_input
    ≡ (err (db_error (unique_violation run_actions_seq_key)), none)
unfolding repository
append_action-stale_example =
    append_action-stale late (run_row ∷ []) generated cache_input (tick_row ∷ []) (cache_row ∷ [])
      [] cache_row cache_row refl unseen refl two_rows-IsNumbered refl refl
