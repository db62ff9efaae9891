-- ===== src/Tests/Runs.antt =====
-- A run of the room of the simulator's tests, loaded, ticked and played (cmd/engine-a/runtime.go).
use sys_escape.Prelude.{◌≡◌, refl, false, [], ◌∷◌, none, some, ok, err, arith}
use sys_escape.Prelude.Int.{ℤ, pos}
use sys_escape.Prelude.Assoc.{lookup}
use sys_escape.Sim.Types.{unknown_action}
use sys_escape.Sim.Exact.{exact}
use sys_escape.Store.Tables.{RunAction, rows_of}
use sys_escape.Store.RunRepo.{list_actions, order_by_seq, quiet, committed}
use sys_escape.Store.Numbering.{IsNumbered}
use sys_escape.Runtime.State.{
  RunState, sim_error, to_log_entry, last_seq_of, first_actions, new_run_state, restore, open_state,
  timed_out,
}
use sys_escape.Ws.Messages.{ApplyActionInput}
use sys_escape.Runtime.Calls.{run_apply_action, tick_round}
use sys_escape.Runtime.Synced.{Synced}
use sys_escape.Runtime.Keeps.{SameRun, tick_round-Synced}
use sys_escape.Runtime.Actions.{run_apply_action-Synced}
use sys_escape.Runtime.Restart.{Started, open_state-Synced, open_state_again}
use sys_escape.Runtime.Poison.{unknown_action_ends_run}
use sys_escape.Tests.Simulator.{room, after_tick, simulator}
use sys_escape.Tests.Rows.{run_row, generated, tick_row, cache_row, repository}

abbrev pub loaded : RunState ℤ
loaded = record {
  run_id = 7;
  engine = after_tick;
  last_seq = 1;
  tick_interval = 250000000;
  duration_ticks = pos 10;
  next_tick_at = none;
  terminal = false;
  sent_win = false;
  tick_started = false;
  delta_subs = [];
  win_subs = [];
}

-- All that a call of the runtime computes with.
unfoldable pub runtime : Unit {0}
unfolding simulator repository list_actions order_by_seq open_state restore new_run_state
    first_actions last_seq_of to_log_entry timed_out
runtime = tt

pub empty-IsNumbered : IsNumbered []
empty-IsNumbered run = tt

first_load : open_state (quiet []) (run_row ∷ []) generated 7 room [] ≡ (ok loaded, some tick_row)
unfolding runtime
first_load = refl

open_state-Synced_example :
    Synced room (tick_row ∷ []) loaded × Started (rows_of 7 []) 7 (some tick_row)
open_state-Synced_example =
    open_state-Synced room [] (run_row ∷ []) generated 7 loaded (some tick_row) empty-IsNumbered
      first_load

loaded-Synced : Synced room (tick_row ∷ []) loaded
loaded-Synced =
    (open_state-Synced room [] (run_row ∷ []) generated 7 loaded (some tick_row) empty-IsNumbered
      first_load).0

open_state_again_example :
    (s' : RunState ℤ) × (open_state
        (quiet (tick_row ∷ []))
        (run_row ∷ [])
        generated
        7
        room
        (tick_row ∷ [])
      ≡ (ok s', none))
    × SameRun loaded s'
    × (s'.terminal ≡ false)
open_state_again_example =
    open_state_again room (tick_row ∷ []) (run_row ∷ []) generated loaded loaded-Synced
      (omega arith)

tick_round-Synced_example :
    let o = tick_round (quiet (tick_row ∷ [])) (run_row ∷ []) generated 9 loaded in
    Synced room (committed (tick_row ∷ []) o.row) o.state
tick_round-Synced_example =
    tick_round-Synced room (tick_row ∷ []) (run_row ∷ []) generated 9 loaded loaded-Synced

abbrev cache_action : ApplyActionInput
cache_action = record {
  action_key = "enable_cache";
  client_request_id = "r1";
  expected_seq = pos 0;
}

run_apply_action-Synced_example :
    let o =
      run_apply_action (quiet (tick_row ∷ [])) (run_row ∷ []) generated 9 loaded cache_action in
    Synced room (committed (tick_row ∷ []) o.row) o.state
unfolding lookup
run_apply_action-Synced_example =
    run_apply_action-Synced room (tick_row ∷ []) (run_row ∷ []) generated 9 loaded cache_action
      loaded-Synced refl

abbrev wrong_action : ApplyActionInput
wrong_action = record { action_key = "reboot"; client_request_id = "r1"; expected_seq = pos 0 }

abbrev wrong_row : RunAction
wrong_row = record cache_row { action_key = some "reboot" }

wrong_row-IsNumbered : IsNumbered (tick_row ∷ wrong_row ∷ [])
wrong_row-IsNumbered run = ground arith

unknown_action_ends_run_example :
    (run_apply_action (quiet (tick_row ∷ [])) (run_row ∷ []) generated 9 loaded wrong_action
      ≡ record { result = err (sim_error unknown_action); state = loaded; row = some wrong_row })
    × (open_state
          (quiet (tick_row ∷ wrong_row ∷ []))
          (run_row ∷ [])
          generated
          7
          room
          (tick_row ∷ wrong_row ∷ [])
        ≡ (err (sim_error unknown_action), none))
unfolding repository lookup
unknown_action_ends_run_example =
    unknown_action_ends_run room (tick_row ∷ []) [] (run_row ∷ []) (run_row ∷ []) generated
      generated 9 loaded wrong_action wrong_row loaded-Synced refl refl refl wrong_row-IsNumbered
