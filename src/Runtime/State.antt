-- ===== src/Runtime/State.antt =====
-- cmd/engine-a/runtime.go: the state of a run, the channels of its subscribers, and loading.
-- A marshalled JSON payload is the value that was marshalled. Times and durations are nanoseconds;
-- the zero time is `none`. The mutex of a run makes each change of its state one step; a run is loaded
-- without one, from the table that `ListActions` sees.
use mathlib.Core.Bool.{◌&&◌, ◌||◌}
use Prim.Native.Nat.{max}
use sys_escape.Prelude.{
  ℕ, ◌*◌, ◌+◌, ◌-◌, ◌%◌, ◌^◌, Bool, true, false, List, [], ◌∷◌, ◌++◌, Option, none, map, length,
  ltb, if◌then◌else◌, Result, ok, map_err, ◌>>=◌,
}
use sys_escape.Prelude.Int.{ℤ, pos, pos_part, neg_part, ltb_ℤ, leb_ℤ}
use sys_escape.Sim.Types.{Float64, SimError, SimulationSpec, LogEntry, Snapshot, Engine}
use sys_escape.Sim.Engine.{replay}
use sys_escape.Store.Tables.{Run, RunAction, run_action_type_tick}
use sys_escape.Store.RunRepo.{
  AppendActionInput, Generated, Schedule, RepoError, append_action, list_actions,
}
use sys_escape.Ws.Messages.{Delta}

-- A buffered channel.
pub record Channel (A : Type 0) : Type 0 where
  pub capacity : ℕ
  pub queue : List A

-- `map[string]any{"won": …, "timeout": …, "tick": …}`.
pub record WinUpdate : Type 0 where
  pub won : Bool
  pub timeout : Bool
  pub tick : ℕ

pub record RunState (F : Type 0) : Type 0 where
  pub run_id : ℕ
  pub engine : Engine F
  pub last_seq : ℕ
  pub tick_interval : ℕ
  pub duration_ticks : ℤ
  pub next_tick_at : Option ℕ
  pub terminal : Bool
  pub sent_win : Bool
  pub tick_started : Bool
  pub delta_subs : List (Channel (Delta (Snapshot F)))
  pub win_subs : List (Channel WinUpdate)

pub data RuntimeError : Type 0 where
  run_completed : RuntimeError
  repo_error : RepoError → RuntimeError
  sim_error : SimError → RuntimeError

-- `select { case ch <- x: default: }`.
unfoldable pub offer : {A : Type 0} → A → Channel A → Channel A
offer x ch =
    if ltb (length ch.queue) ch.capacity then record ch { queue = ch.queue ++ x ∷ [] } else ch

unfoldable pub push_delta :
    {F : Type 0}
    → List (Channel (Delta (Snapshot F)))
    → Delta (Snapshot F)
    → List (Channel (Delta (Snapshot F)))
unfolding offer
push_delta subs d = map (offer d) subs

-- `tickStarted` stands for the goroutine that the code starts with it.
unfoldable pub ensure_tick_loop_locked : {F : Type 0} → RunState F → RunState F
ensure_tick_loop_locked s =
    if s.tick_started || s.terminal then s else record s { tick_started = true }

-- `s.durationTicks > 0 && snap.Tick >= s.durationTicks`.
unfoldable pub timed_out : ℤ → ℕ → Bool
timed_out duration tick = ltb_ℤ (pos 0) duration && leb_ℤ duration (pos tick)

unfoldable pub to_log_entry : RunAction → LogEntry
to_log_entry a = record {
  seq = a.seq;
  action_type = a.action_type;
  action_key = a.action_key;
  client_request_id = a.client_request_id;
}

-- `lastSeq` after the loop.
unfoldable pub last_seq_of : ℕ → List RunAction → ℕ
last_seq_of last [] = last
last_seq_of last (a ∷ rest) = last_seq_of (if ltb last a.seq then a.seq else last) rest

abbrev pub tick_input : ℕ → AppendActionInput
tick_input run_id = record {
  run_id = run_id;
  action_type = run_action_type_tick;
  action_key = none;
  client_request_id = none;
}

abbrev pub min_tick_interval : ℕ
min_tick_interval = 20 * 1000000

-- `time.Duration(ms)*time.Millisecond` in 64 bits, where it is positive.
unfoldable pub interval_of : ℤ → ℕ
interval_of ms =
    let bits = (pos_part ms * 1000000 + (2 ^ 64 - neg_part ms * 1000000 % 2 ^ 64)) % 2 ^ 64 in
    if ltb bits (2 ^ 63) then bits else 0

-- The actions of the run; an empty run gets its first tick.
unfoldable pub first_actions :
    Schedule
    → List Run
    → Generated
    → ℕ
    → List RunAction
    → Result RepoError (List RunAction) × Option RunAction
first_actions db runs gen run_id (a ∷ rest) = (ok (a ∷ rest), none)
first_actions db runs gen run_id [] =
    let (r, row) = append_action db runs gen (tick_input run_id) in (r >>= (λ a. ok (a ∷ [])), row)

module _ {F : Type 0} ⦃fp : Float64 F⦄ where
  -- `max(time.Duration(ms)*time.Millisecond, 20*time.Millisecond)`.
  unfoldable pub new_run_state : ℕ → SimulationSpec F → List RunAction → Engine F → RunState F
  unfolding interval_of
  new_run_state run_id spec actions engine = record {
    run_id = run_id;
    engine = engine;
    last_seq = last_seq_of 0 actions;
    tick_interval = max (interval_of spec.tick_interval_ms) min_tick_interval;
    duration_ticks = spec.duration_ticks;
    next_tick_at = none;
    terminal = engine.won || timed_out spec.duration_ticks engine.tick;
    sent_win = false;
    tick_started = false;
    delta_subs = [];
    win_subs = [];
  }

  unfoldable pub restore : ℕ → SimulationSpec F → List RunAction → Result RuntimeError (RunState F)
  restore run_id spec actions = do
    engine ← map_err sim_error (replay spec (map to_log_entry actions))
    ok (new_run_state run_id spec actions engine)

  -- `state` from `ListActions` on, of a run that is not in memory and whose bundle is loaded. `t` is
  -- the table that `ListActions` sees.
  unfoldable pub open_state :
      Schedule
      → List Run
      → Generated
      → ℕ
      → SimulationSpec F
      → List RunAction
      → Result RuntimeError (RunState F) × Option RunAction
  open_state db runs gen run_id spec t =
      let (actions, row) = first_actions db runs gen run_id (list_actions t run_id) in
      (map_err repo_error actions >>= restore run_id spec, row)
