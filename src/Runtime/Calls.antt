-- ===== src/Runtime/Calls.antt =====
-- cmd/engine-a/runtime.go: what the handler calls, and one round of the tick loop. Each returns the new
-- state and the row that it added to `run_actions`, if it did.
use mathlib.Core.Bool.{◌||◌}
use sys_escape.Prelude.{
  ℕ, zero, suc, ◌+◌, Bool, true, false, List, [], ◌∷◌, Option, none, some, map, ltb, if◌then◌else◌,
  Result, ok, err, map_err, ◌>>=◌,
}
use sys_escape.Prelude.Int.{pos}
use sys_escape.Sim.Types.{Float64, Snapshot}
use sys_escape.Sim.Engine.{tick, apply_action, snapshot}
use sys_escape.Store.Tables.{Run, RunAction, run_action_type_player}
use sys_escape.Store.RunRepo.{AppendActionInput, Generated, Schedule, append_action}
use sys_escape.Ws.Messages.{ConnectResult, ApplyActionInput, ApplyActionResult}
use sys_escape.Runtime.State.{
  RunState, RuntimeError, run_completed, repo_error, sim_error, offer, push_delta,
  ensure_tick_loop_locked, timed_out, tick_input,
}

unfoldable pub connect : {F : Type 0} → RunState F → ConnectResult (Snapshot F) × RunState F
unfolding ensure_tick_loop_locked snapshot
connect s = (
  record {
    snapshot_required = true;
    snapshot = record { seq = pos s.last_seq; payload = snapshot s.engine };
    deltas = [];
  },
  ensure_tick_loop_locked s,
)

abbrev pub player_input : ℕ → ApplyActionInput → AppendActionInput
player_input run_id input = record {
  run_id = run_id;
  action_type = run_action_type_player;
  action_key = some input.action_key;
  client_request_id = some input.client_request_id;
}

-- A row that the engine has not seen is applied to it.
unfoldable pub catch_up :
    {F : Type 0} → RunState F → ApplyActionInput → RunAction → Result RuntimeError (RunState F)
catch_up s input action =
    if ltb s.last_seq action.seq
    then (do
      engine ←
          map_err sim_error (apply_action s.engine input.action_key (some input.client_request_id))
      ok (record s { engine = engine; last_seq = action.seq }))
    else ok s

-- The end of `ApplyAction`, where the action is in the log and in the engine.
unfoldable pub acknowledge :
    {F : Type 0} → ℕ → RunAction → RunState F → ApplyActionResult (Snapshot F) × RunState F
unfolding ensure_tick_loop_locked
acknowledge now action s = (
  record { seq = pos action.seq; delta = snapshot s.engine; win_payload = none },
  ensure_tick_loop_locked (record s { next_tick_at = some (now + s.tick_interval) }),
)

unfoldable pub apply_recorded :
    {F : Type 0}
    → ℕ
    → RunState F
    → ApplyActionInput
    → RunAction
    → Result RuntimeError (ApplyActionResult (Snapshot F)) × RunState F
apply_recorded now s input action = elim (catch_up s input action) [
  | err e ↦ (err e, s)
  | ok s' ↦ let (r, s'') = acknowledge now action s' in (ok r, s'')
]

pub record Outcome (R : Type 0) (F : Type 0) : Type 0 where
  pub result : R
  pub state : RunState F
  pub row : Option RunAction

-- `ApplyAction` on a run in memory. The expected sequence number is not read.
unfoldable pub run_apply_action :
    {F : Type 0}
    → Schedule
    → List Run
    → Generated
    → ℕ
    → RunState F
    → ApplyActionInput
    → Outcome (Result RuntimeError (ApplyActionResult (Snapshot F))) F
run_apply_action db runs gen now s input =
    if s.terminal
    then record { result = err run_completed; state = s; row = none }
    else let (r, row) = append_action db runs gen (player_input s.run_id input) in
      elim r [
        | err e ↦ record { result = err (repo_error e); state = s; row = row }
        | ok action ↦
            let (result, s') = apply_recorded now s input action in
            record { result = result; state = s'; row = row }
      ]

unfoldable pub subscribe_deltas : {F : Type 0} → RunState F → RunState F
unfolding ensure_tick_loop_locked
subscribe_deltas s =
    ensure_tick_loop_locked
      (record s { delta_subs = record { capacity = 16; queue = [] } ∷ s.delta_subs })

unfoldable pub subscribe_win_updates : {F : Type 0} → RunState F → RunState F
subscribe_win_updates s = record s { win_subs = record { capacity = 4; queue = [] } ∷ s.win_subs }

abbrev remove_at : {A : Type 0} → ℕ → List A → List A
remove_at n [] = []
remove_at zero (x ∷ xs) = xs
remove_at (suc n) (x ∷ xs) = x ∷ remove_at n xs

-- The goroutine of SubscribeDeltas once its context is done, with the channel by its place in the list.
unfoldable pub unsubscribe_deltas : {F : Type 0} → ℕ → RunState F → RunState F
unsubscribe_deltas place s = record s { delta_subs = remove_at place s.delta_subs }

-- Whether the loop goes on after a round.
pub data Flow : Type 0 where
  stops goes_on : Flow

abbrev pub before : ℕ → Option ℕ → Bool
before now none = false
before now (some at) = ltb now at

-- The end of the run: the win update goes out once.
unfoldable pub finish_run : {F : Type 0} → Bool → RunState F → RunState F
unfolding offer snapshot
finish_run timeout s =
    let done = record s { terminal = true; tick_started = false } in
    if s.sent_win then done else record done {
      sent_win = true;
      win_subs =
          map (offer (record { won = s.engine.won; timeout = timeout; tick = s.engine.tick }))
            s.win_subs;
    }

-- The round after the tick is in the log and in the engine.
unfoldable pub settle : {F : Type 0} → RunState F → Flow × RunState F
unfolding finish_run push_delta timed_out
settle s =
    let timeout = timed_out s.duration_ticks s.engine.tick in
    if s.engine.won || timeout then (stops, finish_run timeout s) else (
      goes_on,
      record s {
        delta_subs =
            push_delta s.delta_subs (record { seq = pos s.last_seq; payload = snapshot s.engine });
      },
    )

abbrev stop_loop : {F : Type 0} → RunState F → Flow × RunState F
stop_loop s = (stops, record s { tick_started = false })

module _ {F : Type 0} ⦃fp : Float64 F⦄ where
  unfoldable pub tick_recorded : RunState F → RunAction → Flow × RunState F
  tick_recorded s action = elim (tick s.engine) [
    | err e ↦ stop_loop s
    | ok engine ↦ settle (record s { engine = engine; last_seq = action.seq })
  ]

  -- One round of `tickLoop`, at time `now`.
  unfoldable pub tick_round : Schedule → List Run → Generated → ℕ → RunState F → Outcome Flow F
  tick_round db runs gen now s =
      if s.terminal
      then record { result = stops; state = record s { tick_started = false }; row = none }
      else if before now s.next_tick_at
      then record { result = goes_on; state = s; row = none }
      else let (r, row) = append_action db runs gen (tick_input s.run_id) in
        elim r [
          | err e ↦ record { result = stops; state = record s { tick_started = false }; row = row }
          | ok action ↦
              let (flow, s') = tick_recorded s action in
              record { result = flow; state = s'; row = row }
        ]
