-- ===== src/Tests/Simulator.antt =====
-- A room with one metric, `latency`, that an event drives up and an action brings down.
use sys_escape.Prelude.{◌≡◌, refl, true, [], ◌∷◌, none, some, ok, arith, ◌↔◌, All}
use sys_escape.Prelude.Int.{ℤ, pos, negsuc, ◌+ℤ◌, ◌-ℤ◌}
use sys_escape.Prelude.Sort.{sort_strings}
use sys_escape.Prelude.Assoc.{lookup, insert}
use sys_escape.Sim.Types.{Effect, SimulationSpec, Engine}
use sys_escape.Sim.Engine.{
  new_engine, resolve_effect, step_toward, step_metric, step_metrics, tick, apply_action, replay,
  replay_from, replay_entry, win_satisfied, check_holds,
}
use sys_escape.Sim.Exact.{exact}
use sys_escape.Sim.Effects.{Latest, resolve_effect-Latest}
use sys_escape.Sim.Win.{Met}
use sys_escape.Sim.Ticks.{step_metrics_any_order}
use sys_escape.Sim.Replay.{Reach, started, ticked, replay-log, replay-Reach}
use sys_escape.Sim.Runs.{Reach-tick-lookup, tick-won_iff}

abbrev pub raise : Effect ℤ
raise = record { metric = "latency"; target = pos 90; rate = pos 30 }

abbrev pub lower : Effect ℤ
lower = record { metric = "latency"; target = pos 10; rate = negsuc 49 }

abbrev pub room : SimulationSpec ℤ
room = record {
  tick_interval_ms = pos 250;
  duration_ticks = pos 10;
  seed = pos 0;
  initial_metrics = ("latency", pos 20) ∷ ("errors", pos 1) ∷ [];
  events = record { at_tick = pos 0; effects = raise ∷ [] } ∷ [];
  action_effects = ("enable_cache", record { effects = lower ∷ [] }) ∷ [];
  win_checks = record { metric = "latency"; op = "<="; value = pos 10 } ∷ [];
}

abbrev pub after_tick : Engine ℤ
after_tick = record (new_engine room) {
  metrics = ("latency", pos 50) ∷ ("errors", pos 1) ∷ [];
  tick = 1;
  next_seq = 2;
  log = record { seq = 1; action_type = "tick"; action_key = none; client_request_id = none } ∷ [];
}

-- All that a run of the simulator computes with.
unfoldable pub simulator : Unit {0}
unfolding new_engine resolve_effect step_toward step_metric step_metrics tick apply_action replay
    replay_from replay_entry win_satisfied check_holds lookup insert sort_strings ◌+ℤ◌ ◌-ℤ◌
simulator = tt

first_tick : tick (new_engine room) ≡ ok after_tick
unfolding simulator
first_tick = refl

after_tick-Reach : Reach room after_tick
after_tick-Reach = ticked started first_tick

pub first_replay : replay room after_tick.log ≡ ok after_tick
unfolding simulator
first_replay = refl

replay-log_example : replay room after_tick.log ≡ ok after_tick
replay-log_example = replay-log after_tick-Reach

replay-Reach_example : Reach room after_tick × (after_tick.log ≡ after_tick.log)
replay-Reach_example = replay-Reach room after_tick after_tick.log first_replay

resolve_effect-Latest_example : Latest "latency" (raise ∷ []) (some raise)
unfolding simulator
resolve_effect-Latest_example = resolve_effect-Latest (new_engine room) "latency"

step_metrics_any_order_example :
    lookup "latency" (step_metrics (new_engine room) ("errors" ∷ "latency" ∷ [])).metrics
    ≡ some (pos 50)
unfolding simulator
step_metrics_any_order_example =
    step_metrics_any_order (new_engine room) ("errors" ∷ "latency" ∷ []) "latency"
      (refl, (refl, tt)) (λ k. ground arith)

Reach-tick-lookup_example : lookup "errors" after_tick.metrics ≡ some (pos 1)
unfolding simulator
Reach-tick-lookup_example =
    Reach-tick-lookup {spec = room} "errors" (refl, (refl, tt)) started first_tick

tick-won_iff_example : (after_tick.won ≡ true) ↔ All (Met after_tick.metrics) room.win_checks
unfolding simulator
tick-won_iff_example = tick-won_iff (new_engine room) after_tick first_tick
