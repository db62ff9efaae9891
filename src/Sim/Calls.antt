-- ===== src/Sim/Calls.antt =====
-- What one accepted call of `Tick` or `ApplyAction` leaves in each field of the engine
-- (internal/engine/a/service/sim.go and action.go).
use sys_escape.Prelude.{
  ℕ, ◌+◌, ◌≡◌, refl, true, false, List, [], ◌∷◌, ◌++◌, none, some, String, ok, arith, is_some,
}
use sys_escape.Prelude.Sort.{sort_strings}
use sys_escape.Prelude.Assoc.{keys, lookup}
use sys_escape.Sim.Types.{Float64, action_type_player, action_type_tick, LogEntry, Engine}
use sys_escape.Sim.Engine.{
  append_log, step_metric, step_metrics, finish_tick, tick, apply_action, win_satisfied,
}

abbrev pub tick_entry : ℕ → LogEntry
tick_entry n = record {
  seq = n;
  action_type = action_type_tick;
  action_key = none;
  client_request_id = none;
}

abbrev pub player_entry : ℕ → String → String → LogEntry
player_entry n key req = record {
  seq = n;
  action_type = action_type_player;
  action_key = some key;
  client_request_id = some req;
}

-- A tick: all but the metrics.
pub record IsTick {F : Type 0} ⦃fp : Float64 F⦄ (e e' : Engine F) : Type 0 where
  pub open_run : e.won ≡ false
  pub spec : e'.spec ≡ e.spec
  pub tick : e'.tick ≡ e.tick + 1
  pub won : e'.won ≡ win_satisfied e'.metrics e.spec.win_checks
  pub next_seq : e'.next_seq ≡ e.next_seq + 1
  pub log : e'.log ≡ e.log ++ tick_entry e.next_seq ∷ []
  pub active_actions : e'.active_actions ≡ e.active_actions

-- An action, whose effects wait for the next tick.
pub record IsAction {F : Type 0} (key req : String) (e e' : Engine F) : Type 0 where
  pub open_run : e.won ≡ false
  pub known : is_some (lookup key e.spec.action_effects) ≡ true
  pub spec : e'.spec ≡ e.spec
  pub metrics : e'.metrics ≡ e.metrics
  pub tick : e'.tick ≡ e.tick
  pub won : e'.won ≡ e.won
  pub next_seq : e'.next_seq ≡ e.next_seq + 1
  pub log : e'.log ≡ e.log ++ player_entry e.next_seq key req ∷ []
  pub active_actions : e'.active_actions ≡ e.active_actions ++ key ∷ []

module _ {F : Type 0} ⦃fp : Float64 F⦄ where
  -- The rounds of `Tick` change the metrics alone.
  step_metric_rest :
      (e : Engine F) (k : String)
      → step_metric e k ≡ record e { metrics = (step_metric e k).metrics }
  unfolding step_metric
  step_metric_rest e k = ground arith

  step_metrics_rest :
      (e : Engine F) (ks : List String)
      → step_metrics e ks ≡ record e { metrics = (step_metrics e ks).metrics }
  unfolding step_metrics
  step_metrics_rest e [] = refl
  step_metrics_rest e (k ∷ ks) =
      ground (arith, step_metrics_rest (step_metric e k) ks, step_metric_rest e k)

  pub tick-IsTick : (e e' : Engine F) → tick e ≡ ok e' → IsTick e e'
  unfolding tick append_log finish_tick
  tick-IsTick e e' h = ground (
    arith,
    step_metrics_rest (append_log e action_type_tick none none) (sort_strings (keys e.metrics)),
  )

module _ {F : Type 0} where
  pub apply_action-IsAction :
      (e e' : Engine F) (key req : String)
      → apply_action e key (some req) ≡ ok e'
      → IsAction key req e e'
  unfolding apply_action append_log
  apply_action-IsAction e e' key req h = ground arith
