-- ===== src/Sim/Engine.antt =====
-- internal/engine/a/service/sim.go, action.go, wincheck.go and replay.go. A method that mutates
-- `*Engine` returns the new engine. `Tick` and `ApplyAction` return an error before any mutation, so
-- on `err` the caller still has the engine that it passed.
use sys_escape.Prelude.{
  ℕ, suc, ◌+◌, Bool, true, false, ◌||◌, not, List, [], ◌∷◌, ◌++◌, Option, none, some, String, ◌==◌,
  if◌then◌else◌, is_some, or_else, Result, ok, err, ◌>>=◌, ◌>>◌, fail_if,
}
use sys_escape.Prelude.Int.{pos, ltb_ℤ}
use sys_escape.Prelude.Text.{str_eq}
use sys_escape.Prelude.Sort.{sort_strings}
use sys_escape.Prelude.Assoc.{lookup, insert, keys}
use sys_escape.Sim.Types.{
  Float64, SimError, unknown_action, run_completed, invalid_replay_log, action_type_player,
  action_type_tick, Effect, TimedEvent, WinCheck, SimulationSpec, LogEntry, Snapshot, Engine,
}

-- The loop copies the map.
unfoldable pub new_engine : {F : Type 0} → SimulationSpec F → Engine F
new_engine spec = record {
  spec = spec;
  metrics = spec.initial_metrics;
  tick = 0;
  won = false;
  next_seq = 1;
  log = [];
  active_actions = [];
}

-- `clone` copies what a pointer points to; a value needs no copy.
unfoldable pub append_log :
    {F : Type 0} → Engine F → String → Option String → Option String → Engine F
append_log e action_type action_key client_request_id = record e {
  log = log ++ entry ∷ [];
  next_seq = next_seq + 1;
}
  where
    open e use {log, next_seq}

    entry : LogEntry
    entry = record {
      seq = next_seq;
      action_type = action_type;
      action_key = action_key;
      client_request_id = client_request_id;
    }

-- The inner loops of `resolveEffect`: the last effect on the metric replaces the chosen one.
unfoldable pub choose :
    {F : Type 0} → String → Option (Effect F) → List (Effect F) → Option (Effect F)
choose metric chosen [] = chosen
choose metric chosen (eff ∷ effs) =
    choose metric (if str_eq eff.metric metric then some eff else chosen) effs

unfoldable pub choose_events :
    {F : Type 0} → ℕ → String → Option (Effect F) → List (TimedEvent F) → Option (Effect F)
unfolding choose
choose_events now metric chosen [] = chosen
choose_events now metric chosen (ev ∷ evs) =
    choose_events now metric
      (if ltb_ℤ (pos now) ev.at_tick then chosen else choose metric chosen ev.effects) evs

-- A missing key of the map has no effects.
unfoldable pub effects_of : {F : Type 0} → SimulationSpec F → String → List (Effect F)
unfolding lookup
effects_of spec action_key = elim (lookup action_key spec.action_effects) [
  | none ↦ []
  | some set ↦ set.effects
]

unfoldable pub choose_actions :
    {F : Type 0} → SimulationSpec F → String → Option (Effect F) → List String → Option (Effect F)
unfolding choose effects_of
choose_actions spec metric chosen [] = chosen
choose_actions spec metric chosen (k ∷ ks) =
    choose_actions spec metric (choose metric chosen (effects_of spec k)) ks

-- `none` is `ok == false`.
unfoldable pub resolve_effect : {F : Type 0} → Engine F → String → Option (Effect F)
unfolding choose_events choose_actions
resolve_effect e metric =
    choose_actions e.spec metric (choose_events e.tick metric none e.spec.events) e.active_actions

module _ {F : Type 0} ⦃fp : Float64 F⦄ where
  open fp use {zero_value, epsilon, lt, le, add, sub, neg, abs}

  unfoldable pub step_toward : F → F → F → F
  step_toward current target rate =
      let r = if lt rate zero_value then neg rate else rate in
      let delta = sub target current in
      if le (abs delta) r
      then target
      else if lt zero_value delta
      then add current r
      else sub current r

  -- The `switch` on the operator of one check.
  unfoldable pub check_holds : F → WinCheck F → Bool
  check_holds v c =
      if str_eq c.op ">"
      then lt c.value v
      else if str_eq c.op "<"
      then lt v c.value
      else if str_eq c.op ">="
      then le c.value v
      else if str_eq c.op "<="
      then le v c.value
      else if str_eq c.op "=="
      then not (lt epsilon (abs (sub v c.value)))
      else false

  unfoldable pub win_satisfied : List (String × F) → List (WinCheck F) → Bool
  unfolding lookup
  win_satisfied metrics [] = true
  win_satisfied metrics (c ∷ cs) =
      let rest = win_satisfied metrics cs in
      elim (lookup c.metric metrics) [
        | none ↦ false
        | some v ↦ if check_holds v c then rest else false
      ]

  -- One round of the loop of `Tick`. `e.metrics[metric]` of a missing key is 0.
  unfoldable pub step_metric : Engine F → String → Engine F
  step_metric e metric = elim (resolve_effect e metric) [
    | none ↦ e
    | some eff ↦ record e {
      metrics =
          insert metric
            (step_toward (or_else (lookup metric e.metrics) zero_value) eff.target eff.rate)
            e.metrics;
    }
  ]

  unfoldable pub step_metrics : Engine F → List String → Engine F
  unfolding step_metric
  step_metrics e [] = e
  step_metrics e (k ∷ ks) = step_metrics (step_metric e k) ks

  -- `e.tick++` and the assignment of `e.won`.
  unfoldable pub finish_tick : Engine F → Engine F
  unfolding win_satisfied
  finish_tick e = record e { tick = e.tick + 1; won = win_satisfied e.metrics e.spec.win_checks }

  unfoldable pub tick : Engine F → Result SimError (Engine F)
  unfolding append_log step_metrics finish_tick sort_strings
  tick e =
      let logged = append_log e action_type_tick none none in
      if e.won
      then err run_completed
      else ok (finish_tick (step_metrics logged (sort_strings (keys logged.metrics))))

unfoldable pub apply_action :
    {F : Type 0} → Engine F → String → Option String → Result SimError (Engine F)
unfolding append_log lookup
apply_action e action_key client_request_id =
    if e.won
    then err run_completed
    else if not (is_some (lookup action_key e.spec.action_effects))
    then err unknown_action
    else ok (
        append_log (record e { active_actions = e.active_actions ++ action_key ∷ [] })
          action_type_player (some action_key) client_request_id)

unfoldable pub snapshot : {F : Type 0} → Engine F → Snapshot F
unfolding sort_strings
snapshot e = record {
  tick = e.tick;
  won = e.won;
  metrics = e.metrics;
  actions = sort_strings (keys e.spec.action_effects);
}

module _ {F : Type 0} ⦃fp : Float64 F⦄ where
  -- `case ActionTypePlayer`: both pointers are dereferenced.
  unfoldable pub replay_player :
      Engine F → Option String → Option String → Result SimError (Engine F)
  replay_player e (some key) (some req) = apply_action e key (some req)
  replay_player e _ _ = err invalid_replay_log

  -- The body of the loop of `Replay`, at index `i`.
  unfoldable pub replay_entry : Engine F → ℕ → LogEntry → Result SimError (Engine F)
  unfolding replay_player
  replay_entry e i entry =
      if not (entry.seq == i + 1)
      then err invalid_replay_log
      else if str_eq entry.action_type action_type_tick
      then (do
        fail_if (is_some entry.action_key || is_some entry.client_request_id) invalid_replay_log
        tick e)
      else if str_eq entry.action_type action_type_player
      then replay_player e entry.action_key entry.client_request_id
      else err invalid_replay_log

  unfoldable pub replay_from : Engine F → ℕ → List LogEntry → Result SimError (Engine F)
  replay_from e i [] = ok e
  replay_from e i (entry ∷ entries) = do e' ← replay_entry e i entry; replay_from e' (suc i) entries

  unfoldable pub replay : SimulationSpec F → List LogEntry → Result SimError (Engine F)
  unfolding replay_from new_engine
  replay spec log = replay_from (new_engine spec) 0 log
