-- ===== src/Sim/Runs.antt =====
-- What holds of every engine that a run reaches.
use sys_escape.Prelude.{◌≡◌, ◌↔◌, refl, sym, ap, ◌∙◌, true, none, String, ok, arith, All, subst}
use mathlib.Core.Option
use sys_escape.Prelude.Sort.{sort_strings, contains-sort_strings}
use sys_escape.Prelude.Assoc.{lookup, keys, Distinct, All-of_contains}
use sys_escape.Sim.Types.{Float64, SimulationSpec, Engine, action_type_tick}
use sys_escape.Sim.Engine.{tick, append_log, finish_tick, new_engine}
use sys_escape.Sim.Calls.{tick-IsTick, apply_action-IsAction}
use sys_escape.Sim.Win.{Met, win_satisfied_iff}
use sys_escape.Sim.Ticks.{advance, tick-lookup, step_metrics-keys}
use sys_escape.Sim.Replay.{Reach, started, ticked, acted}

module _ {F : Type 0} ⦃fp : Float64 F⦄ where
  tick-keys : (e e' : Engine F) → tick e ≡ ok e' → keys e'.metrics ≡ keys e.metrics
  unfolding tick finish_tick append_log
  tick-keys e e' h = ground (
    arith,
    step_metrics-keys (append_log e action_type_tick none none) (sort_strings (keys e.metrics)) (
        All-of_contains _ (sort_strings (keys e.metrics))
          (λ k c. sym (contains-sort_strings k (keys e.metrics)) ∙ c)),
  )

  -- A run keeps the specification, and the names of its metrics.
  pub Reach-keys :
      {spec : SimulationSpec F} {e : Engine F}
      → Reach spec e
      → (e.spec ≡ spec) × (keys e.metrics ≡ keys spec.initial_metrics)
  unfolding new_engine
  Reach-keys started = (refl, refl)
  Reach-keys (ticked {e = e} {e' = e'} r h) =
      let (s, k) = Reach-keys r in ((tick-IsTick e e' h).spec ∙ s, tick-keys e e' h ∙ k)
  Reach-keys (acted {e = e} {e' = e'} r key req h) =
      let (s, k) = Reach-keys r in
      let a = apply_action-IsAction e e' key req h in (a.spec ∙ s, ap keys a.metrics ∙ k)

  -- Of a specification whose initial metrics have distinct names, a tick of any reachable engine
  -- takes every metric, by itself, one step towards the target of the effect in force on it before
  -- the tick, leaves a metric with no such effect as it was, and adds no metric.
  pub Reach-tick-lookup :
      {spec : SimulationSpec F} {e e' : Engine F} (j : String)
      → Distinct (keys spec.initial_metrics)
      → Reach spec e
      → tick e ≡ ok e'
      → lookup j e'.metrics ≡ Option.map (advance e j) (lookup j e.metrics)
  Reach-tick-lookup {spec} {e} {e'} j d r h =
      tick-lookup e e' j (subst Distinct (sym (Reach-keys r).1) d) h

  -- After an accepted tick the run is won exactly when each win check names a metric that exists and
  -- whose new value stands in the relation of the check's operator to its value.
  pub tick-won_iff :
      (e e' : Engine F) → tick e ≡ ok e' → (e'.won ≡ true) ↔ All (Met e'.metrics) e.spec.win_checks
  tick-won_iff e e' h =
      let (met, meets) = win_satisfied_iff e'.metrics e.spec.win_checks in
      let same = (tick-IsTick e e' h).won in (λ w. met (sym same ∙ w), λ m. same ∙ meets m)
