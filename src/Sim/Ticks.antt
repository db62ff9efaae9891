-- ===== src/Sim/Ticks.antt =====
-- What a tick does to each metric, whatever the order in which the map is ranged over.
use sys_escape.Prelude.{
  ◌≡◌, refl, sym, ◌∙◌, inl, inr, true, List, [], ◌∷◌, Option, none, some, String, ok, arith,
  if◌then◌else◌, or_else, is_some, All, Option-cases,
}
use mathlib.Core.Option
use sys_escape.Prelude.Text.{str_eq, eq_iff}
use sys_escape.Prelude.Sort.{sort_strings, contains-sort_strings, sort_strings-Distinct}
use sys_escape.Prelude.Assoc.{
  lookup, keys, contains, Distinct, lookup-insert, contains-keys, All-of_contains, keys-insert,
}
use sys_escape.Sim.Types.{Float64, Effect, Engine, action_type_tick}
use sys_escape.Sim.Engine.{
  resolve_effect, step_toward, step_metric, step_metrics, finish_tick, append_log, tick,
}

module _ {F : Type 0} ⦃fp : Float64 F⦄ where
  open fp use {zero_value}

  -- One metric by itself: a step towards the target of the effect in force, if there is one.
  abbrev pub move : Option (Effect F) → F → F
  move none v = v
  move (some eff) v = step_toward v eff.target eff.rate

  abbrev pub advance : Engine F → String → F → F
  advance e k = move (resolve_effect e k)

  step_metric-lookup :
      (e : Engine F) (k j : String)
      → is_some (lookup k e.metrics) ≡ true
      → lookup j (step_metric e k).metrics
        ≡ (if str_eq k j then Option.map (advance e j) (lookup j e.metrics) else lookup j e.metrics)
  unfolding step_metric
  step_metric-lookup e k j h = elim (Option-cases (resolve_effect e k)) [
    | inl none_in_force ↦ ground (arith, eq_iff k j)
    | inr (eff, in_force) ↦ ground (
      arith,
      eq_iff k j,
      lookup-insert k j (step_toward (or_else (lookup k e.metrics) zero_value) eff.target eff.rate)
          e.metrics,
    )
  ]

  step_metric-keys :
      (e : Engine F) (k : String)
      → is_some (lookup k e.metrics) ≡ true
      → keys (step_metric e k).metrics ≡ keys e.metrics
  unfolding step_metric
  step_metric-keys e k h = elim (Option-cases (resolve_effect e k)) [
    | inl none_in_force ↦ ground arith
    | inr (eff, in_force) ↦ rw (in_force, step_metric) (keys-insert k _ e.metrics h)
  ]

  -- The effect in force does not depend on the metrics.
  resolve_effect-step_metric :
      (e : Engine F) (k j : String) → resolve_effect (step_metric e k) j ≡ resolve_effect e j
  unfolding step_metric resolve_effect
  resolve_effect-step_metric e k j = ground arith

  -- The loop of `Tick` over any list of distinct keys of the map.
  step_metrics-lookup :
      (e : Engine F) (ks : List String) (j : String)
      → Distinct ks
      → All (λ k. contains k (keys e.metrics) ≡ true) ks
      → lookup j (step_metrics e ks).metrics ≡ (
          if contains j ks
          then Option.map (advance e j) (lookup j e.metrics)
          else lookup j e.metrics)
  unfolding step_metrics
  step_metrics-lookup e [] j d h = refl
  step_metrics-lookup e (k ∷ ks) j d h =
      let here : is_some (lookup k e.metrics) ≡ true = sym (contains-keys k e.metrics) ∙ h.0 in
      let present : All (λ i. contains i (keys (step_metric e k).metrics) ≡ true) ks =
        rw (step_metric-keys e k here) h.1 in
      ground (
        arith,
        eq_iff k j,
        step_metrics-lookup (step_metric e k) ks j d.1 present,
        step_metric-lookup e k j here,
        resolve_effect-step_metric e k j,
      )

  pub step_metrics-keys :
      (e : Engine F) (ks : List String)
      → All (λ k. contains k (keys e.metrics) ≡ true) ks
      → keys (step_metrics e ks).metrics ≡ keys e.metrics
  unfolding step_metrics
  step_metrics-keys e [] h = refl
  step_metrics-keys e (k ∷ ks) h =
      let same = step_metric-keys e k (sym (contains-keys k e.metrics) ∙ h.0) in
      step_metrics-keys (step_metric e k) ks (rw same h.1) ∙ same

  -- The loop of `Tick` gives each metric the same value in whatever order it takes the keys: over any
  -- list of distinct texts that has the same members as the keys of the map, each metric takes one
  -- step by itself.
  pub step_metrics_any_order :
      (e : Engine F) (ks : List String) (j : String)
      → Distinct ks
      → ((k : String) → contains k ks ≡ contains k (keys e.metrics))
      → lookup j (step_metrics e ks).metrics ≡ Option.map (advance e j) (lookup j e.metrics)
  step_metrics_any_order e ks j d same = ground (
    arith,
    same j,
    contains-keys j e.metrics,
    step_metrics-lookup e ks j d (All-of_contains _ ks (λ k c. sym (same k) ∙ c)),
  )

  pub tick-lookup :
      (e e' : Engine F) (j : String)
      → Distinct (keys e.metrics)
      → tick e ≡ ok e'
      → lookup j e'.metrics ≡ Option.map (advance e j) (lookup j e.metrics)
  unfolding tick append_log finish_tick resolve_effect
  tick-lookup e e' j d h = ground (
    arith,
    step_metrics_any_order (append_log e action_type_tick none none) (sort_strings (keys e.metrics))
        j (sort_strings-Distinct (keys e.metrics) d)
        (λ k. contains-sort_strings k (keys e.metrics)),
  )
