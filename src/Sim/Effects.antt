-- ===== src/Sim/Effects.antt =====
-- Which effect acts on a metric: `resolveEffect` of internal/engine/a/service/sim.go.
use sys_escape.Prelude.{
  ℕ, ◌≡◌, ◌≢◌, refl, ap, ◌∙◌, sym, ◌⊎◌, inl, inr, List, [], ◌∷◌, ◌++◌, Option, none, some, String,
  arith, if◌then◌else◌, All, Bool-cases, true, false,
}
use sys_escape.Prelude.Int.{pos, ltb_ℤ}
use sys_escape.Prelude.Text.{str_eq, eq_iff}
use sys_escape.Sim.Types.{Effect, TimedEvent, SimulationSpec, Engine}
use sys_escape.Sim.Engine.{choose, choose_events, choose_actions, effects_of, resolve_effect}

module _ {F : Type 0} where
  -- The effects of the events that have begun, in order.
  abbrev event_effects : ℕ → List (TimedEvent F) → List (Effect F)
  event_effects now [] = []
  event_effects now (ev ∷ evs) =
      let rest = event_effects now evs in
      if ltb_ℤ (pos now) ev.at_tick then rest else ev.effects ++ rest

  abbrev action_effects : SimulationSpec F → List String → List (Effect F)
  action_effects spec [] = []
  action_effects spec (k ∷ ks) = effects_of spec k ++ action_effects spec ks

  -- All effects in force: those of events first, then those of the actions taken.
  abbrev pub active_effects : Engine F → List (Effect F)
  active_effects e = event_effects e.tick e.spec.events ++ action_effects e.spec e.active_actions

  choose-append :
      (m : String) (c : Option (Effect F)) (xs ys : List (Effect F))
      → choose m c (xs ++ ys) ≡ choose m (choose m c xs) ys
  unfolding choose
  choose-append m c [] ys = refl
  choose-append m c (x ∷ xs) ys = choose-append m (if str_eq x.metric m then some x else c) xs ys

  choose_events-eq :
      (now : ℕ) (m : String) (c : Option (Effect F)) (evs : List (TimedEvent F))
      → choose_events now m c evs ≡ choose m c (event_effects now evs)
  unfolding choose_events choose
  choose_events-eq now m c [] = refl
  choose_events-eq now m c (ev ∷ evs) = elim (Bool-cases (ltb_ℤ (pos now) ev.at_tick)) [
    | inl later ↦ rw later (choose_events-eq now m c evs)
    | inr begun ↦ rw begun (
        choose_events-eq now m (choose m c ev.effects) evs
        ∙ sym (choose-append m c ev.effects (event_effects now evs)))
  ]

  choose_actions-eq :
      (spec : SimulationSpec F) (m : String) (c : Option (Effect F)) (ks : List String)
      → choose_actions spec m c ks ≡ choose m c (action_effects spec ks)
  unfolding choose_actions choose
  choose_actions-eq spec m c [] = refl
  choose_actions-eq spec m c (k ∷ ks) =
      choose_actions-eq spec m (choose m c (effects_of spec k)) ks
      ∙ sym (choose-append m c (effects_of spec k) (action_effects spec ks))

  resolve_effect-choose :
      (e : Engine F) (m : String) → resolve_effect e m ≡ choose m none (active_effects e)
  unfolding resolve_effect
  resolve_effect-choose e m =
      choose_actions-eq e.spec m _ e.active_actions
      ∙ ap (λ c. choose m c (action_effects e.spec e.active_actions))
          (choose_events-eq e.tick m none e.spec.events)
      ∙ sym (choose-append m none (event_effects e.tick e.spec.events) _)

  -- `r` is the last effect of the list on the metric, or `none` if the list has none on it.
  abbrev pub Latest : String → List (Effect F) → Option (Effect F) → Type 0
  Latest m effs none = All (λ x. x.metric ≢ m) effs
  Latest m effs (some eff) =
      (before : List (Effect F)) × (after : List (Effect F)) × (effs ≡ before ++ eff ∷ after)
      × (eff.metric ≡ m)
      × All (λ x. x.metric ≢ m) after

  -- The two ways in which a list has or has not an effect on the metric.
  abbrev Chosen : String → Option (Effect F) → List (Effect F) → Option (Effect F) → Type 0
  Chosen m c effs r =
      ((r ≡ c) × All (λ x. x.metric ≢ m) effs)
      ⊎ ((eff : Effect F) × (r ≡ some eff) × Latest m effs (some eff))

  choose_hit :
      (m : String) (c : Option (Effect F)) (x : Effect F) (xs : List (Effect F))
      → str_eq x.metric m ≡ true
      → Chosen m (some x) xs (choose m (some x) xs)
      → Chosen m c (x ∷ xs) (choose m (some x) xs)
  choose_hit m c x xs hit (inl (p, h)) = inr (x, p, ([], xs, refl, (eq_iff x.metric m).0 hit, h))
  choose_hit m c x xs hit (inr (eff, p, (before, after, q, r, h))) =
      inr (eff, p, (x ∷ before, after, ap (◌∷◌ x) q, r, h))

  choose_miss :
      (m : String) (c : Option (Effect F)) (x : Effect F) (xs : List (Effect F))
      → str_eq x.metric m ≡ false
      → Chosen m c xs (choose m c xs)
      → Chosen m c (x ∷ xs) (choose m c xs)
  choose_miss m c x xs miss (inl (p, h)) = inl (p, (ground (arith, eq_iff x.metric m), h))
  choose_miss m c x xs miss (inr (eff, p, (before, after, q, r, h))) =
      inr (eff, p, (x ∷ before, after, ap (◌∷◌ x) q, r, h))

  choose_cases :
      (m : String) (c : Option (Effect F)) (effs : List (Effect F))
      → Chosen m c effs (choose m c effs)
  unfolding choose
  choose_cases m c [] = inl (refl, tt)
  choose_cases m c (x ∷ xs) = elim (Bool-cases (str_eq x.metric m)) [
    | inl hit ↦ rw hit (choose_hit m c x xs hit (choose_cases m (some x) xs))
    | inr miss ↦ rw miss (choose_miss m c x xs miss (choose_cases m c xs))
  ]

  -- `resolveEffect` finds the last effect on the metric in the list of the effects of the events that
  -- have begun followed by those of the actions taken, and finds none only if that list has no effect
  -- on the metric.
  pub resolve_effect-Latest :
      (e : Engine F) (m : String) → Latest m (active_effects e) (resolve_effect e m)
  resolve_effect-Latest e m = elim (choose_cases m none (active_effects e)) [
    | inl (p, h) ↦ rw (resolve_effect-choose e m, p) h
    | inr (eff, p, h) ↦ rw (resolve_effect-choose e m, p) h
  ]
