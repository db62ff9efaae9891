-- ===== src/Sim/Replay.antt =====
-- Logs and the engines that they replay to: internal/engine/a/service/replay.go against sim.go and
-- action.go.
use sys_escape.Prelude.{
  ℕ, suc, ◌+◌, ◌≡◌, refl, sym, ap, ◌∙◌, ◌⊎◌, inl, inr, true, false, List, [], ◌∷◌, ◌++◌, Option,
  none, some, String, subst, Bool-cases, ok, err, arith, length, length-append, head_of-ok,
}
use mathlib.Core.List.{append_assoc, append-nil}
use native.Mathlib.Nat.{add-zero}
use sys_escape.Prelude.Text.{eq_iff, str_eq}
use sys_escape.Sim.Types.{
  Float64, action_type_player, action_type_tick, SimulationSpec, SimError, LogEntry, Engine,
}
use sys_escape.Sim.Calls.{tick_entry, player_entry, tick-IsTick, apply_action-IsAction}
use sys_escape.Sim.Engine.{
  new_engine, tick, apply_action, replay_entry, replay_player, replay_from, replay,
}

-- The engines that `Tick` and `ApplyAction` reach from a new engine, where each action comes with a
-- client request id, as the runtime passes it.
pub data Reach {F : Type 0} ⦃fp : Float64 F⦄ (spec : SimulationSpec F) : Engine F → Type 0 where
  started : Reach spec (new_engine spec)
  ticked : {e e' : Engine F} → Reach spec e → tick e ≡ ok e' → Reach spec e'
  acted :
      {e e' : Engine F}
      → Reach spec e
      → (key req : String) → apply_action e key (some req) ≡ ok e'
      → Reach spec e'

module _ {F : Type 0} ⦃fp : Float64 F⦄ where
  -- Sequence numbers count the entries from 1.
  pub Reach-next_seq :
      {spec : SimulationSpec F} {e : Engine F} → Reach spec e → e.next_seq ≡ length e.log + 1
  unfolding new_engine
  Reach-next_seq started = refl
  Reach-next_seq (ticked {e = e} {e' = e'} r h) =
      let t = tick-IsTick e e' h in
      rw (t.log, t.next_seq)
        (omega (arith, Reach-next_seq r, length-append e.log (tick_entry e.next_seq ∷ [])))
  Reach-next_seq (acted {e = e} {e' = e'} r key req h) =
      let a = apply_action-IsAction e e' key req h in
      rw (a.log, a.next_seq)
        (omega
          (arith, Reach-next_seq r, length-append e.log (player_entry e.next_seq key req ∷ [])))

  replay_from-append :
      (e e' : Engine F) (i : ℕ) (xs ys : List LogEntry)
      → replay_from e i xs ≡ ok e'
      → replay_from e i (xs ++ ys) ≡ replay_from e' (length xs + i) ys
  unfolding replay_from
  replay_from-append e e' i [] ys h = ground arith
  replay_from-append e e' i (x ∷ xs) ys h =
      let (m, r, q) = head_of-ok _ (replay_entry e i x) h in
      rw q (replay_from-append m e' (suc i) xs ys r ∙ ap (λ j. replay_from e' j ys) (omega arith))

  pub replay_entry-tick :
      (e e' : Engine F)
      → tick e ≡ ok e'
      → (n i : ℕ) → n ≡ i + 1
      → replay_entry e i (tick_entry n) ≡ ok e'
  unfolding replay_entry
  replay_entry-tick e e' h n i p = ground arith

  pub replay_entry-player :
      (e e' : Engine F) (key req : String)
      → apply_action e key (some req) ≡ ok e'
      → (n i : ℕ) → n ≡ i + 1
      → replay_entry e i (player_entry n key req) ≡ ok e'
  unfolding replay_entry
  replay_entry-player e e' key req h n i p = ground arith

  -- One more entry replays to one more step.
  pub replay-snoc :
      (spec : SimulationSpec F) (e e' : Engine F) (log : List LogEntry) (entry : LogEntry)
      → replay spec log ≡ ok e
      → replay_entry e (length log) entry ≡ ok e'
      → replay spec (log ++ entry ∷ []) ≡ ok e'
  unfolding replay replay_from
  replay-snoc spec e e' log entry h k =
      replay_from-append (new_engine spec) e 0 log (entry ∷ []) h ∙ rw (add-zero, k)

  -- An entry that the engine refuses ends the replay, whatever comes after it.
  pub replay-refused :
      (spec : SimulationSpec F) (e : Engine F) (log rest : List LogEntry) (entry : LogEntry)
      (x : SimError)
      → replay spec log ≡ ok e
      → replay_entry e (length log) entry ≡ err x
      → replay spec (log ++ entry ∷ rest) ≡ err x
  unfolding replay replay_from
  replay-refused spec e log rest entry x h k =
      replay_from-append (new_engine spec) e 0 log (entry ∷ rest) h ∙ rw (add-zero, k)

  pub replay_entry-refused :
      (e : Engine F) (key req : String) (x : SimError) (n i : ℕ)
      → apply_action e key (some req) ≡ err x
      → n ≡ i + 1
      → replay_entry e i (player_entry n key req) ≡ err x
  unfolding replay_entry
  replay_entry-refused e key req x n i h p = ground arith

  -- The log of an engine that ticks and actions have reached from a new engine (each action with a
  -- client request id) replays, under the same specification, to exactly that engine.
  pub replay-log :
      {spec : SimulationSpec F} {e : Engine F} → Reach spec e → replay spec e.log ≡ ok e
  unfolding new_engine replay
  replay-log started = refl
  replay-log {spec} (ticked {e = e} {e' = e'} r h) =
      ap (replay spec) (tick-IsTick e e' h).log
      ∙ replay-snoc spec e e' e.log (tick_entry e.next_seq) (replay-log r)
          (replay_entry-tick e e' h e.next_seq (length e.log) (Reach-next_seq r))
  replay-log {spec} (acted {e = e} {e' = e'} r key req h) =
      ap (replay spec) (apply_action-IsAction e e' key req h).log
      ∙ replay-snoc spec e e' e.log (player_entry e.next_seq key req) (replay-log r)
          (replay_entry-player e e' key req h e.next_seq (length e.log) (Reach-next_seq r))

  replay_player-inv :
      (e e' : Engine F) (k r : Option String)
      → replay_player e k r ≡ ok e'
      → (key : String) × (req : String) × (k ≡ some key)
        × (r ≡ some req)
        × (apply_action e key (some req) ≡ ok e')
  unfolding replay_player
  replay_player-inv e e' (some key) (some req) h = (key, req, refl, refl, h)
  replay_player-inv e e' none r h = cc
  replay_player-inv e e' (some key) none h = cc

  replay_entry-tick_inv :
      (e e' : Engine F) (i : ℕ) (entry : LogEntry)
      → replay_entry e i entry ≡ ok e'
      → str_eq entry.action_type action_type_tick ≡ true
      → (tick e ≡ ok e') × (entry ≡ tick_entry (i + 1))
  unfolding replay_entry
  replay_entry-tick_inv e e' i entry h t = ground (arith, eq_iff entry.action_type action_type_tick)

  replay_entry-player_inv :
      (e e' : Engine F) (i : ℕ) (entry : LogEntry)
      → replay_entry e i entry ≡ ok e'
      → str_eq entry.action_type action_type_tick ≡ false
      → (replay_player e entry.action_key entry.client_request_id ≡ ok e')
        × (entry.seq ≡ i + 1)
        × (entry.action_type ≡ action_type_player)
  unfolding replay_entry
  replay_entry-player_inv e e' i entry h t =
      ground (arith, eq_iff entry.action_type action_type_player)

  -- An accepted entry is a tick or an action, numbered by its position.
  pub replay_entry-inv :
      (e e' : Engine F) (i : ℕ) (entry : LogEntry)
      → replay_entry e i entry ≡ ok e'
      → ((tick e ≡ ok e') × (entry ≡ tick_entry (i + 1)))
        ⊎ ((key : String) × (req : String) × (apply_action e key (some req) ≡ ok e')
            × (entry ≡ player_entry (i + 1) key req))
  replay_entry-inv e e' i entry h = elim (Bool-cases (str_eq entry.action_type action_type_tick)) [
    | inl t ↦ inl (replay_entry-tick_inv e e' i entry h t)
    | inr t ↦
        let (p, n, k) = replay_entry-player_inv e e' i entry h t in
        let (key, req, a, b, c) =
          replay_player-inv e e' entry.action_key entry.client_request_id p in
        inr (key, req, c, ground arith)
  ]

  step-Reach :
      {spec : SimulationSpec F} (e e' : Engine F) (i : ℕ) (entry : LogEntry)
      → Reach spec e
      → i ≡ length e.log
      → replay_entry e i entry ≡ ok e'
      → Reach spec e' × (e'.log ≡ e.log ++ entry ∷ [])
  step-Reach e e' i entry r n h = elim (replay_entry-inv e e' i entry h) [
    | inl (t, p) ↦ (
      ticked r t,
      (tick-IsTick e e' t).log ∙ ap (λ x. e.log ++ x ∷ []) (ground (arith, Reach-next_seq r)),
    )
    | inr (key, req, a, p) ↦ (
      acted r key req a,
      (apply_action-IsAction e e' key req a).log
          ∙ ap (λ x. e.log ++ x ∷ []) (ground (arith, Reach-next_seq r)),
    )
  ]

  replay_from-Reach :
      {spec : SimulationSpec F} (e e' : Engine F) (i : ℕ) (log : List LogEntry)
      → Reach spec e
      → i ≡ length e.log
      → replay_from e i log ≡ ok e'
      → Reach spec e' × (e'.log ≡ e.log ++ log)
  unfolding replay_from
  replay_from-Reach {spec} e e' i [] r n h =
      let p : e ≡ e' = ground arith in
      (subst (Reach spec) p r, ap (λ (x : Engine F). x.log) (sym p) ∙ sym (append-nil e.log))
  replay_from-Reach e e' i (x ∷ xs) r n h =
      let (m, k, q) = head_of-ok _ (replay_entry e i x) h in
      let (rm, lm) = step-Reach e m i x r n q in
      let (re, le) =
        replay_from-Reach m e' (suc i) xs rm
          (omega (arith, ap length lm, length-append e.log (x ∷ []))) k in
      (re, le ∙ ap (λ l. l ++ xs) lm ∙ append_assoc e.log (x ∷ []) xs)

  -- If `Replay` accepts a log, the engine that it returns is one that ticks and actions reach from a
  -- new engine, and the log of that engine is the log that was replayed.
  pub replay-Reach :
      (spec : SimulationSpec F) (e : Engine F) (log : List LogEntry)
      → replay spec log ≡ ok e
      → Reach spec e × (e.log ≡ log)
  unfolding replay new_engine
  replay-Reach spec e log h = replay_from-Reach (new_engine spec) e 0 log started refl h
