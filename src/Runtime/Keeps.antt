-- ===== src/Runtime/Keeps.antt =====
-- The calls of cmd/engine-a/runtime.go keep a run in memory equal to the replay of its log.
use mathlib.Core.Bool.{◌||◌}
use mathlib.Core.Path.{ap₂}
use sys_escape.Prelude.{
  ℕ, suc, ◌≡◌, refl, sym, ap, ◌∙◌, subst, inl, inr, Bool, true, false, List, [], ◌∷◌, ◌++◌, Option,
  none, some, arith, length, ok, err, Result-cases, Bool-cases,
}
use sys_escape.Sim.Types.{Float64, SimulationSpec, Engine}
use sys_escape.Sim.Engine.{replay, replay_entry, tick}
use sys_escape.Sim.Calls.{tick_entry}
use sys_escape.Sim.Replay.{replay_entry-tick}
use sys_escape.Store.Tables.{Run, RunAction, rows_of}
use sys_escape.Store.RunRepo.{
  AppendActionInput, Generated, Schedule, append_action, insert_action, quiet, committed, RepoError,
}
use sys_escape.Store.Numbering.{IsNumbered}
use sys_escape.Store.Dedup.{insert_action-Answers}
use sys_escape.Store.Outcomes.{append_action-Appended, insert_action-next, insert_action-IsNumbered}
use sys_escape.Runtime.State.{RunState, to_log_entry, timed_out, tick_input}
use sys_escape.Runtime.Calls.{
  Outcome, stops, goes_on, before, finish_run, settle, tick_recorded, tick_round,
}
use sys_escape.Runtime.Synced.{Synced, log_of, Synced-row}

-- What `Synced` reads of a state, but for the end of the run.
pub record SameRun {F : Type 0} (s s' : RunState F) : Type 0 where
  pub run_id : s'.run_id ≡ s.run_id
  pub engine : s'.engine ≡ s.engine
  pub last_seq : s'.last_seq ≡ s.last_seq
  pub duration_ticks : s'.duration_ticks ≡ s.duration_ticks

abbrev pub is_over : {F : Type 0} → RunState F → Bool
is_over s = s.engine.won || timed_out s.duration_ticks s.engine.tick

settle-SameRun :
    {F : Type 0} (s : RunState F)
    → s.terminal ≡ false
    → SameRun s (settle s).1 × ((settle s).1.terminal ≡ is_over s)
unfolding settle finish_run
settle-SameRun s h = ground arith

module _ {F : Type 0} ⦃fp : Float64 F⦄ where
  tick-total : (e : Engine F) → e.won ≡ false → (e' : Engine F) × (tick e ≡ ok e')
  unfolding tick
  tick-total e h = elim (Result-cases (tick e)) [
    | inl (e', p) ↦ (e', p)
    | inr (x, p) ↦ absurd (ground arith)
  ]

  pub Synced-SameRun :
      (spec : SimulationSpec F) (t : List RunAction) (s s' : RunState F)
      → IsNumbered t
      → replay spec (log_of s.run_id t) ≡ ok s.engine
      → s.last_seq ≡ length (rows_of s.run_id t)
      → s.duration_ticks ≡ spec.duration_ticks
      → SameRun s s'
      → s'.terminal ≡ is_over s
      → Synced spec t s'
  Synced-SameRun spec t s s' numbered replayed counted limited same over = record {
    numbered = numbered;
    replayed = ap (λ r. replay spec (log_of r t)) same.run_id ∙ replayed ∙ ap ok (sym same.engine);
    counted = same.last_seq ∙ counted ∙ ap (λ r. length (rows_of r t)) (sym same.run_id);
    limited = same.duration_ticks ∙ limited;
    ended =
        over
        ∙ ap₂ (λ (e : Engine F) d. e.won || timed_out d e.tick) (sym same.engine)
            (sym same.duration_ticks);
  }

  -- A state that differs in what `Synced` does not read.
  pub Synced-same :
      (spec : SimulationSpec F) (t : List RunAction) (s s' : RunState F)
      → Synced spec t s
      → SameRun s s'
      → s'.terminal ≡ s.terminal
      → Synced spec t s'
  Synced-same spec t s s' v same e =
      Synced-SameRun spec t s s' v.numbered v.replayed v.counted v.limited same (e ∙ v.ended)

  -- The engine and the table take one more row together.
  pub Synced-grows :
      (spec : SimulationSpec F) (t : List RunAction) (s s' : RunState F) (runs : List Run)
      (gen : Generated) (input : AppendActionInput) (row : RunAction) (e' : Engine F)
      → Synced spec t s
      → input.run_id ≡ s.run_id
      → insert_action runs t t gen input ≡ ok row
      → replay_entry s.engine (length (rows_of s.run_id t)) (to_log_entry row) ≡ ok e'
      → SameRun (record s { engine = e'; last_seq = row.seq }) s'
      → s'.terminal ≡ (e'.won || timed_out s.duration_ticks e'.tick)
      → Synced spec (t ++ row ∷ []) s'
  Synced-grows spec t s s' runs gen input row e' v own h k same over =
      let answers = (insert_action-Answers runs t t gen input row h).0 in
      let run : row.run_id ≡ s.run_id = answers.run_id ∙ own in
      let grown =
        Synced-row spec t row s.engine e' (ap (λ r. replay spec (log_of r t)) run ∙ v.replayed)
          (ap (λ r. replay_entry s.engine (length (rows_of r t)) (to_log_entry row)) run ∙ k) in
      let next =
        insert_action-next t runs gen input row v.numbered h
        ∙ ap (λ r. suc (length (rows_of r t))) (own ∙ sym run)
        ∙ sym grown.1
        ∙ ap (λ r. length (rows_of r (t ++ row ∷ []))) run in
      Synced-SameRun spec (t ++ row ∷ []) (record s { engine = e'; last_seq = row.seq }) s'
        (insert_action-IsNumbered t runs gen input row v.numbered h)
        (ap (λ r. replay spec (log_of r (t ++ row ∷ []))) (sym run) ∙ grown.0) next v.limited same
        over

  -- The table and the state after a call agree.
  abbrev pub IsKept : {R : Type 0} → SimulationSpec F → List RunAction → Outcome R F → Type 0
  IsKept spec t o = Synced spec (committed t o.row) o.state

  tick_round-added :
      (spec : SimulationSpec F) (t : List RunAction) (runs : List Run) (gen : Generated) (now : ℕ)
      (s : RunState F) (row : RunAction)
      → Synced spec t s
      → s.terminal ≡ false
      → insert_action runs t t gen (tick_input s.run_id) ≡ ok row
      → Synced spec (t ++ row ∷ []) (tick_recorded s row).1
  unfolding tick_recorded to_log_entry
  tick_round-added spec t runs gen now s row v open_run h =
      let won : s.engine.won ≡ false = ground (arith, v.ended) in
      let (e', ticks) = tick-total s.engine won in
      let (same, over) = settle-SameRun (record s { engine = e'; last_seq = row.seq }) open_run in
      let answers = (insert_action-Answers runs t t gen (tick_input s.run_id) row h).0 in
      let next = insert_action-next t runs gen (tick_input s.run_id) row v.numbered h in
      let entry : to_log_entry row ≡ tick_entry row.seq = ground (arith, answers) in
      let recorded : (tick_recorded s row).1
          ≡ (settle (record s { engine = e'; last_seq = row.seq })).1 =
        ground (arith, ticks) in
      subst (Synced spec (t ++ row ∷ [])) (sym recorded) (
        Synced-grows spec t s _ runs gen (tick_input s.run_id) row e' v refl h
          (ap (replay_entry s.engine (length (rows_of s.run_id t))) entry
            ∙ replay_entry-tick s.engine e' ticks row.seq (length (rows_of s.run_id t))
                (omega (arith, next)))
          same over)

  -- The four ways through a round.
  tick_round-over :
      (db : Schedule) (runs : List Run) (gen : Generated) (now : ℕ) (s : RunState F)
      → s.terminal ≡ true
      → tick_round db runs gen now s
        ≡ record { result = stops; state = record s { tick_started = false }; row = none }
  unfolding tick_round
  tick_round-over db runs gen now s h = ground arith

  tick_round-early :
      (db : Schedule) (runs : List Run) (gen : Generated) (now : ℕ) (s : RunState F)
      → s.terminal ≡ false
      → before now s.next_tick_at ≡ true
      → tick_round db runs gen now s ≡ record { result = goes_on; state = s; row = none }
  unfolding tick_round
  tick_round-early db runs gen now s h k = ground arith

  tick_round-row :
      (db : Schedule) (runs : List Run) (gen : Generated) (now : ℕ) (s : RunState F)
      (row : RunAction) (new : Option RunAction)
      → s.terminal ≡ false
      → before now s.next_tick_at ≡ false
      → append_action db runs gen (tick_input s.run_id) ≡ (ok row, new)
      → tick_round db runs gen now s
        ≡ record { result = (tick_recorded s row).0; state = (tick_recorded s row).1; row = new }
  unfolding tick_round
  tick_round-row db runs gen now s row new h k p = ground arith

  tick_round-failed :
      (db : Schedule) (runs : List Run) (gen : Generated) (now : ℕ) (s : RunState F) (e : RepoError)
      → s.terminal ≡ false
      → before now s.next_tick_at ≡ false
      → append_action db runs gen (tick_input s.run_id) ≡ (err e, none)
      → tick_round db runs gen now s
        ≡ record { result = stops; state = record s { tick_started = false }; row = none }
  unfolding tick_round
  tick_round-failed db runs gen now s e h k p = ground arith

  -- One round of the tick loop, at any time, with no other transaction near, keeps the run in memory
  -- equal to the replay of its log: if the two agree before the round, they agree after it, whether the
  -- round added a tick, waited, ended the run, or failed in the database.
  pub tick_round-Synced :
      (spec : SimulationSpec F) (t : List RunAction) (runs : List Run) (gen : Generated) (now : ℕ)
      (s : RunState F)
      → Synced spec t s
      → let o = tick_round (quiet t) runs gen now s in Synced spec (committed t o.row) o.state
  tick_round-Synced spec t runs gen now s v = elim (Bool-cases s.terminal) [
    | inl over ↦
        subst (IsKept spec t) (sym (tick_round-over (quiet t) runs gen now s over))
          (Synced-same spec t s (record s { tick_started = false }) v (ground arith) refl)
    | inr open_run ↦ elim (Bool-cases (before now s.next_tick_at)) [
      | inl early ↦
          subst (IsKept spec t) (sym (tick_round-early (quiet t) runs gen now s open_run early)) v
      | inr due ↦ elim (append_action-Appended t runs gen (tick_input s.run_id)) [
        | inl (row, h, p) ↦
            subst (IsKept spec t)
              (sym (tick_round-row (quiet t) runs gen now s row (some row) open_run due p))
              (tick_round-added spec t runs gen now s row v open_run h)
        | inr (inl (row, req, seen, q, p)) ↦ absurd (ground arith)
        | inr (inr (e, p)) ↦
            subst (IsKept spec t)
              (sym (tick_round-failed (quiet t) runs gen now s e open_run due p))
              (Synced-same spec t s (record s { tick_started = false }) v (ground arith) refl)
      ]
    ]
  ]
