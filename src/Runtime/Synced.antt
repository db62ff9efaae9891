-- ===== src/Runtime/Synced.antt =====
-- A run in memory agrees with its log in Postgres (cmd/engine-a/runtime.go).
use mathlib.Core.Bool.{◌||◌}
use mathlib.Core.List.{map-append}
use sys_escape.Prelude.{
  ℕ, suc, ◌≡◌, ap, ◌∙◌, List, [], ◌∷◌, ◌++◌, map, arith, length, length-append, length-map,
  select-append, ok, ◌==◌,
}
use sys_escape.Sim.Types.{Float64, SimulationSpec, LogEntry, Engine}
use sys_escape.Sim.Engine.{replay, replay_entry}
use sys_escape.Sim.Replay.{replay-snoc}
use sys_escape.Store.Tables.{RunAction, rows_of}
use sys_escape.Store.Numbering.{IsNumbered}
use sys_escape.Runtime.State.{RunState, to_log_entry, timed_out}

-- The log entries of a run in the table, in the order of their numbers.
abbrev pub log_of : ℕ → List RunAction → List LogEntry
log_of run t = map to_log_entry (rows_of run t)

-- The engine is what its log replays to, the last number counts the log, and the run is over exactly
-- when it is won or its time is up.
pub record Synced {F : Type 0} ⦃fp : Float64 F⦄ (spec : SimulationSpec F) (t : List RunAction)
    (s : RunState F) : Type 0 where
  pub numbered : IsNumbered t
  pub replayed : replay spec (log_of s.run_id t) ≡ ok s.engine
  pub counted : s.last_seq ≡ length (rows_of s.run_id t)
  pub limited : s.duration_ticks ≡ spec.duration_ticks
  pub ended : s.terminal ≡ (s.engine.won || timed_out s.duration_ticks s.engine.tick)

pub rows_of-own :
    (t : List RunAction) (row : RunAction)
    → rows_of row.run_id (t ++ row ∷ []) ≡ rows_of row.run_id t ++ row ∷ []
rows_of-own t row =
    select-append (λ a. a.run_id == row.run_id) t (row ∷ [])
    ∙ ap (λ rs. rows_of row.run_id t ++ rs) (ground arith)

pub rows_of-split :
    (run : ℕ) (t others : List RunAction) (row : RunAction)
    → row.run_id ≡ run
    → rows_of run (t ++ row ∷ others) ≡ rows_of run t ++ row ∷ rows_of run others
rows_of-split run t others row h =
    select-append (λ a. a.run_id == run) t (row ∷ others)
    ∙ ap (λ rs. rows_of run t ++ rs) (ground arith)

pub length-log_of : (run : ℕ) (t : List RunAction) → length (log_of run t) ≡ length (rows_of run t)
length-log_of run t = length-map to_log_entry (rows_of run t)

module _ {F : Type 0} ⦃fp : Float64 F⦄ where
  -- One more row of the run, which the engine takes.
  pub Synced-row :
      (spec : SimulationSpec F) (t : List RunAction) (row : RunAction) (e e' : Engine F)
      → replay spec (log_of row.run_id t) ≡ ok e
      → replay_entry e (length (rows_of row.run_id t)) (to_log_entry row) ≡ ok e'
      → (replay spec (log_of row.run_id (t ++ row ∷ [])) ≡ ok e')
        × (length (rows_of row.run_id (t ++ row ∷ [])) ≡ suc (length (rows_of row.run_id t)))
  Synced-row spec t row e e' h k =
      let own = rows_of-own t row in
      (
        ap (replay spec) (
              ap (map to_log_entry) own ∙ map-append to_log_entry (rows_of row.run_id t) (row ∷ []))
            ∙ replay-snoc spec e e' (log_of row.run_id t) (to_log_entry row) h
                (ap (λ n. replay_entry e n (to_log_entry row)) (length-log_of row.run_id t) ∙ k),
        ap length own ∙ omega (arith, length-append (rows_of row.run_id t) (row ∷ [])),
      )
