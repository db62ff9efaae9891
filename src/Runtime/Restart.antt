-- ===== src/Runtime/Restart.antt =====
-- Loading a run that is not in memory: `state` of cmd/engine-a/runtime.go.
use mathlib.Core.Bool.{◌||◌}
use sys_escape.Prelude.{
  ℕ, suc, ◌+◌, ◌<◌, ◌≡◌, refl, sym, ap, ◌∙◌, ◌⊎◌, subst, inl, inr, List, ◌∷◌, [], ◌++◌, Option,
  none, some, arith, length, map, ok, err, Result-cases,
}
use sys_escape.Sim.Types.{Float64, SimulationSpec, Engine}
use sys_escape.Sim.Engine.{replay}
use sys_escape.Store.Tables.{Run, RunAction, rows_of, run_action_type_tick}
use sys_escape.Store.RunRepo.{Generated, Schedule, list_actions, quiet, committed}
use sys_escape.Store.Numbering.{IsNumbered, Numbered, order_by_seq-Numbered}
use sys_escape.Store.Dedup.{insert_action-Answers}
use sys_escape.Store.Outcomes.{append_action-Appended, insert_action-IsNumbered}
use sys_escape.Runtime.State.{
  RunState, repo_error, to_log_entry, timed_out, last_seq_of, new_run_state, restore, open_state,
  first_actions, tick_input,
}
use sys_escape.Runtime.Synced.{Synced, log_of, rows_of-own}
use sys_escape.Runtime.Keeps.{SameRun}

last_seq_of-Numbered :
    (n : ℕ) (rows : List RunAction) → Numbered n rows → last_seq_of n rows ≡ n + length rows
unfolding last_seq_of
last_seq_of-Numbered n [] h = omega arith
last_seq_of-Numbered n (a ∷ rest) h = ground (arith, h.0, last_seq_of-Numbered (suc n) rest h.1)

pub list_actions-Numbered :
    (t : List RunAction) (run : ℕ) → IsNumbered t → list_actions t run ≡ rows_of run t
unfolding list_actions
list_actions-Numbered t run h = order_by_seq-Numbered 0 (rows_of run t) (h run)

pair_eq :
    {A B : Type 0} {a a' : A} {b b' : B} → ◌≡◌ {A = A × B} (a, b) (a', b') → (a ≡ a') × (b ≡ b')
pair_eq h = (ap (λ p. p.0) h, ap (λ p. p.1) h)

rows-cases : (rows : List RunAction) → (rows ≡ []) ⊎ (0 < length rows)
rows-cases [] = inl refl
rows-cases (a ∷ rest) = inr (omega arith)

first_actions-rows :
    (db : Schedule) (runs : List Run) (gen : Generated) (run : ℕ) (rows : List RunAction)
    → 0 < length rows
    → first_actions db runs gen run rows ≡ (ok rows, none)
unfolding first_actions
first_actions-rows db runs gen run [] h = absurd (omega arith)
first_actions-rows db runs gen run (a ∷ rest) h = refl

pub record IsFirstTick (run : ℕ) (row : RunAction) : Type 0 where
  pub run_id : row.run_id ≡ run
  pub is_tick : row.action_type ≡ run_action_type_tick
  pub is_first : row.seq ≡ 1

-- The row that loading adds to a run with the given rows.
abbrev pub Started : List RunAction → ℕ → Option RunAction → Type 0
Started [] run new = (row : RunAction) × (new ≡ some row) × IsFirstTick run row
Started (a ∷ rows) run new = new ≡ none

Started-empty :
    (rows : List RunAction) (run : ℕ) (row : RunAction) (new : Option RunAction)
    → rows ≡ []
    → new ≡ some row
    → IsFirstTick run row
    → Started rows run new
Started-empty [] run row new e h k = (row, h, k)
Started-empty (a ∷ rows) run row new e h k = absurd (ground arith)

Started-rows :
    (rows : List RunAction) (run : ℕ) (new : Option RunAction)
    → 0 < length rows
    → new ≡ none
    → Started rows run new
Started-rows [] run new h k = absurd (omega arith)
Started-rows (a ∷ rows) run new h k = k

module _ {F : Type 0} ⦃fp : Float64 F⦄ where
  -- A state built from rows and an engine that they replay to.
  new_run_state-Synced :
      (spec : SimulationSpec F) (t : List RunAction) (run : ℕ) (e : Engine F)
      → IsNumbered t
      → replay spec (log_of run t) ≡ ok e
      → Synced spec t (new_run_state run spec (rows_of run t) e)
  unfolding new_run_state
  new_run_state-Synced spec t run e h r = record {
    numbered = h;
    replayed = r;
    counted = last_seq_of-Numbered 0 (rows_of run t) (h run) ∙ omega arith;
    limited = refl;
    ended = refl;
  }

  restore-eq :
      (spec : SimulationSpec F) (run : ℕ) (rows : List RunAction) (e : Engine F)
      → replay spec (map to_log_entry rows) ≡ ok e
      → restore run spec rows ≡ ok (new_run_state run spec rows e)
  unfolding restore
  restore-eq spec run rows e h = rw h

  restore-inv :
      (spec : SimulationSpec F) (run : ℕ) (rows : List RunAction) (s : RunState F)
      → restore run spec rows ≡ ok s
      → (e : Engine F) × (replay spec (map to_log_entry rows) ≡ ok e)
        × (s ≡ new_run_state run spec rows e)
  unfolding restore
  restore-inv spec run rows s h = elim (Result-cases (replay spec (map to_log_entry rows))) [
    | inl (e, p) ↦ (e, p, ground arith)
    | inr (x, p) ↦ absurd (ground arith)
  ]

  pub open_state-rows :
      (spec : SimulationSpec F) (t : List RunAction) (runs : List Run) (gen : Generated) (run : ℕ)
      → IsNumbered t
      → 0 < length (rows_of run t)
      → open_state (quiet t) runs gen run spec t ≡ (restore run spec (rows_of run t), none)
  unfolding open_state
  open_state-rows spec t runs gen run numbered h =
      rw
        (
          list_actions-Numbered t run numbered,
          first_actions-rows (quiet t) runs gen run (rows_of run t) h,
        )
        refl

  -- A run that is dropped from memory comes back as it was: where a run in memory agrees with its log
  -- and the log is not empty, loading it again adds no row and gives the same engine, last number and
  -- time limit, and the run is over exactly if it was.
  pub open_state_again :
      (spec : SimulationSpec F) (t : List RunAction) (runs : List Run) (gen : Generated)
      (s : RunState F)
      → Synced spec t s
      → 0 < s.last_seq
      → (s' : RunState F) × (open_state (quiet t) runs gen s.run_id spec t ≡ (ok s', none))
        × SameRun s s'
        × (s'.terminal ≡ s.terminal)
  unfolding new_run_state
  open_state_again spec t runs gen s v h =
      let rows = rows_of s.run_id t in
      let again = new_run_state-Synced spec t s.run_id s.engine v.numbered v.replayed in
      (
        new_run_state s.run_id spec rows s.engine,
        open_state-rows spec t runs gen s.run_id v.numbered (omega (arith, v.counted, h))
            ∙ ap (λ r. (r, none)) (restore-eq spec s.run_id rows s.engine v.replayed),
        record {
          run_id = refl;
          engine = refl;
          last_seq = again.counted ∙ sym v.counted;
          duration_ticks = sym v.limited;
        },
        ap (λ d. s.engine.won || timed_out d s.engine.tick) (sym v.limited) ∙ sym v.ended,
      )

  restored-Synced :
      (spec : SimulationSpec F) (t : List RunAction) (run : ℕ) (s : RunState F)
      → IsNumbered t
      → restore run spec (rows_of run t) ≡ ok s
      → Synced spec t s
  restored-Synced spec t run s numbered h =
      let (e, replayed, same) = restore-inv spec run (rows_of run t) s h in
      subst (Synced spec t) (sym same) (new_run_state-Synced spec t run e numbered replayed)

  -- An empty run starts with one tick.
  open_state-first :
      (spec : SimulationSpec F) (t : List RunAction) (runs : List Run) (gen : Generated) (run : ℕ)
      (s : RunState F) (new : Option RunAction)
      → IsNumbered t
      → rows_of run t ≡ []
      → open_state (quiet t) runs gen run spec t ≡ (ok s, new)
      → Synced spec (committed t new) s × (row : RunAction) × (new ≡ some row) × IsFirstTick run row
  unfolding open_state first_actions
  open_state-first spec t runs gen run s new numbered empty h =
      let none_listed : list_actions t run ≡ [] = list_actions-Numbered t run numbered ∙ empty in
      elim (append_action-Appended t runs gen (tick_input run)) [
        | inl (row, ins, p) ↦
            let own : row.run_id ≡ run =
              (insert_action-Answers runs t t gen (tick_input run) row ins).0.run_id in
            let rows : rows_of run (t ++ row ∷ []) ≡ row ∷ [] =
              subst (λ r. rows_of r (t ++ row ∷ []) ≡ rows_of r t ++ row ∷ []) own
                (rows_of-own t row)
              ∙ ap (λ rs. rs ++ row ∷ []) empty in
            let loaded : open_state (quiet t) runs gen run spec t
                ≡ (restore run spec (row ∷ []), some row) =
              rw (none_listed, p) refl in
            let (restored, added) = pair_eq (sym loaded ∙ h) in
            (
              subst (λ o. Synced spec (committed t o) s) added
                  (restored-Synced spec (t ++ row ∷ []) run s
                    (insert_action-IsNumbered t runs gen (tick_input run) row numbered ins)
                    (ap (restore run spec) rows ∙ restored)),
              row,
              sym added,
              record {
                run_id = own;
                is_tick =
                    (insert_action-Answers runs t t gen (tick_input run) row ins).0.action_type;
                is_first =
                    (subst (Numbered 0) rows (
                      insert_action-IsNumbered t runs gen (tick_input run) row numbered ins run)).0;
              },
            )
        | inr (inl (row, req, seen, q, p)) ↦ absurd (ground arith)
        | inr (inr (e, p)) ↦
            let failed : open_state (quiet t) runs gen run spec t ≡ (err (repo_error e), none) =
              rw (none_listed, p) refl in
            absurd (ground (arith, pair_eq (sym failed ∙ h)))
      ]

  -- Loading makes the run agree with its log: from a table in which every run is numbered 1, 2, 3 and
  -- so on, a loaded run agrees with the table after the call. The call adds a row only where the run has
  -- none, and then just one, which is a tick of the run with number 1.
  pub open_state-Synced :
      (spec : SimulationSpec F) (t : List RunAction) (runs : List Run) (gen : Generated) (run : ℕ)
      (s : RunState F) (new : Option RunAction)
      → IsNumbered t
      → open_state (quiet t) runs gen run spec t ≡ (ok s, new)
      → Synced spec (committed t new) s × Started (rows_of run t) run new
  open_state-Synced spec t runs gen run s new numbered h = elim (rows-cases (rows_of run t)) [
    | inl empty ↦
        let (synced, row, is_new, first) =
          open_state-first spec t runs gen run s new numbered empty h in
        (synced, Started-empty (rows_of run t) run row new empty is_new first)
    | inr some_rows ↦
        let loaded = open_state-rows spec t runs gen run numbered some_rows in
        let (restored, added) = pair_eq (sym loaded ∙ h) in
        (
          subst (λ o. Synced spec (committed t o) s) added
              (restored-Synced spec t run s numbered restored),
          Started-rows (rows_of run t) run new some_rows (sym added),
        )
  ]
