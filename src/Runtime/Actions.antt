-- ===== src/Runtime/Actions.antt =====
-- `ApplyAction` of cmd/engine-a/runtime.go on a run in memory, for an action of the room.
use sys_escape.Prelude.{
  ℕ, suc, ◌≤◌, ◌≡◌, refl, sym, ap, ◌∙◌, subst, inl, inr, true, false, List, ◌∷◌, [], ◌++◌, Option,
  none, some, String, arith, length, ok, err, Result-cases, Bool-cases, is_some,
}
use sys_escape.Prelude.Assoc.{lookup}
use sys_escape.Sim.Types.{Float64, SimulationSpec, Engine}
use sys_escape.Sim.Engine.{replay_entry, apply_action}
use sys_escape.Sim.Calls.{player_entry, apply_action-IsAction}
use sys_escape.Sim.Replay.{replay-Reach, replay_entry-player}
use sys_escape.Sim.Runs.{Reach-keys}
use sys_escape.Store.Tables.{Run, RunAction, rows_of}
use sys_escape.Store.RunRepo.{
  Generated, Schedule, append_action, insert_action, quiet, committed, RepoError,
}
use sys_escape.Store.Dedup.{insert_action-Answers}
use sys_escape.Store.Outcomes.{append_action-Appended, insert_action-next, seq-le}
use sys_escape.Runtime.State.{
  RunState, run_completed, repo_error, to_log_entry, ensure_tick_loop_locked,
}
use sys_escape.Ws.Messages.{ApplyActionInput}
use sys_escape.Runtime.Calls.{player_input, catch_up, acknowledge, apply_recorded, run_apply_action}
use sys_escape.Runtime.Synced.{Synced, log_of}
use sys_escape.Runtime.Keeps.{SameRun, Synced-same, Synced-grows, IsKept}

acknowledge-SameRun :
    {F : Type 0} (now : ℕ) (action : RunAction) (s : RunState F)
    → SameRun s (acknowledge now action s).1 × ((acknowledge now action s).1.terminal ≡ s.terminal)
unfolding acknowledge ensure_tick_loop_locked
acknowledge-SameRun now action s = ground arith

-- The four ways through `ApplyAction`.
module _ {F : Type 0} (db : Schedule) (runs : List Run) (gen : Generated) (now : ℕ) (s : RunState F)
    (input : ApplyActionInput) where
  pub run_apply_action-over :
      s.terminal ≡ true
      → run_apply_action db runs gen now s input
        ≡ record { result = err run_completed; state = s; row = none }
  unfolding run_apply_action
  run_apply_action-over h = ground arith

  pub run_apply_action-failed :
      (e : RepoError)
      → s.terminal ≡ false
      → append_action db runs gen (player_input s.run_id input) ≡ (err e, none)
      → run_apply_action db runs gen now s input
        ≡ record { result = err (repo_error e); state = s; row = none }
  unfolding run_apply_action
  run_apply_action-failed e h p = ground arith

  pub run_apply_action-row :
      (row : RunAction) (new : Option RunAction)
      → s.terminal ≡ false
      → append_action db runs gen (player_input s.run_id input) ≡ (ok row, new)
      → run_apply_action db runs gen now s input ≡ record {
        result = (apply_recorded now s input row).0;
        state = (apply_recorded now s input row).1;
        row = new;
      }
  unfolding run_apply_action
  run_apply_action-row row new h p = ground arith

module _ {F : Type 0} where
  apply_action-total :
      (e : Engine F) (key req : String)
      → e.won ≡ false
      → is_some (lookup key e.spec.action_effects) ≡ true
      → (e' : Engine F) × (apply_action e key (some req) ≡ ok e')
  unfolding apply_action
  apply_action-total e key req h k = elim (Result-cases (apply_action e key (some req))) [
    | inl (e', p) ↦ (e', p)
    | inr (x, p) ↦ absurd (ground arith)
  ]

  -- A row that the engine has taken already changes neither the engine nor the last number.
  apply_recorded-old :
      (now : ℕ) (s : RunState F) (input : ApplyActionInput) (row : RunAction)
      → row.seq ≤ s.last_seq
      → (apply_recorded now s input row).1 ≡ (acknowledge now row s).1
  unfolding apply_recorded catch_up
  apply_recorded-old now s input row h = ground arith

  apply_recorded-new :
      (now : ℕ) (s : RunState F) (input : ApplyActionInput) (row : RunAction) (e' : Engine F)
      → row.seq ≡ suc s.last_seq
      → apply_action s.engine input.action_key (some input.client_request_id) ≡ ok e'
      → (apply_recorded now s input row).1
        ≡ (acknowledge now row (record s { engine = e'; last_seq = row.seq })).1
  unfolding apply_recorded catch_up
  apply_recorded-new now s input row e' h p = ground arith

module _ {F : Type 0} ⦃fp : Float64 F⦄ where
  pub Synced-spec :
      (spec : SimulationSpec F) (t : List RunAction) (s : RunState F)
      → Synced spec t s
      → s.engine.spec ≡ spec
  Synced-spec spec t s v =
      (Reach-keys (replay-Reach spec s.engine (log_of s.run_id t) v.replayed).0).0

  apply_recorded-added :
      (spec : SimulationSpec F) (t : List RunAction) (runs : List Run) (gen : Generated) (now : ℕ)
      (s : RunState F) (input : ApplyActionInput) (row : RunAction)
      → Synced spec t s
      → s.terminal ≡ false
      → is_some (lookup input.action_key spec.action_effects) ≡ true
      → insert_action runs t t gen (player_input s.run_id input) ≡ ok row
      → Synced spec (t ++ row ∷ []) (apply_recorded now s input row).1
  unfolding to_log_entry
  apply_recorded-added spec t runs gen now s input row v open_run known h =
      let won : s.engine.won ≡ false = ground (arith, v.ended) in
      let (e', applies) = apply_action-total s.engine input.action_key input.client_request_id won (
        ap (λ (sp : SimulationSpec F). is_some (lookup input.action_key sp.action_effects))
          (Synced-spec spec t s v)
        ∙ known) in
      let done =
        apply_action-IsAction s.engine e' input.action_key input.client_request_id applies in
      let s₁ : RunState F = record s { engine = e'; last_seq = row.seq } in
      let (same, over) = acknowledge-SameRun now row s₁ in
      let answers = (insert_action-Answers runs t t gen (player_input s.run_id input) row h).0 in
      let next = insert_action-next t runs gen (player_input s.run_id input) row v.numbered h in
      let entry : to_log_entry row ≡ player_entry row.seq input.action_key input.client_request_id =
        ground (arith, answers) in
      let fresh : row.seq ≡ suc s.last_seq = omega (arith, next, v.counted) in
      subst (Synced spec (t ++ row ∷ []))
        (sym (apply_recorded-new now s input row e' fresh applies))
        (Synced-grows spec t s _ runs gen (player_input s.run_id input) row e' v refl h
          (ap (replay_entry s.engine (length (rows_of s.run_id t))) entry
            ∙ replay_entry-player s.engine e' input.action_key input.client_request_id applies
                row.seq (length (rows_of s.run_id t)) (omega (arith, next)))
          same (ground (arith, over, v.ended, done)))

  -- `ApplyAction` for an action that the room has, with no other transaction near, keeps the run in
  -- memory equal to the replay of its log: if the two agree before the call, they agree after it,
  -- whether the action is new, was recorded before, conflicts with an earlier one, comes after the end
  -- of the run, or fails in the database.
  pub run_apply_action-Synced :
      (spec : SimulationSpec F) (t : List RunAction) (runs : List Run) (gen : Generated) (now : ℕ)
      (s : RunState F) (input : ApplyActionInput)
      → Synced spec t s
      → is_some (lookup input.action_key spec.action_effects) ≡ true
      → let o = run_apply_action (quiet t) runs gen now s input in
        Synced spec (committed t o.row) o.state
  run_apply_action-Synced spec t runs gen now s input v known = elim (Bool-cases s.terminal) [
    | inl over ↦
        subst (IsKept spec t) (sym (run_apply_action-over (quiet t) runs gen now s input over)) v
    | inr open_run ↦ elim (append_action-Appended t runs gen (player_input s.run_id input)) [
      | inl (row, h, p) ↦
          subst (IsKept spec t)
            (sym (run_apply_action-row (quiet t) runs gen now s input row (some row) open_run p))
            (apply_recorded-added spec t runs gen now s input row v open_run known h)
      | inr (inl (row, req, seen, q, p)) ↦
          let old =
            apply_recorded-old now s input row
              (omega (arith, v.counted, seq-le t s.run_id 0 req row (v.numbered s.run_id) seen)) in
          let (same, still) = acknowledge-SameRun now row s in
          subst (IsKept spec t)
            (sym (run_apply_action-row (quiet t) runs gen now s input row none open_run p))
            (subst (Synced spec t) (sym old) (Synced-same spec t s _ v same still))
      | inr (inr (e, p)) ↦
          subst (IsKept spec t)
            (sym (run_apply_action-failed (quiet t) runs gen now s input e open_run p)) v
    ]
  ]
