-- ===== src/Runtime/Poison.antt =====
-- `ApplyAction` of cmd/engine-a/runtime.go for an action that the room does not have.
use sys_escape.Prelude.{
  ℕ, suc, ◌≡◌, refl, ap, ◌∙◌, false, List, ◌∷◌, ◌++◌, none, some, String, arith, length,
  length-append, map, ok, err, is_some,
}
use mathlib.Core.List.{map-append}
use sys_escape.Prelude.Assoc.{lookup}
use sys_escape.Sim.Types.{Float64, SimulationSpec, SimError, unknown_action, Engine}
use sys_escape.Sim.Engine.{replay, replay_entry, apply_action}
use sys_escape.Sim.Calls.{player_entry}
use sys_escape.Sim.Replay.{replay-refused, replay_entry-refused}
use sys_escape.Store.Tables.{Run, RunAction, rows_of}
use sys_escape.Store.RunRepo.{Generated, append_action, insert_action, quiet}
use sys_escape.Store.Numbering.{IsNumbered, append_action-row}
use sys_escape.Store.Dedup.{insert_action-Answers}
use sys_escape.Store.Outcomes.{insert_action-next}
use sys_escape.Runtime.State.{RunState, sim_error, to_log_entry, restore, open_state}
use sys_escape.Ws.Messages.{ApplyActionInput}
use sys_escape.Runtime.Calls.{player_input, catch_up, apply_recorded, run_apply_action}
use sys_escape.Runtime.Synced.{Synced, log_of, length-log_of, rows_of-split}
use sys_escape.Runtime.Actions.{Synced-spec, run_apply_action-row}
use sys_escape.Runtime.Restart.{open_state-rows}

module _ {F : Type 0} where
  apply_action-unknown :
      (e : Engine F) (key req : String)
      → e.won ≡ false
      → is_some (lookup key e.spec.action_effects) ≡ false
      → apply_action e key (some req) ≡ err unknown_action
  unfolding apply_action
  apply_action-unknown e key req h k = ground arith

  apply_recorded-refused :
      (now : ℕ) (s : RunState F) (input : ApplyActionInput) (row : RunAction) (x : SimError)
      → row.seq ≡ suc s.last_seq
      → apply_action s.engine input.action_key (some input.client_request_id) ≡ err x
      → apply_recorded now s input row ≡ (err (sim_error x), s)
  unfolding apply_recorded catch_up
  apply_recorded-refused now s input row x h p = ground arith

module _ {F : Type 0} ⦃fp : Float64 F⦄ where
  restore-refused :
      (spec : SimulationSpec F) (run : ℕ) (rows : List RunAction) (x : SimError)
      → replay spec (map to_log_entry rows) ≡ err x
      → restore run spec rows ≡ err (sim_error x)
  unfolding restore
  restore-refused spec run rows x h = rw h

  row_refused :
      (spec : SimulationSpec F) (t others : List RunAction) (gen : Generated) (runs : List Run)
      (s : RunState F) (input : ApplyActionInput) (row : RunAction)
      → Synced spec t s
      → apply_action s.engine input.action_key (some input.client_request_id) ≡ err unknown_action
      → insert_action runs t t gen (player_input s.run_id input) ≡ ok row
      → replay spec (log_of s.run_id (t ++ row ∷ others)) ≡ err unknown_action
  unfolding to_log_entry
  row_refused spec t others gen runs s input row v refused h =
      let answers = (insert_action-Answers runs t t gen (player_input s.run_id input) row h).0 in
      let next = insert_action-next t runs gen (player_input s.run_id input) row v.numbered h in
      let entry : to_log_entry row ≡ player_entry row.seq input.action_key input.client_request_id =
        ground (arith, answers) in
      ap (λ rs. replay spec (map to_log_entry rs))
        (rows_of-split s.run_id t others row answers.run_id)
      ∙ ap (replay spec)
          (map-append to_log_entry (rows_of s.run_id t) (row ∷ rows_of s.run_id others))
      ∙ replay-refused spec s.engine (log_of s.run_id t)
          (map to_log_entry (rows_of s.run_id others)) (to_log_entry row) unknown_action v.replayed
          (ap (replay_entry s.engine (length (log_of s.run_id t))) entry
            ∙ replay_entry-refused s.engine input.action_key input.client_request_id unknown_action
                row.seq (length (log_of s.run_id t)) refused
                (omega (arith, next, length-log_of s.run_id t)))

  -- An action that the room does not have is recorded before the engine refuses it: where a run in
  -- memory agrees with its log and is not over, and `AppendAction` records the action, the call returns
  -- the engine's error with the new row in the table, and from then on no load of the run succeeds,
  -- whatever further rows the table has.
  pub unknown_action_ends_run :
      (spec : SimulationSpec F) (t others : List RunAction) (runs later : List Run)
      (gen gen' : Generated) (now : ℕ) (s : RunState F) (input : ApplyActionInput) (row : RunAction)
      → Synced spec t s
      → s.terminal ≡ false
      → is_some (lookup input.action_key spec.action_effects) ≡ false
      → append_action (quiet t) runs gen (player_input s.run_id input) ≡ (ok row, some row)
      → IsNumbered (t ++ row ∷ others)
      → (run_apply_action (quiet t) runs gen now s input
          ≡ record { result = err (sim_error unknown_action); state = s; row = some row })
        × (open_state (quiet (t ++ row ∷ others)) later gen' s.run_id spec (t ++ row ∷ others)
            ≡ (err (sim_error unknown_action), none))
  unknown_action_ends_run spec t others runs later gen gen' now s input row v open_run missing p
        numbered =
      let won : s.engine.won ≡ false = ground (arith, v.ended) in
      let refused = apply_action-unknown s.engine input.action_key input.client_request_id won (
        ap (λ (sp : SimulationSpec F). is_some (lookup input.action_key sp.action_effects))
          (Synced-spec spec t s v)
        ∙ missing) in
      let h =
        append_action-row (quiet t) runs gen (player_input s.run_id input) t row refl
          (ap (λ r. r.1) p) in
      let next = insert_action-next t runs gen (player_input s.run_id input) row v.numbered h in
      let own = (insert_action-Answers runs t t gen (player_input s.run_id input) row h).0.run_id in
      let recorded =
        apply_recorded-refused now s input row unknown_action (omega (arith, next, v.counted))
          refused in
      (
        run_apply_action-row (quiet t) runs gen now s input row (some row) open_run p
            ∙ rw recorded refl,
        open_state-rows spec (t ++ row ∷ others) later gen' s.run_id numbered
              (rw (rows_of-split s.run_id t others row own, length-append) (omega arith))
            ∙ ap (λ r. (r, none))
                (restore-refused spec s.run_id _ unknown_action
                  (row_refused spec t others gen runs s input row v refused h)),
      )
