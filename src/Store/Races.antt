-- ===== src/Store/Races.antt =====
-- Two appends to one run at the same time (`AppendAction` of internal/engine/a/repo/run_repo.go).
use sys_escape.Prelude.{
  ℕ, ◌+◌, ◌≡◌, refl, ap, ◌∙◌, true, List, ◌∷◌, ◌++◌, Option, none, some, String, arith,
  length-append, select-append, ok, err, Option-cases, inl, inr, ◌==◌,
}
use sys_escape.Store.Tables.{
  Run, RunAction, unique_violation, run_actions_seq_key, rows_of, has_seq, max_seq,
}
use sys_escape.Store.RunRepo.{
  AppendActionInput, Generated, Schedule, db_error, insert_action, get_action_by_client_request_id,
  is_dedup_violation, recover, append_new, append_action,
}
use sys_escape.Store.Numbering.{
  IsNumbered, Numbered, max_seq-length, has_seq-Numbered, Numbered-prefix,
}

-- The number that follows a snapshot is taken as soon as the run has one more row.
taken_number :
    (xs ys : List RunAction) (a : RunAction)
    → Numbered 0 (xs ++ a ∷ ys)
    → has_seq (max_seq xs + 1) (xs ++ a ∷ ys) ≡ true
taken_number xs ys a h =
    let n = max_seq-length xs (Numbered-prefix 0 xs (a ∷ ys) h) in
    has_seq-Numbered 0 (max_seq xs + 1) (xs ++ a ∷ ys) h (omega arith)
      (omega (arith, n, length-append xs (a ∷ ys)))

taken_after_snapshot :
    (run : ℕ) (snapshot others rest : List RunAction) (a : RunAction)
    → Numbered 0 (rows_of run (snapshot ++ others))
    → rows_of run others ≡ a ∷ rest
    → has_seq (max_seq (rows_of run snapshot) + 1) (rows_of run (snapshot ++ others)) ≡ true
taken_after_snapshot run snapshot others rest a h p =
    let split =
      select-append (λ r. r.run_id == run) snapshot others
      ∙ ap (λ rs. rows_of run snapshot ++ rs) p in
    rw split (taken_number (rows_of run snapshot) rest a (rw split at h))

insert_action-stale :
    (runs : List Run) (snapshot current : List RunAction) (gen : Generated)
    (input : AppendActionInput) (row : RunAction)
    → insert_action runs snapshot snapshot gen input ≡ ok row
    → has_seq (max_seq (rows_of input.run_id snapshot) + 1) (rows_of input.run_id current) ≡ true
    → insert_action runs snapshot current gen input ≡ err (unique_violation run_actions_seq_key)
unfolding insert_action
insert_action-stale runs snapshot current gen input row h taken = ground arith

recover-seq :
    (s : Schedule) (input : AppendActionInput) (o : Option String)
    → recover s input (unique_violation run_actions_seq_key) o
      ≡ err (db_error (unique_violation run_actions_seq_key))
unfolding recover is_dedup_violation
recover-seq s input none = refl
recover-seq s input (some req) = refl

-- The lock on the run does not keep two appends to it apart: if the INSERT would succeed at its
-- snapshot, no earlier row has the request, and another transaction has added a row of the same run
-- between the snapshot and the insertion, the call fails with a violation of the unique index on the
-- number, even where that row is the same request, and adds nothing.
pub append_action-stale :
    (s : Schedule) (runs : List Run) (gen : Generated) (input : AppendActionInput)
    (t others rest : List RunAction) (a row : RunAction)
    → s.lookup_sees ≡ ok t
    → ((req : String)
        → input.client_request_id ≡ some req
        → get_action_by_client_request_id t input.run_id req ≡ none)
    → s.insert_sees ≡ ok (s.snapshot ++ others)
    → IsNumbered (s.snapshot ++ others)
    → insert_action runs s.snapshot s.snapshot gen input ≡ ok row
    → rows_of input.run_id others ≡ a ∷ rest
    → append_action s runs gen input ≡ (err (db_error (unique_violation run_actions_seq_key)), none)
unfolding append_action append_new
append_action-stale s runs gen input t others rest a row looks unseen sees numbered alone own =
    let refused =
      insert_action-stale runs s.snapshot (s.snapshot ++ others) gen input row alone
        (taken_after_snapshot input.run_id s.snapshot others rest a (numbered input.run_id) own) in
    elim (Option-cases input.client_request_id) [
      | inl p ↦ ground (arith, refused, recover-seq s input input.client_request_id)
      | inr (req, p) ↦
          ground (arith, refused, recover-seq s input input.client_request_id, unseen req p)
    ]
