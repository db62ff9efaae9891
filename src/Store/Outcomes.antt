-- ===== src/Store/Outcomes.antt =====
-- The results of `AppendAction` (internal/engine/a/repo/run_repo.go) by kind, with no other transaction.
use sys_escape.Prelude.{
  ℕ, suc, ◌+◌, ◌≤◌, ◌≡◌, refl, sym, ◌∙◌, ◌⊎◌, inl, inr, List, [], ◌∷◌, ◌++◌, Option, none, some,
  String, ◌==◌, arith, length, ok, err, Option-cases, Result-cases, Bool-cases, Result, subst,
}
use sys_escape.Store.Tables.{Run, RunAction, DbError, same_request, rows_of}
use sys_escape.Store.RunRepo.{
  AppendActionInput, Generated, RepoError, insert_action, recover, append_new, append_action,
  accept_existing, action_conflict, db_error, get_action_by_client_request_id, quiet,
}
use sys_escape.Store.Numbering.{
  IsNumbered, Numbered, insert_action-ok, rows_of-snoc, max_seq-length,
}

some_eq : {a b : String} → ◌≡◌ {A = Option String} (some a) (some b) → a ≡ b
some_eq h = cc

-- A call adds the row that it returns, returns an older row, or fails and adds none.
abbrev pub Appended :
    List RunAction
    → List Run
    → Generated
    → AppendActionInput
    → Result RepoError RunAction × Option RunAction
    → Type 0
Appended t runs gen input x =
    ((row : RunAction) × (insert_action runs t t gen input ≡ ok row) × (x ≡ (ok row, some row)))
    ⊎ ((row : RunAction) × (req : String) × (get_action_by_client_request_id t input.run_id req
          ≡ some row)
        × (input.client_request_id ≡ some req)
        × (x ≡ (ok row, none)))
    ⊎ ((e : RepoError) × (x ≡ (err e, none)))

recover-fails :
    (t : List RunAction) (input : AppendActionInput) (e : DbError) (o : Option String)
    → ((req : String) → o ≡ some req → get_action_by_client_request_id t input.run_id req ≡ none)
    → (failure : RepoError) × (recover (quiet t) input e o ≡ err failure)
unfolding recover
recover-fails t input e none h = (db_error e, refl)
recover-fails t input e (some req) h = (db_error e, ground (arith, h req refl))

append_new-Appended :
    (t : List RunAction) (runs : List Run) (gen : Generated) (input : AppendActionInput)
    → ((req : String)
        → input.client_request_id ≡ some req
        → get_action_by_client_request_id t input.run_id req ≡ none)
    → Appended t runs gen input (append_new (quiet t) runs gen input)
unfolding append_new
append_new-Appended t runs gen input h = elim (Result-cases (insert_action runs t t gen input)) [
  | inl (row, p) ↦ inl (row, p, ground arith)
  | inr (e, p) ↦
      let (failure, q) = recover-fails t input e input.client_request_id h in
      inr (inr (failure, ground arith))
]

accept_existing-cases :
    (existing : RunAction) (input : AppendActionInput)
    → (accept_existing existing input ≡ ok existing)
      ⊎ (accept_existing existing input ≡ err action_conflict)
unfolding accept_existing
accept_existing-cases existing input = ground arith

pub append_action-Appended :
    (t : List RunAction) (runs : List Run) (gen : Generated) (input : AppendActionInput)
    → Appended t runs gen input (append_action (quiet t) runs gen input)
unfolding append_action
append_action-Appended t runs gen input = elim (Option-cases input.client_request_id) [
  | inl p ↦
      let e : append_action (quiet t) runs gen input ≡ append_new (quiet t) runs gen input =
        ground arith in
      subst (Appended t runs gen input) (sym e) (append_new-Appended t runs gen input (λ req q. cc))
  | inr (req, p) ↦ elim (Option-cases (get_action_by_client_request_id t input.run_id req)) [
    | inl fresh ↦
        let e : append_action (quiet t) runs gen input ≡ append_new (quiet t) runs gen input =
          ground arith in
        let unseen = λ (req' : String) (q : input.client_request_id ≡ some req').
          subst (λ r. get_action_by_client_request_id t input.run_id r ≡ none) (some_eq (sym p ∙ q))
            fresh in
        subst (Appended t runs gen input) (sym e) (append_new-Appended t runs gen input unseen)
    | inr (existing, seen) ↦ elim (accept_existing-cases existing input) [
      | inl same ↦ inr (inl (existing, req, seen, p, ground (arith, same)))
      | inr differs ↦ inr (inr (action_conflict, ground (arith, differs)))
    ]
  ]
]

-- The numbers of a table's rows of one run do not pass their count.
pub seq-le :
    (t : List RunAction) (run n : ℕ) (req : String) (a : RunAction)
    → Numbered n (rows_of run t)
    → get_action_by_client_request_id t run req ≡ some a
    → a.seq ≤ n + length (rows_of run t)
unfolding get_action_by_client_request_id
seq-le [] run n req a h p = absurd (ground arith)
seq-le (b ∷ t) run n req a h p = elim (Bool-cases (b.run_id == run)) [
  | inr other ↦ rw other (seq-le t run n req a (rw other at h) (ground arith))
  | inl own ↦
      let k : Numbered n (b ∷ rows_of run t) = rw own at h in
      rw own (elim (Bool-cases (same_request run req b)) [
        | inl here ↦ ground arith
        | inr further ↦ omega (arith, seq-le t run (suc n) req a k.1 (ground arith))
      ])
]

-- An added row is the next of its run.
pub insert_action-next :
    (t : List RunAction) (runs : List Run) (gen : Generated) (input : AppendActionInput)
    (row : RunAction)
    → IsNumbered t
    → insert_action runs t t gen input ≡ ok row
    → row.seq ≡ suc (length (rows_of input.run_id t))
insert_action-next t runs gen input row numbered h =
    let (_, next, _) = insert_action-ok runs t t gen input row h in
    omega (arith, next, max_seq-length (rows_of input.run_id t) (numbered input.run_id))

pub insert_action-IsNumbered :
    (t : List RunAction) (runs : List Run) (gen : Generated) (input : AppendActionInput)
    (row : RunAction)
    → IsNumbered t
    → insert_action runs t t gen input ≡ ok row
    → IsNumbered (t ++ row ∷ [])
insert_action-IsNumbered t runs gen input row numbered h run =
    let own = (insert_action-ok runs t t gen input row h).0 in
    rows_of-snoc run t row (numbered run) λ p.
      subst (λ k. row.seq ≡ suc (length (rows_of k t))) (sym own ∙ p)
        (insert_action-next t runs gen input row numbered h)
