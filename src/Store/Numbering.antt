-- ===== src/Store/Numbering.antt =====
-- The sequence numbers of a run's actions (internal/engine/a/repo/run_repo.go): 1, 2, 3 and so on,
-- whatever other transactions do.
use mathlib.Core.Bool.{true≢false}
use sys_escape.Prelude.{
  ℕ, suc, ◌+◌, ◌≤◌, ◌<◌, ◌≡◌, refl, sym, ap, ◌∙◌, true, false, List, [], ◌∷◌, ◌++◌, some, ◌==◌,
  arith, length, length-append, select-append, ok, if◌then◌else◌, subst,
}
use sys_escape.Store.Tables.{Run, RunAction, rows_of, max_seq, has_seq}
use sys_escape.Store.RunRepo.{
  AppendActionInput, Generated, Schedule, insert_action, append_new, append_action, order_by_seq,
  insert_by_seq,
}

-- The rows carry the numbers from `n + 1` on, in order.
abbrev pub Numbered : ℕ → List RunAction → Type 0
Numbered n [] = Unit {0}
Numbered n (a ∷ rest) = (a.seq ≡ suc n) × Numbered (suc n) rest

-- Each run has its own numbers, from 1 on.
abbrev pub IsNumbered : List RunAction → Type 0
IsNumbered t = (run : ℕ) → Numbered 0 (rows_of run t)

Numbered-append :
    (n : ℕ) (xs ys : List RunAction)
    → Numbered n xs
    → Numbered (n + length xs) ys
    → Numbered n (xs ++ ys)
Numbered-append n [] ys h k = subst (λ m. Numbered m ys) (omega arith) k
Numbered-append n (x ∷ xs) ys h k =
    (h.0, Numbered-append (suc n) xs ys h.1 (subst (λ m. Numbered m ys) (omega arith) k))

pub Numbered-prefix : (n : ℕ) (xs ys : List RunAction) → Numbered n (xs ++ ys) → Numbered n xs
Numbered-prefix n [] ys h = tt
Numbered-prefix n (x ∷ xs) ys h = (h.0, Numbered-prefix (suc n) xs ys h.1)

max_seq-Numbered :
    (n : ℕ) (xs : List RunAction)
    → Numbered n xs
    → max_seq xs ≡ (if length xs == 0 then 0 else n + length xs)
max_seq-Numbered n [] h = refl
max_seq-Numbered n (x ∷ xs) h = ground (arith, max_seq-Numbered (suc n) xs h.1)

pub max_seq-length : (xs : List RunAction) → Numbered 0 xs → max_seq xs ≡ length xs
max_seq-length xs h = ground (arith, max_seq-Numbered 0 xs h)

pub has_seq-Numbered :
    (n m : ℕ) (xs : List RunAction)
    → Numbered n xs
    → n < m
    → m ≤ n + length xs
    → has_seq m xs ≡ true
has_seq-Numbered n m [] h lo hi = absurd (omega arith)
has_seq-Numbered n m (x ∷ xs) h lo hi = ground (arith, has_seq-Numbered (suc n) m xs h.1)

-- What an accepted INSERT says about its row.
pub insert_action-ok :
    (runs : List Run) (snapshot current : List RunAction) (gen : Generated)
    (input : AppendActionInput) (row : RunAction)
    → insert_action runs snapshot current gen input ≡ ok row
    → (row.run_id ≡ input.run_id)
      × (row.seq ≡ max_seq (rows_of input.run_id snapshot) + 1)
      × (has_seq row.seq (rows_of input.run_id current) ≡ false)
unfolding insert_action
insert_action-ok runs snapshot current gen input row h = ground arith

-- A number taken from a snapshot is refused by the unique index unless it is the next one.
next_number :
    (xs ys : List RunAction) (n : ℕ)
    → Numbered 0 (xs ++ ys)
    → n ≡ max_seq xs + 1
    → has_seq n (xs ++ ys) ≡ false
    → n ≡ suc (length (xs ++ ys))
next_number xs [] n h p free =
    omega (arith, length-append xs [], max_seq-length xs (Numbered-prefix 0 xs [] h))
next_number xs (y ∷ ys) n h p free = absurd (
    true≢false (
      sym (
        has_seq-Numbered 0 n (xs ++ y ∷ ys) h (omega arith) (
          omega (
            arith,
            length-append xs (y ∷ ys),
            max_seq-length xs (Numbered-prefix 0 xs (y ∷ ys) h),
          )))
      ∙ free))

pub append_action-row :
    (s : Schedule) (runs : List Run) (gen : Generated) (input : AppendActionInput)
    (current : List RunAction) (row : RunAction)
    → s.insert_sees ≡ ok current
    → (append_action s runs gen input).1 ≡ some row
    → insert_action runs s.snapshot current gen input ≡ ok row
unfolding append_action append_new
append_action-row s runs gen input current row seen h = ground arith

pub rows_of-snoc :
    (run : ℕ) (t : List RunAction) (row : RunAction)
    → Numbered 0 (rows_of run t)
    → (row.run_id ≡ run → row.seq ≡ suc (length (rows_of run t)))
    → Numbered 0 (rows_of run (t ++ row ∷ []))
rows_of-snoc run t row h next =
    rw (select-append (λ a. a.run_id == run) t (row ∷ []))
      (Numbered-append 0 (rows_of run t) (rows_of run (row ∷ [])) h (ground (arith, next)))

row_number :
    (run : ℕ) (snapshot others : List RunAction) (n : ℕ)
    → Numbered 0 (rows_of run (snapshot ++ others))
    → n ≡ max_seq (rows_of run snapshot) + 1
    → has_seq n (rows_of run (snapshot ++ others)) ≡ false
    → n ≡ suc (length (rows_of run (snapshot ++ others)))
row_number run snapshot others n h p free =
    let split = select-append (λ a. a.run_id == run) snapshot others in
    rw split (
      next_number (rows_of run snapshot) (rows_of run others) n (rw split at h) p
        (rw split at free))

-- Whatever other transactions commit between the statements of a call, a row that `AppendAction` adds
-- keeps the actions of every run numbered 1, 2, 3 and so on in the order of their commits: where
-- the table at the INSERT is the statement's snapshot followed by what others committed, and is so
-- numbered, the table with the new row is so numbered too.
pub append_action-IsNumbered :
    (s : Schedule) (runs : List Run) (gen : Generated) (input : AppendActionInput)
    (others : List RunAction) (row : RunAction)
    → s.insert_sees ≡ ok (s.snapshot ++ others)
    → IsNumbered (s.snapshot ++ others)
    → (append_action s runs gen input).1 ≡ some row
    → IsNumbered ((s.snapshot ++ others) ++ row ∷ [])
append_action-IsNumbered s runs gen input others row seen numbered h run =
    let (own, next, free) =
      insert_action-ok runs s.snapshot (s.snapshot ++ others) gen input row
        (append_action-row s runs gen input _ row seen h) in
    rows_of-snoc run (s.snapshot ++ others) row (numbered run) λ p.
      subst (λ k. row.seq ≡ suc (length (rows_of k (s.snapshot ++ others)))) (sym own ∙ p)
        (row_number input.run_id s.snapshot others row.seq (numbered input.run_id) next free)

insert_by_seq-first :
    (n : ℕ) (a : RunAction) (xs : List RunAction)
    → a.seq ≡ n
    → Numbered n xs
    → insert_by_seq a xs ≡ a ∷ xs
unfolding insert_by_seq
insert_by_seq-first n a [] p h = refl
insert_by_seq-first n a (x ∷ xs) p h = ground arith

pub order_by_seq-Numbered : (n : ℕ) (xs : List RunAction) → Numbered n xs → order_by_seq xs ≡ xs
unfolding order_by_seq
order_by_seq-Numbered n [] h = refl
order_by_seq-Numbered n (x ∷ xs) h =
    ap (insert_by_seq x) (order_by_seq-Numbered (suc n) xs h.1)
    ∙ insert_by_seq-first (suc n) x xs h.0 h.1
