-- ===== src/Ws/ResumeBuffer.antt =====
-- internal/ws/resume_buffer.go. The mutex makes each function one step.
use sys_escape.Prelude.{
  ℕ, suc, Bool, true, false, List, [], ◌∷◌, ◌++◌, length, drop, ◌==◌, if◌then◌else◌, Result, ok,
  err,
}
use sys_escape.Prelude.Int.{ℤ, pos, pos_part, ltb_ℤ, leb_ℤ, ◌-ℤ◌}
use sys_escape.Ws.Messages.{Delta}

pub data ResumeError : Type 0 where
  non_monotonic_seq : ResumeError

pub record ResumeBuffer (P : Type 0) : Type 0 where
  pub cap : ℕ
  pub items : List (Delta P)
  pub last_seq : ℤ

unfoldable pub new_resume_buffer : {P : Type 0} → ℤ → ResumeBuffer P
new_resume_buffer capacity = record {
  cap = if leb_ℤ capacity (pos 0) then 1 else pos_part capacity;
  items = [];
  last_seq = pos 0;
}

-- A full buffer loses its first item.
unfoldable pub add : {P : Type 0} → ResumeBuffer P → Delta P → Result ResumeError (ResumeBuffer P)
add b delta =
    if leb_ℤ delta.seq b.last_seq
    then err non_monotonic_seq
    else ok (record b {
      items =
          if length b.items == b.cap then drop 1 b.items ++ delta ∷ [] else b.items ++ delta ∷ [];
      last_seq = delta.seq;
    })

-- The loop that looks for `start`, from index `i` on.
unfoldable pub start_from : {P : Type 0} → ℕ → ℤ → List (Delta P) → ℕ
start_from i last [] = 0
start_from i last (d ∷ ds) =
    let further = start_from (suc i) last ds in if ltb_ℤ last d.seq then i else further

-- The deltas, and whether the client needs a snapshot instead.
unfoldable pub resume_from : {P : Type 0} → ResumeBuffer P → ℤ → List (Delta P) × Bool
unfolding start_from ◌-ℤ◌
resume_from b last_seq = elim b.items [
  | [] ↦ ([], false)
  | first ∷ rest ↦
      if leb_ℤ b.last_seq last_seq
      then ([], false)
      else if ltb_ℤ last_seq (first.seq -ℤ pos 1)
      then ([], true)
      else (drop (start_from 0 last_seq b.items) b.items, false)
]
