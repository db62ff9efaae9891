-- ===== src/Ws/Active.antt =====
-- The table of active connections of internal/engine/a/transport/ws_handler.go. A connection is a
-- number, and `replaced` lists those that `registerActive` closed. The mutex makes each change
-- of the map one step; the close of the old connection comes after it and touches that one alone.
use mathlib.Core.Bool.{◌&&◌, ◌||◌}
use sys_escape.Prelude.{
  ℕ, ◌==◌, ◌≡◌, refl, ◌∙◌, ◌⊎◌, inl, inr, Bool, true, false, List, [], ◌∷◌, All, Option, none, some,
  if◌then◌else◌, arith, Bool-cases,
}

pub record Hub : Type 0 where
  pub active : List (ℕ × ℕ)
  pub replaced : List ℕ

unfoldable pub active_of : ℕ → List (ℕ × ℕ) → Option ℕ
active_of run_id [] = none
active_of run_id (entry ∷ rest) =
    let further = active_of run_id rest in if entry.0 == run_id then some entry.1 else further

-- `delete(h.active, runID)`.
unfoldable pub delete_active : ℕ → List (ℕ × ℕ) → List (ℕ × ℕ)
delete_active run_id [] = []
delete_active run_id (entry ∷ rest) =
    let others = delete_active run_id rest in if entry.0 == run_id then others else entry ∷ others

abbrev pub is_writer : ℕ → Option ℕ → Bool
is_writer writer none = false
is_writer writer (some other) = other == writer

abbrev pub closed_by : Option ℕ → ℕ → List ℕ → List ℕ
closed_by none writer replaced = replaced
closed_by (some old) writer replaced = if old == writer then replaced else old ∷ replaced

unfoldable pub register_active : ℕ → ℕ → Hub → Hub
unfolding active_of delete_active
register_active run_id writer h = record {
  active = (run_id, writer) ∷ delete_active run_id h.active;
  replaced = closed_by (active_of run_id h.active) writer h.replaced;
}

unfoldable pub unregister_active : ℕ → ℕ → Hub → Hub
unfolding active_of delete_active
unregister_active run_id writer h =
    if is_writer writer (active_of run_id h.active)
    then record h { active = delete_active run_id h.active }
    else h

-- A connection comes or goes.
pub data Change : Type 0 where
  comes goes : ℕ → ℕ → Change

unfoldable pub changed : Change → Hub → Hub
unfolding register_active unregister_active
changed (comes run_id writer) h = register_active run_id writer h
changed (goes run_id writer) h = unregister_active run_id writer h

unfoldable pub changes : List Change → Hub → Hub
unfolding changed
changes [] h = h
changes (c ∷ cs) h = changes cs (changed c h)

abbrev pub is_replaced : ℕ → List ℕ → Bool
is_replaced writer [] = false
is_replaced writer (w ∷ ws) = w == writer || is_replaced writer ws

-- The connection is the active one of its run, or was closed.
abbrev pub IsCounted : ℕ → ℕ → Hub → Type 0
IsCounted run_id writer h =
    (active_of run_id h.active ≡ some writer) ⊎ (is_replaced writer h.replaced ≡ true)

-- The change is not the end of this connection.
abbrev pub Stays : ℕ → ℕ → Change → Type 0
Stays run_id writer (comes r w) = Unit {0}
Stays run_id writer (goes r w) = (r == run_id && w == writer) ≡ false

active_of-delete_active :
    (run_id other : ℕ) (xs : List (ℕ × ℕ))
    → (other == run_id) ≡ false
    → active_of run_id (delete_active other xs) ≡ active_of run_id xs
unfolding active_of delete_active
active_of-delete_active run_id other [] p = refl
active_of-delete_active run_id other (x ∷ xs) p =
    ground (arith, active_of-delete_active run_id other xs p)

closed_by-is_replaced :
    (o : Option ℕ) (writer w : ℕ) (ws : List ℕ)
    → is_replaced writer ws ≡ true
    → is_replaced writer (closed_by o w ws) ≡ true
closed_by-is_replaced o writer w ws h = ground arith

register_active-IsCounted :
    (run_id writer r w : ℕ) (h : Hub)
    → IsCounted run_id writer h
    → IsCounted run_id writer (register_active r w h)
unfolding register_active active_of
register_active-IsCounted run_id writer r w h (inr closed) =
    inr (closed_by-is_replaced (active_of r h.active) writer w h.replaced closed)
register_active-IsCounted run_id writer r w h (inl active) = elim (Bool-cases (r == run_id)) [
  | inr other ↦ inl (rw other (active_of-delete_active run_id r h.active other ∙ active))
  | inl same ↦ elim (Bool-cases (writer == w)) [
    | inl again ↦ inl (ground arith)
    | inr new ↦
        let found : active_of r h.active ≡ some writer = ground arith in
        inr (rw found (ground arith))
  ]
]

unregister_active-IsCounted :
    (run_id writer r w : ℕ) (h : Hub)
    → (r == run_id && w == writer) ≡ false
    → IsCounted run_id writer h
    → IsCounted run_id writer (unregister_active r w h)
unfolding unregister_active
unregister_active-IsCounted run_id writer r w h stays (inr closed) = inr (ground arith)
unregister_active-IsCounted run_id writer r w h stays (inl active) =
    elim (Bool-cases (r == run_id)) [
      | inr other ↦
          let kept = active_of-delete_active run_id r h.active other in inl (ground (arith, kept))
      | inl same ↦
          let found : active_of r h.active ≡ some writer = ground arith in
          inl (ground (arith, found))
    ]

changes-IsCounted :
    (run_id writer : ℕ) (cs : List Change) (h : Hub)
    → All (Stays run_id writer) cs
    → IsCounted run_id writer h
    → IsCounted run_id writer (changes cs h)
unfolding changes
changes-IsCounted run_id writer [] h s v = v
changes-IsCounted run_id writer (comes r w ∷ cs) h s v =
    changes-IsCounted run_id writer cs _ s.1 (register_active-IsCounted run_id writer r w h v)
changes-IsCounted run_id writer (goes r w ∷ cs) h s v =
    changes-IsCounted run_id writer cs _ s.1 (unregister_active-IsCounted run_id writer r w h s.0 v)

-- No connection is forgotten: one that has registered and has not ended is, after any other connections
-- have come and gone, still the active one of its run, or was closed because another replaced it.
pub register_active-counts :
    (run_id writer : ℕ) (cs : List Change) (h : Hub)
    → All (Stays run_id writer) cs
    → IsCounted run_id writer (changes cs (register_active run_id writer h))
unfolding register_active active_of
register_active-counts run_id writer cs h s =
    changes-IsCounted run_id writer cs (register_active run_id writer h) s (inl (ground arith))
