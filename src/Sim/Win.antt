-- ===== src/Sim/Win.antt =====
-- What `winSatisfied` of internal/engine/a/service/wincheck.go decides.
use sys_escape.Prelude.{
  ◌≡◌, ◌↔◌, ◌⊎◌, refl, List, [], ◌∷◌, some, String, true, false, arith, All, Option-cases, inl, inr,
}
use sys_escape.Prelude.Text.{eq_iff}
use sys_escape.Prelude.Assoc.{lookup}
use sys_escape.Sim.Types.{Float64, WinCheck}
use sys_escape.Sim.Engine.{check_holds, win_satisfied}

module _ {F : Type 0} ⦃fp : Float64 F⦄ where
  open fp use {epsilon, lt, le, sub, abs}

  -- A check is met by one of the five operators; any other operator is never met.
  abbrev pub Accepts : F → WinCheck F → Type 0
  Accepts v c =
      ((c.op ≡ ">") × (lt c.value v ≡ true))
      ⊎ ((c.op ≡ "<") × (lt v c.value ≡ true))
      ⊎ ((c.op ≡ ">=") × (le c.value v ≡ true))
      ⊎ ((c.op ≡ "<=") × (le v c.value ≡ true))
      ⊎ ((c.op ≡ "==") × (lt epsilon (abs (sub v c.value)) ≡ false))

  abbrev pub Met : List (String × F) → WinCheck F → Type 0
  Met metrics c = (v : F) × (lookup c.metric metrics ≡ some v) × Accepts v c

  check_holds→Accepts : (v : F) (c : WinCheck F) → check_holds v c ≡ true → Accepts v c
  unfolding check_holds
  check_holds→Accepts v c h = ground (
    arith,
    eq_iff c.op ">",
    eq_iff c.op "<",
    eq_iff c.op ">=",
    eq_iff c.op "<=",
    eq_iff c.op "==",
  )

  Accepts→check_holds : (v : F) (c : WinCheck F) → Accepts v c → check_holds v c ≡ true
  unfolding check_holds
  Accepts→check_holds v c (inl (p, q)) = rw p q
  Accepts→check_holds v c (inr (inl (p, q))) = rw p q
  Accepts→check_holds v c (inr (inr (inl (p, q)))) = rw p q
  Accepts→check_holds v c (inr (inr (inr (inl (p, q))))) = rw p q
  Accepts→check_holds v c (inr (inr (inr (inr (p, q))))) = rw (p, q)

  win_satisfied→Met :
      (metrics : List (String × F)) (checks : List (WinCheck F))
      → win_satisfied metrics checks ≡ true
      → All (Met metrics) checks
  unfolding win_satisfied
  win_satisfied→Met metrics [] h = tt
  win_satisfied→Met metrics (c ∷ cs) h = elim (Option-cases (lookup c.metric metrics)) [
    | inl e ↦ absurd (ground arith)
    | inr (v, e) ↦
        let met : (check_holds v c ≡ true) × (win_satisfied metrics cs ≡ true) = ground arith in
        ((v, e, check_holds→Accepts v c met.0), win_satisfied→Met metrics cs met.1)
  ]

  Met→win_satisfied :
      (metrics : List (String × F)) (checks : List (WinCheck F))
      → All (Met metrics) checks
      → win_satisfied metrics checks ≡ true
  unfolding win_satisfied
  Met→win_satisfied metrics [] h = refl
  Met→win_satisfied metrics (c ∷ cs) ((v, e, h), hs) =
      rw (e, win_satisfied, Accepts→check_holds v c h) (Met→win_satisfied metrics cs hs)

  pub win_satisfied_iff :
      (metrics : List (String × F)) (checks : List (WinCheck F))
      → (win_satisfied metrics checks ≡ true) ↔ All (Met metrics) checks
  win_satisfied_iff metrics checks =
      (win_satisfied→Met metrics checks, Met→win_satisfied metrics checks)
