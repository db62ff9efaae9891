-- ===== src/Prelude/Assoc.antt =====
-- Go's maps keyed by text, as association lists, and the range of their keys.
use Prim.Native.String.{String}
use mathlib.Core.Bool.{Bool, true, false, ◌||◌}
use mathlib.Core.Option.{Option, none, some}
use mathlib.Core.List.{List, [], ◌∷◌}
use mathlib.Core.Path.{◌≡◌, refl}
use native.Mathlib.Omega.{arith}
use sys_escape.Prelude.Lists.{All}
use sys_escape.Prelude.Tests.{if◌then◌else◌, is_some}
use sys_escape.Prelude.Text.{str_eq, eq_iff, eq_refl}

abbrev pub contains : String → List String → Bool
contains k [] = false
contains k (j ∷ js) = str_eq j k || contains k js

abbrev pub Distinct : List String → Type 0
Distinct [] = Unit
Distinct (j ∷ js) = (contains j js ≡ false) × Distinct js

-- What holds of every text that a list contains holds of its items.
pub All-of_contains {κ} :
    (P : String → Type κ) (js : List String)
    → ((k : String) → contains k js ≡ true → P k)
    → All P js
All-of_contains P [] h = tt
All-of_contains P (j ∷ js) h =
    (h j (ground (arith, eq_refl j)), All-of_contains P js (λ k c. h k (ground arith)))

module _ {ℓ} {V : Type ℓ} where
  unfoldable pub lookup : String → List (String × V) → Option V
  lookup name [] = none
  lookup name (entry ∷ others) =
      let found = lookup name others in if str_eq entry.0 name then some entry.1 else found

  -- `m[k] = v`.
  unfoldable pub insert : String → V → List (String × V) → List (String × V)
  insert name value [] = (name, value) ∷ []
  insert name value (entry ∷ others) =
      let further = insert name value others in
      if str_eq entry.0 name then (entry.0, value) ∷ others else entry ∷ further

  abbrev pub keys : List (String × V) → List String
  keys [] = []
  keys (entry ∷ others) = entry.0 ∷ keys others

  pub lookup-insert :
      (name asked : String) (value : V) (others : List (String × V))
      → lookup asked (insert name value others)
        ≡ (if str_eq name asked then some value else lookup asked others)
  unfolding lookup insert
  lookup-insert name asked value [] = refl
  lookup-insert name asked value (entry ∷ others) = ground (
    arith,
    lookup-insert name asked value others,
    eq_iff entry.0 asked,
    eq_iff entry.0 name,
    eq_iff name asked,
  )

  -- A key is in range exactly when its lookup succeeds.
  pub contains-keys :
      (k : String) (m : List (String × V)) → contains k (keys m) ≡ is_some (lookup k m)
  unfolding lookup
  contains-keys k [] = refl
  contains-keys k ((j, w) ∷ m) = ground (arith, contains-keys k m)

  -- To assign to a key that is there keeps the keys and their order.
  pub keys-insert :
      (k : String) (v : V) (m : List (String × V))
      → is_some (lookup k m) ≡ true
      → keys (insert k v m) ≡ keys m
  unfolding lookup insert
  keys-insert k v [] h = ground arith
  keys-insert k v ((j, w) ∷ m) h = ground (arith, keys-insert k v m)
