-- ===== src/Prelude/Sort.antt =====
-- Go's `sort.Strings`, and that it keeps the items.
use Prim.Native.String.{String, compare}
use mathlib.Core.Bool.{false, ◌||◌}
use mathlib.Core.List.{List, [], ◌∷◌}
use mathlib.Core.Path.{◌≡◌, refl, ap, ◌∙◌}
use native.Mathlib.Omega.{arith}
use text.Mathlib.Text.{is_lt}
use sys_escape.Prelude.Tests.{if◌then◌else◌}
use sys_escape.Prelude.Text.{str_eq, eq_iff}
use sys_escape.Prelude.Assoc.{contains, Distinct}

-- The order is by bytes, which for UTF-8 is the order of the native texts.
insert_sorted : String → List String → List String
insert_sorted s [] = s ∷ []
insert_sorted s (t ∷ ts) =
    let rest = insert_sorted s ts in if is_lt (compare t s) then t ∷ rest else s ∷ t ∷ ts

unfoldable pub sort_strings : List String → List String
unfolding insert_sorted
sort_strings [] = []
sort_strings (s ∷ ss) = insert_sorted s (sort_strings ss)

contains-insert_sorted :
    (k s : String) (ts : List String)
    → contains k (insert_sorted s ts) ≡ (str_eq s k || contains k ts)
unfolding insert_sorted
contains-insert_sorted k s [] = refl
contains-insert_sorted k s (t ∷ ts) = ground (arith, contains-insert_sorted k s ts)

pub contains-sort_strings :
    (k : String) (ss : List String) → contains k (sort_strings ss) ≡ contains k ss
unfolding sort_strings
contains-sort_strings k [] = refl
contains-sort_strings k (s ∷ ss) =
    contains-insert_sorted k s (sort_strings ss)
    ∙ ap (λ b. str_eq s k || b) (contains-sort_strings k ss)

insert_sorted-Distinct :
    (s : String) (ts : List String)
    → contains s ts ≡ false
    → Distinct ts
    → Distinct (insert_sorted s ts)
unfolding insert_sorted
insert_sorted-Distinct s [] h d = (refl, tt)
insert_sorted-Distinct s (t ∷ ts) h d =
    ground
      (arith, insert_sorted-Distinct s ts, contains-insert_sorted t s ts, eq_iff s t, eq_iff t s)

pub sort_strings-Distinct : (ss : List String) → Distinct ss → Distinct (sort_strings ss)
unfolding sort_strings
sort_strings-Distinct [] d = tt
sort_strings-Distinct (s ∷ ss) d =
    insert_sorted-Distinct s (sort_strings ss) (contains-sort_strings s ss ∙ d.0)
      (sort_strings-Distinct ss d.1)

sort_test : sort_strings ("b" ∷ "a" ∷ "c" ∷ []) ≡ "a" ∷ "b" ∷ "c" ∷ []
unfolding sort_strings
sort_test = refl
