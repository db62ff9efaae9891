-- ===== src/Prelude/Text/Trim.antt =====
-- Trimming a text twice does nothing more.
use Prim.Native.Char.{Char, code}
use Prim.Native.String.{String}
use mathlib.Core.Logic.{inl, inr}
use mathlib.Core.Bool.{Bool, true, false, not}
use mathlib.Core.Path.{◌≡◌, refl, sym, ap, ◌∙◌}
use Prim.Native.Nat.{◌≤◌}
use native.Mathlib.Omega.{arith}
use sys_escape.Prelude.Tests.{Bool-cases, if◌then◌else◌}
use sys_escape.Prelude.Text.{
  eq_iff, is_space, trim_left, push_char, trim_right, trim_space, is_blank, str_eq,
}

-- No space at the front.
abbrev is_flush : String → Bool
is_flush String.[] = true
is_flush (String.◌∷◌ c s) = not (is_space (code c))

trim_left-is_flush : (s : String) → is_flush (trim_left s) ≡ true
unfolding trim_left
trim_left-is_flush String.[] = refl
trim_left-is_flush (String.◌∷◌ c s) = ground (arith, trim_left-is_flush s)

trim_left_flush : (s : String) → is_flush s ≡ true → trim_left s ≡ s
unfolding trim_left
trim_left_flush String.[] h = refl
trim_left_flush (String.◌∷◌ c s) h = ground (arith, h)

push_char-is_flush :
    (c : Char) (s : String) → is_space (code c) ≡ false → is_flush (push_char c s) ≡ true
unfolding push_char
push_char-is_flush c String.[] h = ground (arith, h)
push_char-is_flush c (String.◌∷◌ d s) h = ground (arith, h)

trim_right-is_flush : (s : String) → is_flush s ≡ true → is_flush (trim_right s) ≡ true
unfolding trim_right
trim_right-is_flush String.[] h = refl
trim_right-is_flush (String.◌∷◌ c s) h = push_char-is_flush c (trim_right s) (ground (arith, h))

push_char_space : (c : Char) → is_space (code c) ≡ true → push_char c String.[] ≡ String.[]
unfolding push_char
push_char_space c e = ap (λ b. if b then String.[] else String.◌∷◌ c String.[]) e

push_char_other :
    (c : Char) → is_space (code c) ≡ false → push_char c String.[] ≡ String.◌∷◌ c String.[]
unfolding push_char
push_char_other c e = ap (λ b. if b then String.[] else String.◌∷◌ c String.[]) e

push_char_more :
    (c d : Char) (s : String) → push_char c (String.◌∷◌ d s) ≡ String.◌∷◌ c (String.◌∷◌ d s)
unfolding push_char
push_char_more c d s = refl

trim_right-push_char :
    (c : Char) (s : String) → trim_right s ≡ s → trim_right (push_char c s) ≡ push_char c s
unfolding trim_right
trim_right-push_char c String.[] h = elim (Bool-cases (is_space (code c))) [
  | inl e ↦ ap trim_right (push_char_space c e) ∙ sym (push_char_space c e)
  | inr e ↦ ap trim_right (push_char_other c e)
]
trim_right-push_char c (String.◌∷◌ d s) h =
    ap trim_right (push_char_more c d s) ∙ ap (push_char c) h

trim_right_twice : (s : String) → trim_right (trim_right s) ≡ trim_right s
unfolding trim_right
trim_right_twice String.[] = refl
trim_right_twice (String.◌∷◌ c s) = trim_right-push_char c (trim_right s) (trim_right_twice s)

pub trim_space_twice : (s : String) → trim_space (trim_space s) ≡ trim_space s
unfolding trim_space
trim_space_twice s =
    ap trim_right (
      trim_left_flush (trim_right (trim_left s))
        (trim_right-is_flush (trim_left s) (trim_left-is_flush s)))
    ∙ trim_right_twice (trim_left s)

pub is_blank-trim_space : (s : String) → is_blank (trim_space s) ≡ is_blank s
unfolding is_blank
is_blank-trim_space s = ap (λ t. str_eq t "") (trim_space_twice s)

has_first : String → Bool
has_first String.[] = false
has_first (String.◌∷◌ c s) = true

filled : (c : Char) (s : String) → str_eq (String.◌∷◌ c s) "" ≡ false
unfolding has_first
filled c s = elim (Bool-cases (str_eq (String.◌∷◌ c s) "")) [
  | inr e ↦ e
  | inl e ↦
      let same : String.◌∷◌ c s ≡ "" = (eq_iff (String.◌∷◌ c s) "").0 e in
      absurd (ground (arith, ap has_first same))
]

push_char-not_blank :
    (c : Char) (s : String) → is_space (code c) ≡ false → str_eq (push_char c s) "" ≡ false
unfolding push_char
push_char-not_blank c String.[] h = rw h (filled c String.[])
push_char-not_blank c (String.◌∷◌ d s) h = filled c (String.◌∷◌ d s)

not_space : (c : Char) → 33 ≤ code c → code c ≤ 126 → is_space (code c) ≡ false
unfolding is_space
not_space c h k = ground (arith, h, k)

-- A text that begins with a visible ASCII character is not blank.
pub is_blank-visible :
    (c : Char) (s : String) → 33 ≤ code c → code c ≤ 126 → is_blank (String.◌∷◌ c s) ≡ false
unfolding is_blank trim_space trim_left trim_right
is_blank-visible c s h k =
    rw (not_space c h k) (push_char-not_blank c (trim_right s) (not_space c h k))
