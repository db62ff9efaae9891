-- ===== src/Migrate.antt =====
-- The number of a new migration in cmd/migrate/main.go. A name is read by characters where the code reads
-- bytes: `strconv.Atoi` refuses four bytes that are not four ASCII characters.
use Prim.Native.Char.{Char, code}
use mathlib.Core.Bool.{◌&&◌}
use sys_escape.Prelude.{
  ℕ, ◌+◌, ◌*◌, ◌-◌, ◌/◌, ◌%◌, ◌<◌, ◌++◌, ◌≤◌, ◌==◌, leb, ◌≡◌, refl, ap, ◌∙◌, zero, suc, Bool, true,
  false, List, [], ◌∷◌, Option, none, some, String, if◌then◌else◌, All, arith, Bool-cases, inl, inr,
}
use sys_escape.Prelude.Text.{append_text}
use sys_escape.Prelude.Int.{ℤ, pos, pos_part, sub_ℕ, leb_ℤ, ◌<ℤ◌}

abbrev is_digit : Char → Bool
is_digit c = leb 48 (code c) && leb (code c) 57

-- The digits of a text after those that make up `read`.
unfoldable pub read_digits : ℕ → String → Option ℕ
read_digits read String.[] = some read
read_digits read (String.◌∷◌ c s) =
    let rest = read_digits (read * 10 + (code c - 48)) s in if is_digit c then rest else none

abbrev to_signed : Bool → Option ℕ → Option ℤ
to_signed negative none = none
to_signed false (some n) = some (pos n)
to_signed true (some n) = some (sub_ℕ 0 n)

-- `strconv.Atoi` of a short text.
unfoldable pub atoi : String → Option ℤ
unfolding read_digits
atoi String.[] = none
atoi (String.◌∷◌ c String.[]) = to_signed false (read_digits 0 (String.◌∷◌ c String.[]))
atoi (String.◌∷◌ c (String.◌∷◌ d s)) =
    let unsigned = read_digits 0 (String.◌∷◌ c (String.◌∷◌ d s)) in
    let rest = read_digits 0 (String.◌∷◌ d s) in
    if code c == 43
    then to_signed false rest
    else if code c == 45
    then to_signed true rest
    else to_signed false unsigned

-- What the first four bytes of the name of a file spell as a number.
unfoldable pub number_of : String → Option ℤ
unfolding atoi
number_of (String.◌∷◌ a (String.◌∷◌ b (String.◌∷◌ c (String.◌∷◌ d s)))) =
    atoi (String.◌∷◌ a (String.◌∷◌ b (String.◌∷◌ c (String.◌∷◌ d String.[]))))
number_of s = none

-- An entry is a name and whether it is a directory.
abbrev pub entry_number : String × Bool → Option ℤ
entry_number (name, true) = none
entry_number (name, false) = number_of name

abbrev after : ℕ → Option ℤ → ℕ
after next none = next
after next (some num) = if leb_ℤ (pos next) num then pos_part num + 1 else next

unfoldable pub next_from : ℕ → List (String × Bool) → ℕ
unfolding number_of
next_from next [] = next
next_from next (e ∷ entries) = next_from (after next (entry_number e)) entries

unfoldable pub next_number : List (String × Bool) → ℕ
unfolding next_from
next_number entries = next_from 1 entries

next_test :
    next_number (
      ("0001_a.up.sql", false)
      ∷ ("0007_b.up.sql", false)
      ∷ ("0009_dir", true)
      ∷ ("README.md", false)
      ∷ ("-999_c", false)
      ∷ [])
    ≡ 8
unfolding next_number
next_test = refl

-- Each digit makes the number at most ten times as large, and nine more.
read_digits-step :
    (read n : ℕ) (c : Char) (s : String)
    → read_digits read (String.◌∷◌ c s) ≡ some n
    → (m : ℕ) × (m ≤ read * 10 + 9) × (read_digits m s ≡ some n)
unfolding read_digits
read_digits-step read n c s h = (read * 10 + (code c - 48), ground (arith, h), ground (arith, h))

three_digits :
    (read n : ℕ) (b c d : Char)
    → read_digits read (String.◌∷◌ b (String.◌∷◌ c (String.◌∷◌ d String.[]))) ≡ some n
    → n ≤ read * 1000 + 999
unfolding read_digits
three_digits read n b c d h =
    let (i, hi, e) = read_digits-step read n b (String.◌∷◌ c (String.◌∷◌ d String.[])) h in
    let (j, hj, f) = read_digits-step i n c (String.◌∷◌ d String.[]) e in
    let (k, hk, g) = read_digits-step j n d String.[] f in ground (arith, hi, hj, hk, g)

four_digits :
    (n : ℕ) (a b c d : Char)
    → read_digits 0 (String.◌∷◌ a (String.◌∷◌ b (String.◌∷◌ c (String.◌∷◌ d String.[])))) ≡ some n
    → n ≤ 9999
four_digits n a b c d h =
    let (i, hi, e) =
      read_digits-step 0 n a (String.◌∷◌ b (String.◌∷◌ c (String.◌∷◌ d String.[]))) h in
    omega (arith, hi, three_digits i n b c d e)

to_signed-le :
    (negative : Bool) (digits : Option ℕ) (num : ℤ)
    → ((n : ℕ) → digits ≡ some n → n ≤ 9999)
    → to_signed negative digits ≡ some num
    → pos_part num ≤ 9999
to_signed-le negative none num k h = absurd (ground (arith, h))
to_signed-le false (some n) num k h = ground (arith, k n refl, h)
to_signed-le true (some n) num k h = ground (arith, h)

number_of-le : (name : String) (num : ℤ) → number_of name ≡ some num → pos_part num ≤ 9999
unfolding number_of atoi
number_of-le String.[] num h = absurd (ground (arith, h))
number_of-le (String.◌∷◌ a String.[]) num h = absurd (ground (arith, h))
number_of-le (String.◌∷◌ a (String.◌∷◌ b String.[])) num h = absurd (ground (arith, h))
number_of-le (String.◌∷◌ a (String.◌∷◌ b (String.◌∷◌ c String.[]))) num h =
    absurd (ground (arith, h))
number_of-le (String.◌∷◌ a (String.◌∷◌ b (String.◌∷◌ c (String.◌∷◌ d s)))) num h =
    let tail = String.◌∷◌ b (String.◌∷◌ c (String.◌∷◌ d String.[])) in
    let three = λ (n : ℕ) (e : read_digits 0 tail ≡ some n).
      let le = three_digits 0 n b c d e in le_of n le in
    elim (Bool-cases (code a == 43)) [
      | inl e ↦ to_signed-le false (read_digits 0 tail) num three (rw e at h)
      | inr e ↦ elim (Bool-cases (code a == 45)) [
        | inl f ↦ to_signed-le true (read_digits 0 tail) num three (rw (e, f) at h)
        | inr f ↦
            to_signed-le false (read_digits 0 (String.◌∷◌ a tail)) num (λ n. four_digits n a b c d)
              (rw (e, f) at h)
      ]
    ]
  where
    le_of : (n : ℕ) → n ≤ 999 → n ≤ 9999
    le_of n h = omega arith

-- Nothing that a file is numbered with reaches the number.
abbrev pub Below : ℕ → String × Bool → Type 0
Below next e = (num : ℤ) → entry_number e ≡ some num → num <ℤ pos next

entry_number-le : (e : String × Bool) (num : ℤ) → entry_number e ≡ some num → pos_part num ≤ 9999
entry_number-le (name, true) num h = absurd (ground (arith, h))
entry_number-le (name, false) num h = number_of-le name num h

record Bounds (next more : ℕ) (o : Option ℤ) : Type 0 where
  grows : next ≤ more
  limited : more ≤ 10000
  above : (num : ℤ) → o ≡ some num → num <ℤ pos more

after-Bounds :
    (next : ℕ) (o : Option ℤ)
    → ((num : ℤ) → o ≡ some num → pos_part num ≤ 9999)
    → next ≤ 10000
    → Bounds next (after next o) o
after-Bounds next none k hi = record {
  grows = omega arith;
  limited = hi;
  above = λ num h. absurd (ground (arith, h));
}
after-Bounds next (some num) k hi = record {
  grows = ground arith;
  limited = ground (arith, k num refl);
  above = λ m h. ground (arith, h);
}

Below-mono : (next more : ℕ) (e : String × Bool) → next ≤ more → Below next e → Below more e
Below-mono next more e h b num k = let below = b num k in omega arith

next_from-bounds :
    (next : ℕ) (entries : List (String × Bool))
    → next ≤ 10000
    → (next ≤ next_from next entries)
      × (next_from next entries ≤ 10000)
      × All (Below (next_from next entries)) entries
unfolding next_from
next_from-bounds next [] hi = (omega arith, hi, tt)
next_from-bounds next (e ∷ entries) hi =
    let b = after-Bounds next (entry_number e) (entry_number-le e) hi in
    let (grows, limited, all) = next_from-bounds (after next (entry_number e)) entries b.limited in
    let first =
      Below-mono (after next (entry_number e)) (next_from (after next (entry_number e)) entries) e
        grows b.above in
    (omega (arith, b.grows, grows), limited, (first, all))

-- `strconv.Itoa` of a digit.
abbrev digit : ℕ → Char
digit zero = "0"
digit (suc zero) = "1"
digit (suc (suc zero)) = "2"
digit (suc (suc (suc zero))) = "3"
digit (suc (suc (suc (suc zero)))) = "4"
digit (suc (suc (suc (suc (suc zero))))) = "5"
digit (suc (suc (suc (suc (suc (suc zero)))))) = "6"
digit (suc (suc (suc (suc (suc (suc (suc zero))))))) = "7"
digit (suc (suc (suc (suc (suc (suc (suc (suc zero)))))))) = "8"
digit (suc (suc (suc (suc (suc (suc (suc (suc (suc n))))))))) = "9"

code-digit : (d : ℕ) → d ≤ 9 → code (digit d) ≡ 48 + d
code-digit zero h = refl
code-digit (suc zero) h = refl
code-digit (suc (suc zero)) h = refl
code-digit (suc (suc (suc zero))) h = refl
code-digit (suc (suc (suc (suc zero)))) h = refl
code-digit (suc (suc (suc (suc (suc zero))))) h = refl
code-digit (suc (suc (suc (suc (suc (suc zero)))))) h = refl
code-digit (suc (suc (suc (suc (suc (suc (suc zero))))))) h = refl
code-digit (suc (suc (suc (suc (suc (suc (suc (suc zero)))))))) h = refl
code-digit (suc (suc (suc (suc (suc (suc (suc (suc (suc zero))))))))) h = refl
code-digit (suc (suc (suc (suc (suc (suc (suc (suc (suc (suc n)))))))))) h = absurd (omega arith)

-- `fmt.Sprintf("%04d_%s.up.sql", next, name)` of a number with at most four digits.
unfoldable pub up_file : ℕ → String → String
up_file next name = String.◌∷◌ (digit (next / 1000)) (
    String.◌∷◌ (digit (next / 100 % 10)) (
      String.◌∷◌ (digit (next / 10 % 10))
        (String.◌∷◌ (digit (next % 10)) (append_text "_" (append_text name ".up.sql")))))

atoi-four :
    (a b c d : Char) (x y z w : ℕ)
    → code a ≡ 48 + x
    → code b ≡ 48 + y
    → code c ≡ 48 + z
    → code d ≡ 48 + w
    → (x ≤ 9) × (y ≤ 9) × (z ≤ 9) × (w ≤ 9)
    → atoi (String.◌∷◌ a (String.◌∷◌ b (String.◌∷◌ c (String.◌∷◌ d String.[]))))
      ≡ some (pos (x * 1000 + y * 100 + z * 10 + w))
unfolding atoi read_digits
atoi-four a b c d x y z w ha hb hc hd h = ground (arith, ha, hb, hc, hd, h)

number_of-up_file : (n : ℕ) (name : String) → n ≤ 9999 → number_of (up_file n name) ≡ some (pos n)
unfolding number_of up_file
number_of-up_file n name h =
    let x = n / 1000 in
    let y = n / 100 % 10 in
    let z = n / 10 % 10 in
    let w = n % 10 in
    let small : (x ≤ 9) × (y ≤ 9) × (z ≤ 9) × (w ≤ 9) =
      (omega arith, omega arith, omega arith, omega arith) in
    atoi-four (digit x) (digit y) (digit z) (digit w) x y z w (code-digit x small.0)
      (code-digit y small.1) (code-digit z small.2) (code-digit w small.3) small
    ∙ ap (λ m. some (pos m)) (omega arith)

All-at :
    {A : Type 0} (P : A → Type 0) (before later : List A) (a : A)
    → All P (before ++ a ∷ later)
    → P a
All-at P [] later a h = h.0
All-at P (b ∷ before) later a h = All-at P before later a h.1

-- The number of a new migration is above that of every migration that the command has made with a number
-- of at most four digits, whatever other files and directories there are; it is at least 1 and at most
-- 10000.
pub next_number-above :
    (before later : List (String × Bool)) (n : ℕ) (name : String)
    → n ≤ 9999
    → (n < next_number (before ++ (up_file n name, false) ∷ later))
      × (1 ≤ next_number (before ++ (up_file n name, false) ∷ later))
      × (next_number (before ++ (up_file n name, false) ∷ later) ≤ 10000)
unfolding next_number
next_number-above before later n name h =
    let entries = before ++ (up_file n name, false) ∷ later in
    let (least, most, all) = next_from-bounds 1 entries (omega arith) in
    let here = All-at (Below (next_from 1 entries)) before later (up_file n name, false) all in
    let above = here (pos n) (number_of-up_file n name h) in (omega (arith, above), least, most)

-- The number of a file with five digits is read as its first four.
five_digits_test : next_number (("10000_e.up.sql", false) ∷ ("9999_d.up.sql", false) ∷ []) ≡ 10000
unfolding next_number
five_digits_test = refl
