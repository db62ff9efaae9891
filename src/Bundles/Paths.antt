-- ===== src/Bundles/Paths.antt =====
-- Go's `path.Clean`, over the native texts: the names of an archive's members.
use Prim.Native.Char.{Char, code}
use Prim.Native.String.{String}
use sys_escape.Prelude.{◌==◌, ◌≡◌, refl, Bool, false, List, [], ◌∷◌, if◌then◌else◌}
use sys_escape.Prelude.Text.{append_text, str_eq}

abbrev is_slash : Char → Bool
is_slash c = code c == 47

abbrev push_front : Char → List String → List String
push_front c [] = String.◌∷◌ c String.[] ∷ []
push_front c (s ∷ ss) = String.◌∷◌ c s ∷ ss

-- The parts between slashes.
pub split_path : String → List String
split_path String.[] = String.[] ∷ []
split_path (String.◌∷◌ c s) =
    let rest = split_path s in if is_slash c then String.[] ∷ rest else push_front c rest

pub join_path : List String → String
join_path [] = String.[]
join_path (s ∷ []) = s
join_path (s ∷ t ∷ ss) = append_text s (String.◌∷◌ "/" (join_path (t ∷ ss)))

-- `..` takes the last part away, unless that is a `..` itself or there is none.
abbrev pop : Bool → List String → List String
pop rooted [] = if rooted then [] else ".." ∷ []
pop rooted (s ∷ ss) = if str_eq s ".." then ".." ∷ s ∷ ss else ss

-- The parts that stay, the last one first.
pub clean_parts : Bool → List String → List String → List String
clean_parts rooted kept [] = kept
clean_parts rooted kept (s ∷ ss) =
    clean_parts rooted
      (if str_eq s ""
        then kept
        else if str_eq s "."
        then kept
        else if str_eq s ".."
        then pop rooted kept
        else s ∷ kept)
      ss

abbrev reverse_onto : List String → List String → List String
reverse_onto [] done = done
reverse_onto (s ∷ ss) done = reverse_onto ss (s ∷ done)

abbrev is_rooted : String → Bool
is_rooted String.[] = false
is_rooted (String.◌∷◌ c s) = is_slash c

abbrev relative_or_dot : String → String
relative_or_dot String.[] = "."
relative_or_dot (String.◌∷◌ c s) = String.◌∷◌ c s

unfoldable pub clean : String → String
unfolding split_path join_path clean_parts
clean name =
    let kept = reverse_onto (clean_parts (is_rooted name) [] (split_path name)) [] in
    if is_rooted name then String.◌∷◌ "/" (join_path kept) else relative_or_dot (join_path kept)

-- `filepath.Join` of two paths.
unfoldable pub join : String → String → String
unfolding clean
join String.[] String.[] = ""
join String.[] (String.◌∷◌ d t) = clean (String.◌∷◌ d t)
join (String.◌∷◌ c s) String.[] = clean (String.◌∷◌ c s)
join (String.◌∷◌ c s) (String.◌∷◌ d t) =
    clean (append_text (String.◌∷◌ c s) (String.◌∷◌ "/" (String.◌∷◌ d t)))

-- The last part that is not empty, or the given text.
abbrev last_part : String → List String → String
last_part found [] = found
last_part found (s ∷ ss) = last_part (if str_eq s "" then found else s) ss

-- `filepath.Base`.
unfoldable pub base : String → String
unfolding split_path
base String.[] = "."
base (String.◌∷◌ c s) = last_part "/" (split_path (String.◌∷◌ c s))

base_tests :
    (base "content/rooms/cache-room/" ≡ "cache-room")
    × (base "//" ≡ "/")
    × (join "rooms/" "engineA" ≡ "rooms/engineA")
unfolding base join
base_tests = (refl, refl, refl)

clean_tests :
    (clean "./engineA//scenario.yaml" ≡ "engineA/scenario.yaml")
    × (clean "engineA/x/../actions.yaml" ≡ "engineA/actions.yaml")
    × (clean "../a" ≡ "../a")
    × (clean "/../a/." ≡ "/a")
    × (clean "" ≡ ".")
    × (clean "a/.." ≡ ".")
unfolding clean
clean_tests = (refl, refl, refl, refl, refl, refl)
