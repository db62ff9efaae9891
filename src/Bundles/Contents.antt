-- ===== src/Bundles/Contents.antt =====
-- The archive that internal/engine/a/service/bundle_loader.go reads, as a table of its members.
use mathlib.Core.Bool.{◌&&◌}
use sys_escape.Prelude.{
  ◌≡◌, refl, sym, subst, ap, ◌∙◌, Bool, true, false, List, [], ◌∷◌, Option, none, some, String,
  if◌then◌else◌, ok, err, is_some, All, arith, Option-cases, Bool-cases, inl, inr,
}
use sys_escape.Prelude.Text.{str_eq, eq_iff, eq_refl}
use sys_escape.Prelude.Assoc.{lookup, insert, keys, contains, Distinct, lookup-insert, keys-insert}
use sys_escape.Bundles.Loader.{
  TarItem, broken, member, missing_file, Required, required_files, member_name, read_members,
  all_there, content_of, Formats, parse_bundle, load_engine_a_bundle_from_tar,
}

abbrev pub is_readable : TarItem → Bool
is_readable broken = false
is_readable (member name is_regular content) = is_some content

abbrev pub later_or : Option String → Option String → Option String
later_or none earlier = earlier
later_or (some text) earlier = some text

-- What the last regular member of a name holds.
unfoldable pub last_content : String → List TarItem → Option String
unfolding member_name
last_content name [] = none
last_content name (broken ∷ items) = last_content name items
last_content name (member n is_regular content ∷ items) =
    later_or (last_content name items)
      (if is_regular && str_eq (member_name n) name then content else none)

-- What a table holds after the members are read.
pub record Filled (items : List TarItem) (files : Required) : Type 0 where
  pub filled : Required
  pub is_read : read_members items files ≡ ok filled
  pub same_keys : keys filled ≡ keys files
  pub is_last :
      (name : String)
      → is_some (lookup name files) ≡ true
      → content_of name filled ≡ later_or (last_content name items) (content_of name files)

later_or_assoc : (a b c : Option String) → later_or a (later_or b c) ≡ later_or (later_or a b) c
later_or_assoc none b c = refl
later_or_assoc (some t) b c = refl

content_of-insert :
    (name asked text : String) (files : Required)
    → content_of asked (insert name (some text) files)
      ≡ later_or (if str_eq name asked then some text else none) (content_of asked files)
content_of-insert name asked text files = ground (arith, lookup-insert name asked (some text) files)

skipped :
    (n name : String) (r : Bool) (text : String) (last : Option String) (files filled : Required)
    → (if r then is_some (lookup (member_name n) files) else false) ≡ false
    → content_of name filled ≡ later_or last (content_of name files)
    → is_some (lookup name files) ≡ true
    → content_of name filled
      ≡ later_or
          (later_or last (if r && str_eq (member_name n) name then some text else none))
          (content_of name files)
skipped n name r text last files filled e h k =
    elim (Bool-cases (r && str_eq (member_name n) name)) [
      | inl q ↦
          let same : member_name n ≡ name = grind (arith, eq_iff (member_name n) name, q) in
          absurd (ground (arith, e, k, q, ap (λ x. lookup x files) same))
      | inr q ↦ rw q (h ∙ later_or_assoc last none (content_of name files))
    ]

there :
    (n : String) (r : Bool) (files : Required)
    → (if r then is_some (lookup (member_name n) files) else false) ≡ true
    → is_some (lookup (member_name n) files) ≡ true
there n r files e = ground (arith, e)

still :
    (n name text : String) (files : Required)
    → is_some (lookup name files) ≡ true
    → is_some (lookup name (insert (member_name n) (some text) files)) ≡ true
still n name text files k = ground (arith, k, lookup-insert (member_name n) name (some text) files)

taken :
    (n name : String) (r : Bool) (text : String) (last : Option String) (files : Required)
    → (if r then is_some (lookup (member_name n) files) else false) ≡ true
    → later_or last
        (later_or (if str_eq (member_name n) name then some text else none) (content_of name files))
      ≡ later_or
          (later_or last (if r && str_eq (member_name n) name then some text else none))
          (content_of name files)
taken n name true text last files e =
    later_or_assoc last (if str_eq (member_name n) name then some text else none)
      (content_of name files)
taken n name false text last files e = absurd (ground (arith, e))

read_members-Filled :
    (items : List TarItem) (files : Required)
    → All (λ item. is_readable item ≡ true) items
    → Filled items files
unfolding read_members last_content
read_members-Filled [] files h = record {
  filled = files;
  is_read = refl;
  same_keys = refl;
  is_last = λ name k. refl;
}
read_members-Filled (broken ∷ items) files h = absurd (ground (arith, h))
read_members-Filled (member n r none ∷ items) files h = absurd (ground (arith, h))
read_members-Filled (member n r (some text) ∷ items) files h =
    elim (Bool-cases (if r then is_some (lookup (member_name n) files) else false)) [
      | inr e ↦
          let rest = read_members-Filled items files h.1 in
          record {
            filled = rest.filled;
            is_read = rw (read_members, e) rest.is_read;
            same_keys = rest.same_keys;
            is_last = λ name k.
                skipped n name r text (last_content name items) files rest.filled e
                  (rest.is_last name k) k;
          }
      | inl e ↦
          let rest = read_members-Filled items (insert (member_name n) (some text) files) h.1 in
          record {
            filled = rest.filled;
            is_read = rw (read_members, e) rest.is_read;
            same_keys =
                rest.same_keys ∙ keys-insert (member_name n) (some text) files (there n r files e);
            is_last = λ name k.
                rest.is_last name (still n name text files k)
                ∙ ap (later_or (last_content name items))
                    (content_of-insert (member_name n) name text files)
                ∙ taken n name r text (last_content name items) files e;
          }
    ]

-- Every file of the table is there.
abbrev all_some : List String → Required → Bool
all_some [] files = true
all_some (name ∷ names) files = is_some (content_of name files) && all_some names files

all_some-other :
    (names : List String) (name : String) (v : Option String) (files : Required)
    → contains name names ≡ false
    → all_some names ((name, v) ∷ files) ≡ all_some names files
unfolding lookup
all_some-other [] name v files h = refl
all_some-other (n ∷ names) name v files h =
    ground (arith, all_some-other names name v files, eq_iff n name, eq_iff name n)

all_there-all_some :
    (files : Required) → Distinct (keys files) → all_there files ≡ all_some (keys files) files
unfolding lookup
all_there-all_some [] d = refl
all_there-all_some ((name, v) ∷ files) d = ground (
  arith,
  eq_refl name,
  all_there-all_some files d.1,
  all_some-other (keys files) name v files d.0,
)

abbrev pub all_found : List TarItem → Bool
all_found items =
    is_some (last_content "engineA/scenario.yaml" items)
    && (is_some (last_content "engineA/actions.yaml" items)
        && (is_some (last_content "engineA/signals.yaml" items)
            && (is_some (last_content "engineA/win_checks.yaml" items)
                && (is_some (last_content "engineA/simulation.yaml" items) && true))))

content_of-found :
    (items : List TarItem) (files : Required) (name : String)
    → content_of name files ≡ later_or (last_content name items) none
    → content_of name files ≡ last_content name items
content_of-found items files name h = elim (Option-cases (last_content name items)) [
  | inl e ↦ h ∙ rw e refl
  | inr (text, e) ↦ h ∙ rw e refl
]

-- The five files, once the members are read.
record Five (items : List TarItem) (files : Required) : Type 0 where
  scenario : content_of "engineA/scenario.yaml" files ≡ last_content "engineA/scenario.yaml" items
  actions : content_of "engineA/actions.yaml" files ≡ last_content "engineA/actions.yaml" items
  signals : content_of "engineA/signals.yaml" files ≡ last_content "engineA/signals.yaml" items
  win_checks :
      content_of "engineA/win_checks.yaml" files ≡ last_content "engineA/win_checks.yaml" items
  simulation :
      content_of "engineA/simulation.yaml" files ≡ last_content "engineA/simulation.yaml" items
  complete : all_there files ≡ all_found items

filled-Five :
    (items : List TarItem) (f : Filled items required_files) → Five items (Filled.filled f)
unfolding required_files lookup
filled-Five items f =
    let s = content_of-found items f.filled "engineA/scenario.yaml" (f.is_last _ refl) in
    let a = content_of-found items f.filled "engineA/actions.yaml" (f.is_last _ refl) in
    let g = content_of-found items f.filled "engineA/signals.yaml" (f.is_last _ refl) in
    let w = content_of-found items f.filled "engineA/win_checks.yaml" (f.is_last _ refl) in
    let m = content_of-found items f.filled "engineA/simulation.yaml" (f.is_last _ refl) in
    let distinct : Distinct (keys required_files) = (refl, (refl, (refl, (refl, (refl, tt))))) in
    record {
      scenario = s;
      actions = a;
      signals = g;
      win_checks = w;
      simulation = m;
      complete =
          all_there-all_some f.filled (subst Distinct (sym f.same_keys) distinct)
          ∙ ap (λ names. all_some names f.filled) f.same_keys
          ∙ rw (s, a, g, w, m) refl;
    }

-- An archive without a broken header or an unreadable member loads exactly when each of the five files
-- is there and parses: a bundle is made of what the last regular member holds whose cleaned name is the
-- file's, and nothing else in the archive, nor its order, has any influence.
pub load-contents :
    {F : Type 0} (formats : Formats F) (raw : String)
    → All (λ item. is_readable item ≡ true) (formats.items raw)
    → load_engine_a_bundle_from_tar formats raw ≡ (
        if all_found (formats.items raw)
        then parse_bundle formats
            (last_content "engineA/scenario.yaml" (formats.items raw))
            (last_content "engineA/actions.yaml" (formats.items raw))
            (last_content "engineA/signals.yaml" (formats.items raw))
            (last_content "engineA/win_checks.yaml" (formats.items raw))
            (last_content "engineA/simulation.yaml" (formats.items raw))
        else err missing_file)
unfolding load_engine_a_bundle_from_tar
load-contents formats raw h =
    let items = formats.items raw in
    let f = read_members-Filled items required_files h in
    let five = filled-Five items f in
    rw
      (
        f.is_read, five.complete, five.scenario, five.actions, five.signals, five.win_checks,
        five.simulation,
      )
      refl
