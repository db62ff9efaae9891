-- ===== src/Bundles/Check.antt =====
-- internal/roomctl/validate.go and the checks of build.go. The file system is the parameter `Disk`, and
-- `gopkg.in/yaml.v3` the parameter `Decoders`.
use mathlib.Core.Bool.{◌||◌, not}
use sys_escape.Prelude.{
  Bool, true, false, List, [], ◌∷◌, ◌++◌, Option, none, some, String, map, select, if◌then◌else◌,
  Result, ok, err, fail_if, or_err, ◌>>=◌, ◌>>◌,
}
use sys_escape.Prelude.Int.{ℤ, pos, leb_ℤ}
use sys_escape.Prelude.Text.{str_eq, is_blank, trim_space, cut_prefix}
use sys_escape.Prelude.Assoc.{contains}
use sys_escape.Prelude.Sort.{sort_strings}
use sys_escape.Bundles.Paths.{join, base}
use sys_escape.Bundles.Loader.{BundleAction}

pub record Metadata : Type 0 where
  pub slug : String
  pub title : String
  pub district : String
  pub difficulty : String
  pub engine : String
  pub description : String
  pub estimated_minutes : ℤ
  pub tags : List String

-- `stat` says whether a path is a directory; `none` is an error.
pub record Disk : Type 0 where
  pub stat : String → Option Bool
  pub read_file : String → Option String
  pub read_dir : String → Option (List (String × Bool))

-- Whether a text decodes and, of the values that the checks read, what it decodes to: of a simulation the
-- keys of `action_effects`.
pub record Decoders : Type 0 where
  pub metadata : String → Option Metadata
  pub scenario : String → Bool
  pub actions : String → Option (List BundleAction)
  pub signals : String → Bool
  pub win_checks : String → Bool
  pub simulation_keys : String → Option (List String)

-- Of the required fields that are blank, the code names the first one that the range over a map meets,
-- which is any of them; the model leaves the name out.
pub data CheckError : Type 0 where
  not_a_directory unreadable_file bad_file : String → CheckError
  missing_field missing_minutes missing_tags slug_mismatch bad_difficulty bad_engine : CheckError
  key_mismatch : (missing_in_simulation missing_in_actions : List String) → CheckError
  bad_root no_rooms leak : String → CheckError

unfoldable pub must_dir : Disk → String → Result CheckError (Unit {0})
must_dir disk path = elim (disk.stat path) [
  | some true ↦ ok tt
  | some false ↦ err (not_a_directory path)
  | none ↦ err (not_a_directory path)
]

unfoldable pub parse_yaml : {A : Type 0} → Disk → (String → Option A) → String → Result CheckError A
parse_yaml disk decode path = do
  text ← or_err (unreadable_file path) (disk.read_file path)
  or_err (bad_file path) (decode text)

-- A value that nothing reads.
abbrev pub checked : (String → Bool) → String → Option (Unit {0})
checked decodes text = if decodes text then some tt else none

unfoldable pub validate_metadata : Metadata → String → Result CheckError (Unit {0})
unfolding is_blank
validate_metadata m dir = do
  fail_if
      (is_blank m.slug
        || is_blank m.title
        || is_blank m.district
        || is_blank m.difficulty
        || is_blank m.engine
        || is_blank m.description)
      missing_field
  fail_if (leb_ℤ m.estimated_minutes (pos 0)) missing_minutes
  fail_if (elim m.tags [ [] ↦ true | _ ∷ _ ↦ false ]) missing_tags
  fail_if (not (str_eq m.slug dir)) slug_mismatch
  fail_if (not (contains m.difficulty ("L0" ∷ "L1" ∷ "L2" ∷ "L3" ∷ []))) bad_difficulty
  fail_if (not (contains m.engine ("A" ∷ "B" ∷ []))) bad_engine

-- A set as a list without repetition, in the order in which the keys come.
unfoldable pub add_key : String → List String → List String
unfolding is_blank trim_space
add_key key keys =
    if is_blank key
    then keys
    else if contains (trim_space key) keys
    then keys
    else trim_space key ∷ keys

unfoldable pub key_set : List String → List String
unfolding add_key
key_set [] = []
key_set (key ∷ keys) = add_key key (key_set keys)

unfoldable pub missing_from : List String → List String → List String
missing_from others keys = select (λ key. not (contains key others)) keys

-- The two lists are sorted, so the order of the sets is not seen.
unfoldable pub validate_action_simulation_key_match :
    List BundleAction → List String → Result CheckError (Unit {0})
unfolding key_set missing_from sort_strings
validate_action_simulation_key_match actions effects =
    let action_keys = key_set (map (λ (a : BundleAction). a.key) actions) in
    let simulation_keys = key_set effects in
    let in_simulation = missing_from simulation_keys action_keys in
    let in_actions = missing_from action_keys simulation_keys in
    elim (in_simulation ++ in_actions) [
      | [] ↦ ok tt
      | _ ∷ _ ↦ err (key_mismatch (sort_strings in_simulation) (sort_strings in_actions))
    ]

-- The five files of Engine A, in the order of the loop.
unfoldable pub validate_engine_a : Disk → Decoders → String → Result CheckError (Unit {0})
unfolding parse_yaml validate_action_simulation_key_match join
validate_engine_a disk decoders path = do
  s ← parse_yaml disk (checked decoders.scenario) (join path "scenario.yaml")
  actions ← parse_yaml disk decoders.actions (join path "actions.yaml")
  g ← parse_yaml disk (checked decoders.signals) (join path "signals.yaml")
  w ← parse_yaml disk (checked decoders.win_checks) (join path "win_checks.yaml")
  effects ← parse_yaml disk decoders.simulation_keys (join path "simulation.yaml")
  validate_action_simulation_key_match actions effects

unfoldable pub validate_room_dir : Disk → Decoders → String → Result CheckError (Unit {0})
unfolding must_dir parse_yaml validate_metadata validate_engine_a join base
validate_room_dir disk decoders room_dir = do
  must_dir disk room_dir
  meta ← parse_yaml disk decoders.metadata (join room_dir "metadata.yaml")
  validate_metadata meta (base room_dir)
  must_dir disk (join room_dir (if str_eq meta.engine "B" then "engineB" else "engineA"))
  elim (str_eq meta.engine "A") [
    | true ↦ validate_engine_a disk decoders (join room_dir "engineA")
    | false ↦ ok tt
  ]

-- The loop over the entries of the root.
unfoldable pub validate_entries :
    Disk → Decoders → String → List (String × Bool) → Result CheckError (Unit {0})
unfolding validate_room_dir join
validate_entries disk decoders root [] = ok tt
validate_entries disk decoders root ((name, false) ∷ entries) =
    validate_entries disk decoders root entries
validate_entries disk decoders root ((name, true) ∷ entries) = do
  validate_room_dir disk decoders (join root name)
  validate_entries disk decoders root entries

abbrev pub has_directory : List (String × Bool) → Bool
has_directory [] = false
has_directory (entry ∷ entries) = entry.1 || has_directory entries

unfoldable pub validate_all_rooms : Disk → Decoders → String → Result CheckError (Unit {0})
unfolding validate_entries
validate_all_rooms disk decoders root = do
  entries ← or_err (bad_root root) (disk.read_dir root)
  validate_entries disk decoders root entries
  fail_if (not (has_directory entries)) (no_rooms root)

-- internal/roomctl/build.go, `checkEngineBLeak`.
unfoldable pub check_engine_b_leak : List String → Result CheckError (Unit {0})
unfolding cut_prefix
check_engine_b_leak [] = ok tt
check_engine_b_leak (file ∷ files) =
    elim (cut_prefix "engineB/workspace/judge/hidden_tests/" file) [
      | some _ ↦ err (leak file)
      | none ↦ check_engine_b_leak files
    ]
