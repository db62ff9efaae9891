-- ===== src/Settings/Env.antt =====
-- The helpers of cmd/graphql-bff/main.go, cmd/engine-a/config.go and internal/roomctl/publish.go that
-- read one variable. `time.ParseDuration` is a parameter.
use sys_escape.Prelude.{
  Bool, true, false, List, [], ◌∷◌, Option, none, some, String, if◌then◌else◌, Result, ok, err,
  or_err, ◌>>=◌,
}
use sys_escape.Prelude.Int.{ℤ, pos, leb_ℤ}
use sys_escape.Prelude.Text.{str_eq, trim_space}
use sys_escape.Prelude.Assoc.{contains}

-- `os.Getenv`: a variable that is not set is empty.
abbrev pub Env : Type 0
Env = String → String

pub data EnvError : Type 0 where
  invalid_value not_positive : String → EnvError
  missing_vars : List String → EnvError

unfoldable pub env_or_default : Env → String → String → String
unfolding trim_space
env_or_default env key fallback =
    if str_eq (trim_space (env key)) "" then fallback else trim_space (env key)

-- `strconv.ParseBool`.
unfoldable pub parse_bool : String → Option Bool
parse_bool text =
    if contains text ("1" ∷ "t" ∷ "T" ∷ "TRUE" ∷ "true" ∷ "True" ∷ [])
    then some true
    else if contains text ("0" ∷ "f" ∷ "F" ∷ "FALSE" ∷ "false" ∷ "False" ∷ [])
    then some false
    else none

unfoldable pub parse_bool_env : Env → String → Bool → Result EnvError Bool
unfolding parse_bool trim_space
parse_bool_env env key fallback =
    if str_eq (trim_space (env key)) ""
    then ok fallback
    else or_err (invalid_value key) (parse_bool (trim_space (env key)))

-- The helper of internal/roomctl, which takes the fallback for a value that does not parse too.
unfoldable pub bool_env_or_default : Env → String → Bool → Bool
unfolding parse_bool trim_space
bool_env_or_default env key fallback =
    if str_eq (trim_space (env key)) ""
    then fallback
    else elim (parse_bool (trim_space (env key))) [ none ↦ fallback | some b ↦ b ]

abbrev positive : String → ℤ → Result EnvError ℤ
positive key duration = if leb_ℤ duration (pos 0) then err (not_positive key) else ok duration

unfoldable pub parse_duration_env : (String → Option ℤ) → Env → String → ℤ → Result EnvError ℤ
unfolding trim_space
parse_duration_env parse_duration env key fallback =
    if str_eq (trim_space (env key)) ""
    then ok fallback
    else or_err (invalid_value key) (parse_duration (trim_space (env key))) >>= positive key
