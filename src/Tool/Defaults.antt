-- ===== src/Tool/Defaults.antt =====
-- What the checks of internal/roomctl/publish.go are left with once the defaults are filled in.
use mathlib.Core.Bool.{◌&&◌, ◌||◌, not}
use sys_escape.Prelude.{
  ◌≡◌, refl, ◌∙◌, Bool, true, false, String, if◌then◌else◌, ok, err, arith, Bool-cases, inl, inr,
}
use sys_escape.Prelude.Int.{pos, ltb_ℤ}
use sys_escape.Prelude.Text.{str_eq, is_blank, trim_space}
use sys_escape.Prelude.Text.Trim.{is_blank-trim_space}
use sys_escape.Settings.Env.{Env, env_or_default}
use sys_escape.Tool.Options.{
  PublishOptions, if_blank, admin_key_of, with_publish_defaults, required, bad_version,
  validate_publish_options,
}

is_blank_lem : (s : String) → is_blank s ≡ str_eq (trim_space s) ""
unfolding is_blank
is_blank_lem s = refl

is_blank-env_or_default :
    (env : Env) (key fallback : String)
    → is_blank fallback ≡ false
    → is_blank (env_or_default env key fallback) ≡ false
unfolding env_or_default
is_blank-env_or_default env key fallback h = elim (Bool-cases (str_eq (trim_space (env key)) "")) [
  | inl e ↦ rw e h
  | inr e ↦ rw e (is_blank-trim_space (env key) ∙ is_blank_lem (env key) ∙ e)
]

is_blank-if_blank :
    (value other : String) → is_blank other ≡ false → is_blank (if_blank value other) ≡ false
is_blank-if_blank value other h = ground (arith, h)

-- The key of the options, else of the environment, is there.
abbrev pub has_key : Env → PublishOptions → Bool
has_key env opts =
    not (is_blank opts.admin_api_key)
    || not (is_blank (env "SER_ADMIN_API_KEY"))
    || not (is_blank (env "ADMIN_API_KEY"))

is_blank-admin_key_of :
    (env : Env)
    → is_blank (admin_key_of env)
      ≡ (is_blank (env "SER_ADMIN_API_KEY") && is_blank (env "ADMIN_API_KEY"))
unfolding admin_key_of
is_blank-admin_key_of env = elim (Bool-cases (str_eq (trim_space (env "SER_ADMIN_API_KEY")) "")) [
  | inl e ↦
      rw (e, is_blank-trim_space (env "ADMIN_API_KEY"), is_blank_lem (env "SER_ADMIN_API_KEY"), e)
        refl
  | inr e ↦
      rw
        (
          e,
          is_blank-trim_space (env "SER_ADMIN_API_KEY"),
          is_blank_lem (env "SER_ADMIN_API_KEY"),
          e,
        )
        refl
]

is_blank-key :
    (env : Env) (opts : PublishOptions)
    → is_blank (if_blank opts.admin_api_key (admin_key_of env)) ≡ not (has_key env opts)
is_blank-key env opts = elim (Bool-cases (is_blank opts.admin_api_key)) [
  | inl e ↦
      rw (e, is_blank-admin_key_of env)
        (nor (is_blank (env "SER_ADMIN_API_KEY")) (is_blank (env "ADMIN_API_KEY")))
  | inr e ↦ rw (e) e
]
  where
    nor : (a b : Bool) → (a && b) ≡ not (not a || not b)
    nor true true = refl
    nor true false = refl
    nor false b = refl

filled :
    (value : String) (env : Env) (key fallback : String)
    → is_blank fallback ≡ false
    → is_blank (if_blank value (env_or_default env key fallback)) ≡ false
filled value env key fallback h =
    is_blank-if_blank value (env_or_default env key fallback)
      (is_blank-env_or_default env key fallback h)

validate_publish_options-urls :
    (opts : PublishOptions)
    → is_blank opts.bff_url ≡ false
    → is_blank opts.s3_endpoint ≡ false
    → is_blank opts.s3_bucket ≡ false
    → is_blank opts.s3_access_key ≡ false
    → is_blank opts.s3_secret_key ≡ false
    → is_blank opts.s3_region ≡ false
    → validate_publish_options opts ≡ (
        if is_blank opts.room_dir
        then err (required "room directory")
        else if ltb_ℤ opts.version (pos 1)
        then err bad_version
        else if is_blank opts.admin_api_key
        then err (required "admin api key")
        else ok tt)
unfolding validate_publish_options
validate_publish_options-urls opts b e k a s r = ground (arith, b, e, k, a, s, r)

-- Once the defaults are filled in, the checks of the options fail exactly where the room directory is blank,
-- where the version is below 1, or where neither the options nor the two variables of the environment have
-- an administrator's key, and with the error of the first of these.
pub validate_publish_options-defaults :
    (env : Env) (opts : PublishOptions)
    → validate_publish_options (with_publish_defaults env opts) ≡ (
        if is_blank opts.room_dir
        then err (required "room directory")
        else if ltb_ℤ opts.version (pos 1)
        then err bad_version
        else if has_key env opts
        then ok tt
        else err (required "admin api key"))
unfolding with_publish_defaults
validate_publish_options-defaults env opts =
    validate_publish_options-urls (with_publish_defaults env opts)
      (filled opts.bff_url env "SER_BFF_URL" "http://localhost:8080/graphql" refl)
      (filled opts.s3_endpoint env "S3_ENDPOINT" "http://localhost:9000" refl)
      (filled opts.s3_bucket env "S3_BUCKET" "ser-bundles" refl)
      (filled opts.s3_access_key env "S3_ACCESS_KEY" "minioadmin" refl)
      (filled opts.s3_secret_key env "S3_SECRET_KEY" "minioadmin" refl)
      (filled opts.s3_region env "S3_REGION" "us-east-1" refl)
    ∙ rw (is_blank-key env opts)
        (elim (Bool-cases (has_key env opts)) [ inl e ↦ rw e refl | inr e ↦ rw e refl ])
