-- ===== src/Tool/Options.antt =====
-- The options of internal/roomctl/publish.go.
use sys_escape.Prelude.{Bool, true, String, if◌then◌else◌, Result, fail_if, ◌>>◌}
use sys_escape.Prelude.Int.{ℤ, pos, ltb_ℤ}
use sys_escape.Prelude.Text.{str_eq, is_blank, trim_space}
use sys_escape.Settings.Env.{Env, env_or_default, bool_env_or_default}

pub record PublishOptions : Type 0 where
  pub room_dir : String
  pub version : ℤ
  pub activate : Bool
  pub bff_url : String
  pub s3_endpoint : String
  pub s3_bucket : String
  pub s3_access_key : String
  pub s3_secret_key : String
  pub s3_region : String
  pub s3_force_path_style : Bool
  pub admin_api_key : String
  pub changelog : String

abbrev pub if_blank : String → String → String
if_blank value other = if is_blank value then other else value

unfoldable pub admin_key_of : Env → String
unfolding trim_space
admin_key_of env =
    if str_eq (trim_space (env "SER_ADMIN_API_KEY")) ""
    then trim_space (env "ADMIN_API_KEY")
    else trim_space (env "SER_ADMIN_API_KEY")

unfoldable pub with_publish_defaults : Env → PublishOptions → PublishOptions
unfolding is_blank env_or_default bool_env_or_default admin_key_of
with_publish_defaults env opts = record opts {
  bff_url =
      if_blank opts.bff_url (env_or_default env "SER_BFF_URL" "http://localhost:8080/graphql");
  s3_endpoint =
      if_blank opts.s3_endpoint (env_or_default env "S3_ENDPOINT" "http://localhost:9000");
  s3_bucket = if_blank opts.s3_bucket (env_or_default env "S3_BUCKET" "ser-bundles");
  s3_access_key = if_blank opts.s3_access_key (env_or_default env "S3_ACCESS_KEY" "minioadmin");
  s3_secret_key = if_blank opts.s3_secret_key (env_or_default env "S3_SECRET_KEY" "minioadmin");
  s3_region = if_blank opts.s3_region (env_or_default env "S3_REGION" "us-east-1");
  s3_force_path_style =
      if opts.s3_force_path_style then true else bool_env_or_default env "S3_FORCE_PATH_STYLE" true;
  admin_api_key = if_blank opts.admin_api_key (admin_key_of env);
  changelog = if_blank opts.changelog "Published by roomctl";
}

pub data OptionError : Type 0 where
  required : String → OptionError
  bad_version : OptionError

unfoldable pub validate_publish_options : PublishOptions → Result OptionError (Unit {0})
unfolding is_blank
validate_publish_options opts = do
  fail_if (is_blank opts.room_dir) (required "room directory")
  fail_if (ltb_ℤ opts.version (pos 1)) bad_version
  fail_if (is_blank opts.bff_url) (required "bff url")
  fail_if (is_blank opts.admin_api_key) (required "admin api key")
  fail_if (is_blank opts.s3_endpoint) (required "s3 endpoint")
  fail_if (is_blank opts.s3_bucket) (required "s3 bucket")
  fail_if (is_blank opts.s3_access_key) (required "s3 access key")
  fail_if (is_blank opts.s3_secret_key) (required "s3 secret key")
  fail_if (is_blank opts.s3_region) (required "s3 region")
