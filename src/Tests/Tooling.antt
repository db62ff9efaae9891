-- ===== src/Tests/Tooling.antt =====
-- The publishing tool, the settings and the numbering of migrations (internal/roomctl, cmd).
use sys_escape.Prelude.{
  ◌≤◌, ◌<◌, arith, ◌≡◌, refl, true, false, [], ◌∷◌, Option, none, some, ok, err, if◌then◌else◌,
}
use sys_escape.Prelude.Int.{pos}
use sys_escape.Prelude.Text.{str_eq, is_blank, trim_space, cut_prefix}
use sys_escape.Auth.Tables.{User}
use sys_escape.Auth.Transport.{
  Request, user_of_cookie, has_api_key, system_admin, session_middleware, admin_api_key_middleware,
  gql_handler,
}
use sys_escape.Settings.Env.{
  Env, invalid_value, missing_vars, env_or_default, parse_bool, parse_bool_env, bool_env_or_default,
  parse_duration_env,
}
use sys_escape.Settings.Configs.{missing_of, bff_config, engine_config}
use sys_escape.Tool.Options.{
  PublishOptions, admin_key_of, with_publish_defaults, validate_publish_options, required,
}
use sys_escape.Tool.Defaults.{validate_publish_options-defaults}
use sys_escape.Tool.Client.{
  PublishMutationInput, graphql_error, new_graphql_client, tool_request,
  client_publish_room_version,
}
use sys_escape.Tool.Key.{received, gql_handler-tool}
use sys_escape.Migrate.{next_number, up_file, next_number-above}
use sys_escape.Tests.Accounts

abbrev bare : Env
bare = λ key. if str_eq key "ADMIN_API_KEY" then " secret " else ""

abbrev options : PublishOptions
options = record {
  room_dir = "rooms/cache-room";
  version = pos 2;
  activate = true;
  bff_url = "";
  s3_endpoint = "";
  s3_bucket = " ";
  s3_access_key = "";
  s3_secret_key = "";
  s3_region = "";
  s3_force_path_style = false;
  admin_api_key = "";
  changelog = "";
}

-- All that the tool and the settings compute with.
tooling : Unit {0}
unfolding is_blank trim_space cut_prefix env_or_default parse_bool parse_bool_env
    bool_env_or_default parse_duration_env missing_of bff_config engine_config admin_key_of
    with_publish_defaults validate_publish_options new_graphql_client tool_request
    client_publish_room_version user_of_cookie has_api_key session_middleware
    admin_api_key_middleware gql_handler next_number
tooling = tt

validate_publish_options-defaults_example :
    validate_publish_options (with_publish_defaults bare options) ≡ ok tt
unfolding tooling
validate_publish_options-defaults_example = validate_publish_options-defaults bare options

no_key_test :
    validate_publish_options (with_publish_defaults (λ key. "") options)
    ≡ err (required "admin api key")
unfolding tooling
no_key_test = refl

missing_test :
    bff_config (λ text. none) bare
    ≡ err (
        missing_vars (
          "DATABASE_URL" ∷ "GITHUB_CLIENT_ID" ∷ "GITHUB_CLIENT_SECRET" ∷ "GITHUB_REDIRECT_URL"
          ∷ []))
unfolding tooling
missing_test = refl

path_style_test :
    engine_config (λ key. if str_eq key "S3_FORCE_PATH_STYLE" then "no" else "")
    ≡ err (invalid_value "S3_FORCE_PATH_STYLE")
unfolding tooling
path_style_test = refl

abbrev mutation : PublishMutationInput
mutation = record {
  client_request_id = "p1";
  room_slug = "cache-room";
  version = pos 2;
  changelog = "second";
  bundle_hash_sha256 = "abc";
  activate = true;
}

gql_handler-tool_example :
    gql_handler Accounts.uuids Accounts.conditions
      (some Accounts.service)
      "secret"
      Accounts.logged_in
      (λ (user : Option User) (r : Request). user)
      (received (tool_request (new_graphql_client "http://bff" " secret ") mutation))
    ≡ some system_admin
unfolding tooling
gql_handler-tool_example =
    gql_handler-tool Accounts.uuids Accounts.conditions (some Accounts.service) "http://bff"
      " secret " "secret" Accounts.logged_in (λ user r. user) mutation

refused_reply_test :
    client_publish_room_version
      (record {
        send = λ request. some (record { status = 200; body = "" });
        parse = λ body. some (record {
          room_version = none;
          errors = record { message = "idempotency conflict"; code = "CONFLICT" } ∷ [];
        });
      })
      (new_graphql_client "http://bff" "secret")
      mutation
    ≡ err (graphql_error "CONFLICT" "idempotency conflict")
unfolding tooling
refused_reply_test = refl

next_number-above_example :
    (41
      < next_number
          (("README.md", false) ∷ (up_file 41 "keys", false) ∷ ("0007_a.up.sql", false) ∷ []))
    × (1
        ≤ next_number
            (("README.md", false) ∷ (up_file 41 "keys", false) ∷ ("0007_a.up.sql", false) ∷ []))
    × (next_number
          (("README.md", false) ∷ (up_file 41 "keys", false) ∷ ("0007_a.up.sql", false) ∷ [])
        ≤ 10000)
next_number-above_example =
    next_number-above (("README.md", false) ∷ []) (("0007_a.up.sql", false) ∷ []) 41 "keys"
      (omega arith)

up_file_test : up_file 41 "keys" ≡ "0041_keys.up.sql"
unfolding up_file
up_file_test = refl
