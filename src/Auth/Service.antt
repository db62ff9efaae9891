-- ===== src/Auth/Service.antt =====
-- internal/auth/service/auth_service.go. A repository that is nil is a false flag of `AuthService`, and
-- a service that is nil is `none`.
use mathlib.Core.Bool.{not}
use sys_escape.Prelude.{
  ℕ, ◌+◌, ltb, Bool, Option, none, some, String, if◌then◌else◌, Result, ok, err, fail_if, map_err,
  or_err, ◌>>=◌, ◌>>◌,
}
use sys_escape.Prelude.Text.{str_eq}
use sys_escape.Auth.Tables.{
  User, Session, AuthDb, Conditions, AuthError, service_nil, session_repo_nil, user_repo_nil,
  github_client_nil, code_required, exchange_failed, profile_failed, session_not_found,
  session_expired, user_not_found, upsert_by_github_id, get_user_by_id, insert_session, get_session,
  delete_session,
}
use sys_escape.Auth.GitHub.{GitHubUser, GitHubClient}

pub record AuthService : Type 0 where
  pub user_repo : Bool
  pub session_repo : Bool
  pub github_client : Option GitHubClient

-- 7 * 24 * time.Hour, in nanoseconds.
abbrev pub session_ttl : ℕ
session_ttl = 604_800_000_000_000

abbrev pub profile_of : GitHubClient → String → Result AuthError GitHubUser
profile_of client code = do
  access_token ← map_err (λ e. exchange_failed) (client.exchange_code code)
  map_err (λ e. profile_failed) (client.get_user access_token)

abbrev pub display_name_of : GitHubUser → String
display_name_of profile = if str_eq profile.name "" then profile.login else profile.name

unfoldable pub upsert_profile :
    Conditions → AuthDb → Result AuthError GitHubUser → Result AuthError User × AuthDb
unfolding upsert_by_github_id
upsert_profile c db (err e) = (err e, db)
upsert_profile c db (ok profile) =
    upsert_by_github_id c db profile.id profile.login (display_name_of profile)

unfoldable pub exchange_code_for_user :
    Conditions → Option AuthService → AuthDb → String → Result AuthError User × AuthDb
unfolding upsert_profile
exchange_code_for_user c none db code = (err service_nil, db)
exchange_code_for_user c (some service) db code =
    if str_eq code "" then (err code_required, db) else elim service.github_client [
      | none ↦ (err github_client_nil, db)
      | some client ↦
          if not service.user_repo
          then (err user_repo_nil, db)
          else upsert_profile c db (profile_of client code)
    ]

unfoldable pub create_session :
    Conditions → Option AuthService → AuthDb → ℕ → Result AuthError Session × AuthDb
unfolding insert_session
create_session c none db user_id = (err service_nil, db)
create_session c (some service) db user_id =
    if not service.session_repo
    then (err session_repo_nil, db)
    else insert_session c db user_id (c.now + session_ttl)

unfoldable pub validate_session :
    Conditions → Option AuthService → AuthDb → ℕ → Result AuthError User
unfolding get_session get_user_by_id
validate_session c none db session_id = err service_nil
validate_session c (some service) db session_id = do
  fail_if (not service.session_repo) session_repo_nil
  fail_if (not service.user_repo) user_repo_nil
  row ← get_session c db session_id
  session ← or_err session_not_found row
  fail_if (not (ltb c.now session.expires_at)) session_expired
  user ← get_user_by_id c db session.user_id
  or_err user_not_found user

unfoldable pub logout :
    Conditions → Option AuthService → AuthDb → ℕ → Result AuthError (Unit {0}) × AuthDb
unfolding delete_session
logout c none db session_id = (err service_nil, db)
logout c (some service) db session_id =
    if not service.session_repo then (err session_repo_nil, db) else delete_session c db session_id
