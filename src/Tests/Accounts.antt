-- ===== src/Tests/Accounts.antt =====
-- A login, a request with its cookie and a logout (internal/auth).
use sys_escape.Prelude.{
  ℕ, zero, suc, arith, ◌≡◌, ◌≢◌, refl, sym, ap, true, false, [], ◌∷◌, Option, none, some, String,
  ok,
}
use sys_escape.Prelude.Int.{pos}
use sys_escape.Prelude.Text.{cut_prefix}
use sys_escape.Auth.Tables.{
  User, Session, AuthDb, Conditions, find_user, upsert_row, upsert_by_github_id, get_user_by_id,
  find_session, insert_session, get_session, delete_session,
}
use sys_escape.Auth.GitHub.{
  GitHubUser, GitHubClient, OAuthConfig, Http, real_exchange_code, real_get_user,
  real_github_client,
}
use sys_escape.Auth.Service.{
  AuthService, profile_of, upsert_profile, exchange_code_for_user, create_session, validate_session,
  logout,
}
use sys_escape.Auth.Transport.{
  Uuids, Request, redirect, session_cookie, begin_session, handle_github_login,
  handle_github_callback, handle_logout, user_of_cookie, has_api_key, require_auth, require_admin,
}
use sys_escape.Auth.Valid.{IsValid}
use sys_escape.Auth.Steps.{Reach, Reach-IsValid}
use sys_escape.Auth.Steps
use sys_escape.Auth.System.{is_system, IsSafe, RealReach, here, logs_in}
use sys_escape.Auth.Roles.{is_admin}
use sys_escape.Auth.Login.{UuidLaws, callback-session}
use sys_escape.Auth.Logout.{logout-cookies}
use sys_escape.Auth.Profile.{exchange_code_for_user_not_system}

-- An id as one mark more than its number.
abbrev marks : ℕ → String
marks zero = ""
marks (suc n) = String.◌∷◌ "x" (marks n)

abbrev count_marks : String → ℕ
count_marks String.[] = 0
count_marks (String.◌∷◌ c s) = suc (count_marks s)

abbrev parse_marks : String → Option ℕ
parse_marks String.[] = none
parse_marks (String.◌∷◌ c s) = some (count_marks s)

count_marks-marks : (n : ℕ) → count_marks (marks n) ≡ n
count_marks-marks zero = refl
count_marks-marks (suc n) = ap suc (count_marks-marks n)

abbrev pub uuids : Uuids
uuids = record { parse = parse_marks; text = λ n. String.◌∷◌ "x" (marks n) }

uuid_laws : UuidLaws uuids
uuid_laws = record { parse-text = λ n. ap some (count_marks-marks n); parse_empty = refl }

abbrev pub conditions : Conditions
conditions = record {
  upsert_fails = false;
  create_fails = false;
  session_fails = false;
  user_fails = false;
  delete_fails = false;
  now = 10;
  user_id = 2;
  session_id = 1;
}

abbrev config : OAuthConfig
config = record {
  client_id = "client";
  client_secret = "secret";
  redirect_url = "https://escape.example/callback";
  post_login_redirect_url = "";
}

abbrev http : Http
http = record {
  send = λ request. some (record { status = 200; body = "" });
  token_of = λ body. some (record { access_token = "token"; error = ""; error_description = "" });
  user_of = λ body. some (record { id = pos 77; login = "octocat"; name = "" });
}

abbrev client : GitHubClient
client = real_github_client http config

abbrev pub service : AuthService
service = record { user_repo = true; session_repo = true; github_client = some client }

abbrev admin_row : User
admin_row = record {
  id = 0;
  github_id = pos 0;
  github_username = "system-roomctl";
  display_name = "System (roomctl)";
  role = "ADMIN";
  created_at = 0;
  updated_at = 0;
}

abbrev pub octocat : User
octocat = record {
  id = 2;
  github_id = pos 77;
  github_username = "octocat";
  display_name = "octocat";
  role = "USER";
  created_at = 10;
  updated_at = 10;
}

abbrev pub seeded : AuthDb
seeded = record { users = admin_row ∷ []; sessions = [] }

abbrev session : Session
session = record { id = 1; user_id = 2; expires_at = 604_800_000_000_010; created_at = 10 }

abbrev pub logged_in : AuthDb
logged_in = record { users = admin_row ∷ octocat ∷ []; sessions = session ∷ [] }

abbrev callback : Request
callback = record { cookie = none; authorization = ""; code = "abc" }

abbrev with_cookie : Request
with_cookie = record { cookie = some "xx"; authorization = ""; code = "" }

-- All that the accounts compute with.
unfoldable pub accounts : Unit {0}
unfolding find_user upsert_row upsert_by_github_id get_user_by_id find_session insert_session
    get_session delete_session real_exchange_code real_get_user real_github_client upsert_profile
    exchange_code_for_user create_session validate_session logout begin_session
    handle_github_callback handle_logout user_of_cookie cut_prefix has_api_key is_admin require_auth
    require_admin handle_github_login
accounts = tt

seeded-IsValid : IsValid seeded
seeded-IsValid = record { users = (tt, tt); sessions = tt; owned = tt }

login_test :
    handle_github_callback uuids conditions config (some service) seeded callback
    ≡ (redirect (some (session_cookie uuids session)) "/", logged_in)
unfolding accounts
login_test = refl

callback-session_example :
    (c : GitHubClient) × (profile : GitHubUser) × (user : User) × (service.github_client ≡ some c)
    × (profile_of c "abc" ≡ ok profile)
    × (user.github_id ≡ profile.id)
    × (user_of_cookie uuids conditions (some service) logged_in (some "xx") ≡ some user)
unfolding accounts
callback-session_example =
    callback-session uuids uuid_laws conditions conditions config service seeded logged_in callback
      (session_cookie uuids session) "/" seeded-IsValid login_test refl refl

logout-cookies_example :
    user_of_cookie uuids conditions
      (some service)
      (handle_logout uuids conditions (some service) logged_in with_cookie).1
      (some "xx")
    ≡ none
unfolding accounts
logout-cookies_example =
    logout-cookies uuids conditions conditions service logged_in with_cookie "xx" "xx" 1 refl refl
      refl refl

-- A login and then a logout.
steps : Reach uuids seeded (handle_logout uuids conditions (some service) logged_in with_cookie).1
steps =
    Steps.next
      (Steps.next Steps.here
        (Steps.logs_in conditions config (some service) callback (ap (λ p. p.1) (sym login_test))))
      (Steps.logs_out conditions (some service) with_cookie refl)

pub joined : RealReach uuids seeded logged_in
unfolding accounts
joined = logs_in conditions http config config service callback here refl refl

pub seeded-IsSafe : IsSafe seeded
unfolding is_admin is_system find_user
seeded-IsSafe = record { valid = seeded-IsValid; admins = λ id h. ground (arith, h); sessions = tt }

Reach-IsValid_example :
    IsValid (handle_logout uuids conditions (some service) logged_in with_cookie).1
Reach-IsValid_example =
    Reach-IsValid uuids seeded
      (handle_logout uuids conditions (some service) logged_in with_cookie).1 steps seeded-IsValid

exchange_code_for_user_not_system_example : octocat.github_id ≢ pos 0
unfolding accounts
exchange_code_for_user_not_system_example =
    exchange_code_for_user_not_system http config conditions service seeded
      (record { users = admin_row ∷ octocat ∷ []; sessions = [] }) "abc" octocat seeded-IsValid refl
      refl
