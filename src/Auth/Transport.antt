-- ===== src/Auth/Transport.antt =====
-- internal/auth/transport: the login, callback and logout handlers and the middlewares, with their
-- composition in cmd/graphql-bff/main.go. The user in a request's context is an argument of a handler.
-- `google/uuid` and `net/url` are the parameter `Uuids` and an argument.
use mathlib.Core.Bool.{◌&&◌, not}
use Prim.Native.String.{◌++◌ as text_append}
use sys_escape.Prelude.{
  ℕ, Bool, true, false, List, [], ◌∷◌, Option, none, some, String, if◌then◌else◌, Result, ok, err,
}
use sys_escape.Prelude.Int.{ℤ, pos, negsuc}
use sys_escape.Prelude.Text.{str_eq, cut_prefix}
use sys_escape.Auth.Tables.{User, Session, AuthDb, Conditions, AuthError}
use sys_escape.Auth.GitHub.{OAuthConfig}
use sys_escape.Auth.Service.{
  AuthService, exchange_code_for_user, create_session, validate_session, logout,
}

pub record Uuids : Type 0 where
  pub parse : String → Option ℕ
  pub text : ℕ → String

-- `cookie` is the value of the cookie "session_id", `authorization` the header (empty without one) and
-- `code` the parameter of the query (empty without one).
pub record Request : Type 0 where
  pub cookie : Option String
  pub authorization : String
  pub code : String

pub record Cookie : Type 0 where
  pub name : String
  pub value : String
  pub path : String
  pub http_only : Bool
  pub secure : Bool
  pub expires : ℕ
  pub max_age : ℤ

pub data Response : Type 0 where
  http_error : String → ℕ → Response
  redirect : Option Cookie → String → Response

abbrev pub Handler : Type 0 → Type 0
Handler A = Option User → Request → A

unfoldable pub handle_github_login : (List (String × String) → String) → OAuthConfig → Response
handle_github_login encode config = redirect none (
    text_append "https://github.com/login/oauth/authorize?"
      (encode (("client_id", config.client_id) ∷ ("redirect_uri", config.redirect_url) ∷ [])))

abbrev pub session_cookie : Uuids → Session → Cookie
session_cookie uuids session = record {
  name = "session_id";
  value = uuids.text session.id;
  path = "/";
  http_only = true;
  secure = true;
  expires = session.expires_at;
  max_age = pos 0;
}

abbrev pub cleared_cookie : Cookie
cleared_cookie = record {
  name = "session_id";
  value = "";
  path = "/";
  http_only = true;
  secure = true;
  expires = 0;
  max_age = negsuc 0;
}

abbrev pub after_login : OAuthConfig → String
after_login config =
    if str_eq config.post_login_redirect_url "" then "/" else config.post_login_redirect_url

abbrev pub session_response :
    Uuids → OAuthConfig → Result AuthError Session × AuthDb → Response × AuthDb
session_response uuids config (err e, db) = (http_error "session creation failed" 500, db)
session_response uuids config (ok session, db) =
    (redirect (some (session_cookie uuids session)) (after_login config), db)

unfoldable pub begin_session :
    Uuids
    → Conditions
    → OAuthConfig
    → Option AuthService
    → Result AuthError User × AuthDb
    → Response × AuthDb
unfolding create_session
begin_session uuids c config service (err e, db) = (http_error "oauth exchange failed" 401, db)
begin_session uuids c config service (ok user, db) =
    session_response uuids config (create_session c service db user.id)

unfoldable pub handle_github_callback :
    Uuids → Conditions → OAuthConfig → Option AuthService → AuthDb → Request → Response × AuthDb
unfolding begin_session exchange_code_for_user
handle_github_callback uuids c config service db r =
    if str_eq r.code "" then (http_error "missing oauth code" 400, db) else elim service [
      | none ↦ (http_error "auth service unavailable" 500, db)
      | some s ↦ begin_session uuids c config (some s) (exchange_code_for_user c (some s) db r.code)
    ]

-- The error of Logout is dropped, and the cookie is cleared whatever happens.
abbrev pub ended_session : Uuids → Conditions → Option AuthService → AuthDb → Option String → AuthDb
ended_session uuids c service db none = db
ended_session uuids c service db (some value) = elim (uuids.parse value) [
  | none ↦ db
  | some id ↦ (logout c service db id).1
]

unfoldable pub handle_logout :
    Uuids → Conditions → Option AuthService → AuthDb → Request → Response × AuthDb
unfolding logout
handle_logout uuids c service db r =
    (redirect (some cleared_cookie) "/", ended_session uuids c service db r.cookie)

-- The user that a request's cookie stands for.
unfoldable pub user_of_cookie :
    Uuids → Conditions → Option AuthService → AuthDb → Option String → Option User
unfolding validate_session
user_of_cookie uuids c service db none = none
user_of_cookie uuids c service db (some value) =
    if str_eq value "" then none else elim (uuids.parse value) [
      | none ↦ none
      | some id ↦ elim (validate_session c service db id) [ err _ ↦ none | ok user ↦ some user ]
    ]

unfoldable pub session_middleware :
    {A : Type 0} → Uuids → Conditions → Option AuthService → AuthDb → Handler A → Handler A
unfolding user_of_cookie
session_middleware uuids c service db next ctx r =
    elim (user_of_cookie uuids c service db r.cookie) [
      | none ↦ next ctx r
      | some user ↦ next (some user) r
    ]

abbrev pub system_admin : User
system_admin = record {
  id = 0;
  github_id = pos 0;
  github_username = "";
  display_name = "";
  role = "ADMIN";
  created_at = 0;
  updated_at = 0;
}

unfoldable pub has_api_key : String → Request → Bool
unfolding cut_prefix
has_api_key api_key r = elim (cut_prefix "Bearer " r.authorization) [
  | none ↦ false
  | some token ↦ not (str_eq r.authorization "") && str_eq token api_key
]

unfoldable pub admin_api_key_middleware : {A : Type 0} → String → Handler A → Handler A
unfolding has_api_key
admin_api_key_middleware api_key next ctx r =
    if has_api_key api_key r then next (some system_admin) r else next ctx r

unfoldable pub require_auth : Handler Response → Handler Response
require_auth next none r = http_error "unauthorized" 401
require_auth next (some user) r = next (some user) r

unfoldable pub require_admin : Handler Response → Handler Response
require_admin next none r = http_error "unauthorized" 401
require_admin next (some user) r =
    if not (str_eq user.role "ADMIN") then http_error "forbidden" 403 else next (some user) r

-- The handler of POST /graphql: the key's middleware is outermost, and is there when a key is set.
unfoldable pub gql_handler :
    {A : Type 0}
    → Uuids
    → Conditions
    → Option AuthService
    → String
    → AuthDb
    → Handler A
    → Request
    → A
unfolding session_middleware admin_api_key_middleware
gql_handler uuids c service api_key db gql_srv r =
    let handler = session_middleware uuids c service db gql_srv in
    if not (str_eq api_key "")
    then admin_api_key_middleware api_key handler none r
    else handler none r
