-- ===== src/Auth/GitHub.antt =====
-- internal/auth/service/github_client.go. `net/http` and `encoding/json` are the parameter `Http`.
use mathlib.Core.Bool.{◌||◌, not}
use Prim.Native.String.{◌++◌ as text_append}
use sys_escape.Prelude.{
  ℕ, ltb, leb, Bool, List, [], ◌∷◌, Option, String, Result, ok, fail_if, or_err, ◌>>=◌, ◌>>◌,
}
use sys_escape.Prelude.Int.{ℤ, pos, eqb_ℤ}
use sys_escape.Prelude.Text.{str_eq}

pub record GitHubUser : Type 0 where
  pub id : ℤ
  pub login : String
  pub name : String

pub data GitHubError : Type 0 where
  no_code no_access_token request_failed bad_response missing_fields : GitHubError
  bad_status : ℕ → GitHubError
  refused : String → String → GitHubError

-- `GitHubClient`.
pub record GitHubClient : Type 0 where
  pub exchange_code : String → Result GitHubError String
  pub get_user : String → Result GitHubError GitHubUser

pub record OAuthConfig : Type 0 where
  pub client_id : String
  pub client_secret : String
  pub redirect_url : String
  pub post_login_redirect_url : String

pub record HttpRequest : Type 0 where
  pub method : String
  pub url : String
  pub form : List (String × String)
  pub headers : List (String × String)

pub record HttpReply : Type 0 where
  pub status : ℕ
  pub body : String

pub record TokenPayload : Type 0 where
  pub access_token : String
  pub error : String
  pub error_description : String

-- What a request gives, and what a body decodes to.
pub record Http : Type 0 where
  pub send : HttpRequest → Option HttpReply
  pub token_of : String → Option TokenPayload
  pub user_of : String → Option GitHubUser

abbrev pub is_bad_status : ℕ → Bool
is_bad_status status = ltb status 200 || leb 300 status

abbrev pub token_request : OAuthConfig → String → HttpRequest
token_request config code = record {
  method = "POST";
  url = "https://github.com/login/oauth/access_token";
  form =
      ("client_id", config.client_id)
      ∷ ("client_secret", config.client_secret)
      ∷ ("code", code)
      ∷ ("redirect_uri", config.redirect_url)
      ∷ [];
  headers =
      ("Content-Type", "application/x-www-form-urlencoded") ∷ ("Accept", "application/json") ∷ [];
}

abbrev pub profile_request : String → HttpRequest
profile_request access_token = record {
  method = "GET";
  url = "https://api.github.com/user";
  form = [];
  headers =
      ("Accept", "application/json") ∷ ("Authorization", text_append "Bearer " access_token) ∷ [];
}

-- `RealGitHubClient.ExchangeCode`: the body is decoded before the status is looked at.
unfoldable pub real_exchange_code : Http → OAuthConfig → String → Result GitHubError String
real_exchange_code http config code = do
  fail_if (str_eq code "") no_code
  reply ← or_err request_failed (http.send (token_request config code))
  payload ← or_err bad_response (http.token_of reply.body)
  fail_if (is_bad_status reply.status) (bad_status reply.status)
  fail_if (not (str_eq payload.error "")) (refused payload.error payload.error_description)
  fail_if (str_eq payload.access_token "") no_access_token
  ok payload.access_token

-- `RealGitHubClient.GetUser`.
unfoldable pub real_get_user : Http → String → Result GitHubError GitHubUser
real_get_user http access_token = do
  fail_if (str_eq access_token "") no_access_token
  reply ← or_err request_failed (http.send (profile_request access_token))
  fail_if (is_bad_status reply.status) (bad_status reply.status)
  payload ← or_err bad_response (http.user_of reply.body)
  fail_if (eqb_ℤ payload.id (pos 0) || str_eq payload.login "") missing_fields
  ok payload

unfoldable pub real_github_client : Http → OAuthConfig → GitHubClient
unfolding real_exchange_code real_get_user
real_github_client http config = record {
  exchange_code = real_exchange_code http config;
  get_user = real_get_user http;
}
