-- ===== src/Tool/Key.antt =====
-- The key with which the tool of internal/roomctl speaks to the server of cmd/graphql-bff.
use mathlib.Core.Bool.{◌&&◌, not}
use Prim.Native.Char.{Char}
use sys_escape.Prelude.{
  ◌≡◌, ap, ◌∙◌, Bool, true, false, Option, none, some, String, if◌then◌else◌, arith, Bool-cases,
  inl, inr,
}
use sys_escape.Prelude.Text.{str_eq, eq_iff, trim_space, append_text, cut_prefix}
use sys_escape.Auth.Tables.{AuthDb, Conditions}
use sys_escape.Auth.Service.{AuthService}
use sys_escape.Auth.Transport.{
  Uuids, Request, Handler, user_of_cookie, has_api_key, system_admin, gql_handler,
}
use sys_escape.Graphql.Access.{gql_handler_lem}
use sys_escape.Tool.Client.{PublishMutationInput, new_graphql_client, tool_request, ToolRequest}

-- The request as the server sees it: without a cookie.
abbrev pub received : ToolRequest → Request
received request = record { cookie = none; authorization = request.authorization; code = "" }

abbrev is_filled : String → Bool
is_filled String.[] = false
is_filled (String.◌∷◌ c s) = true

str_eq-filled : (c : Char) (s : String) → str_eq (String.◌∷◌ c s) "" ≡ false
str_eq-filled c s = elim (Bool-cases (str_eq (String.◌∷◌ c s) "")) [
  | inr e ↦ e
  | inl e ↦
      let same : String.◌∷◌ c s ≡ "" = (eq_iff (String.◌∷◌ c s) "").0 e in
      absurd (ground (arith, ap is_filled same))
]

has_api_key-tool :
    (url key server_key : String) (input : PublishMutationInput)
    → has_api_key server_key (received (tool_request (new_graphql_client url key) input))
      ≡ str_eq (trim_space key) server_key
unfolding has_api_key tool_request new_graphql_client cut_prefix
has_api_key-tool url key server_key input =
    ap (λ b. not b && str_eq (trim_space key) server_key)
      (str_eq-filled "B" (append_text "earer " (trim_space key)))

-- The server answers a request of the tool as one of the administrator exactly when a key is configured
-- and it is, byte for byte, the tool's key without the space around it; otherwise as one of nobody. The
-- accounts play no part in it.
pub gql_handler-tool :
    {A : Type 0} (uuids : Uuids) (c : Conditions) (service : Option AuthService)
    (url key server_key : String) (db : AuthDb) (srv : Handler A) (input : PublishMutationInput)
    → gql_handler uuids c service server_key db srv
        (received (tool_request (new_graphql_client url key) input))
      ≡ srv
          (if not (str_eq server_key "") && str_eq (trim_space key) server_key
            then some system_admin
            else none)
          (received (tool_request (new_graphql_client url key) input))
unfolding user_of_cookie
gql_handler-tool uuids c service url key server_key db srv input =
    let r = received (tool_request (new_graphql_client url key) input) in
    gql_handler_lem uuids c service server_key db srv r
    ∙ ap (λ b. srv (if not (str_eq server_key "") && b then some system_admin else none) r)
        (has_api_key-tool url key server_key input)
