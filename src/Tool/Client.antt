-- ===== src/Tool/Client.antt =====
-- internal/roomctl/graphql_client.go. `net/http` and `encoding/json` are the parameter `Wire`.
use mathlib.Core.Bool.{◌||◌}
use sys_escape.Prelude.{
  ℕ, ltb, leb, Bool, List, [], ◌∷◌, Option, String, Result, ok, err, fail_if, or_err, ◌>>=◌, ◌>>◌,
}
use sys_escape.Prelude.Int.{ℤ}
use sys_escape.Prelude.Text.{trim_space, append_text}

pub record PublishMutationInput : Type 0 where
  pub client_request_id : String
  pub room_slug : String
  pub version : ℤ
  pub changelog : String
  pub bundle_hash_sha256 : String
  pub activate : Bool

pub record PublishedRoomVersion : Type 0 where
  pub id : String
  pub version_number : ℤ
  pub status : String
  pub changelog : String

pub record GraphqlClient : Type 0 where
  pub url : String
  pub admin_api_key : String

unfoldable pub new_graphql_client : String → String → GraphqlClient
unfolding trim_space
new_graphql_client url admin_api_key = record {
  url = trim_space url;
  admin_api_key = trim_space admin_api_key;
}

-- A POST with a JSON body of the one mutation and its variables.
pub record ToolRequest : Type 0 where
  pub url : String
  pub content_type : String
  pub authorization : String
  pub input : PublishMutationInput

pub record ToolReply : Type 0 where
  pub status : ℕ
  pub body : String

-- `code` is empty where the extensions have no text of that name.
pub record ReplyError : Type 0 where
  pub message : String
  pub code : String

pub record ParsedReply : Type 0 where
  pub room_version : Option PublishedRoomVersion
  pub errors : List ReplyError

pub data ClientError : Type 0 where
  request_failed bad_reply missing_room_version : ClientError
  http_status : ℕ → ClientError
  graphql_error : String → String → ClientError

-- `none` is an error of marshalling, sending or reading.
pub record Wire : Type 0 where
  pub send : ToolRequest → Option ToolReply
  pub parse : String → Option ParsedReply

unfoldable pub tool_request : GraphqlClient → PublishMutationInput → ToolRequest
tool_request client input = record {
  url = client.url;
  content_type = "application/json";
  authorization = append_text "Bearer " client.admin_api_key;
  input = input;
}

abbrev pub no_errors : List ReplyError → Result ClientError (Unit {0})
no_errors [] = ok tt
no_errors (e ∷ errors) = err (graphql_error e.code e.message)

-- `GraphQLClient.PublishRoomVersion`.
unfoldable pub client_publish_room_version :
    Wire → GraphqlClient → PublishMutationInput → Result ClientError PublishedRoomVersion
unfolding tool_request
client_publish_room_version wire client input = do
  reply ← or_err request_failed (wire.send (tool_request client input))
  fail_if (ltb reply.status 200 || leb 300 reply.status) (http_status reply.status)
  parsed ← or_err bad_reply (wire.parse reply.body)
  no_errors parsed.errors
  or_err missing_room_version parsed.room_version
