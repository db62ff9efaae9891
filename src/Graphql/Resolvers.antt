-- ===== src/Graphql/Resolvers.antt =====
-- internal/graphql/resolvers/resolver.go and schema.resolvers.go. `google/uuid` and the format of times
-- are the parameter `Formats`. A dependency that is nil is a false flag of `Resolver`.
use mathlib.Core.Bool.{not}
use sys_escape.Prelude.{
  ℕ, Bool, List, Option, none, some, String, map, if◌then◌else◌, Result, ok, err,
}
use sys_escape.Prelude.Int.{ℤ}
use sys_escape.Prelude.Text.{str_eq}
use sys_escape.Auth.Tables.{User}
use sys_escape.Starts.Idempotency.{StartError, idempotency_conflict, request_in_progress}
use sys_escape.Starts.RunService.{Texts, Minter, Weather, World, Db, StartRunResult, start_run}
use sys_escape.Publishing.Service.{
  PublishError, bundle_not_found, key_error, Hashes, Circumstances, PublishDb, RoomRow, RoomVersion,
  publish,
}
use sys_escape.Catalog.RoomRepo.{RoomWithVersion, CatalogError, list, get_by_slug}

pub record Formats : Type 0 where
  pub uuid_text : ℕ → String
  pub rfc3339 : ℕ → String

pub record Resolver : Type 0 where
  pub catalog_repo : Bool
  pub publish_service : Bool
  pub run_service : Bool

-- `coded` has the message and the code of an error that the client is told apart.
pub data GqlError : Type 0 where
  coded : String → String → GqlError
  missing_service : String → GqlError
  publish_error : PublishError → GqlError
  start_error : StartError → GqlError
  catalog_error : CatalogError → GqlError

pub record GqlRoomVersion : Type 0 where
  pub id : String
  pub version_number : ℤ
  pub status : String
  pub changelog : String
  pub published_at : String

pub record GqlRoom : Type 0 where
  pub id : String
  pub slug : String
  pub title : String
  pub district : String
  pub engine : String
  pub difficulty : String
  pub description : String
  pub latest_version : Option GqlRoomVersion

pub record PublishRoomVersionInput : Type 0 where
  pub client_request_id : String
  pub room_slug : String
  pub version : ℤ
  pub changelog : String
  pub bundle_hash_sha256 : String
  pub activate : Bool

pub record GqlStartRunInput : Type 0 where
  pub client_request_id : String
  pub room_slug : String

pub record StartRunPayload : Type 0 where
  pub run_id : String
  pub run_token : String

pub record Viewer : Type 0 where
  pub user_id : String
  pub role : String
  pub github_username : Option String

abbrev pub map_room_version : Formats → Option RoomVersion → Option GqlRoomVersion
map_room_version formats none = none
map_room_version formats (some version) = some (record {
  id = formats.uuid_text version.id;
  version_number = version.version_number;
  status = version.status;
  changelog = version.changelog;
  published_at = formats.rfc3339 version.published_at;
})

abbrev pub map_room : Formats → RoomWithVersion → GqlRoom
map_room formats row = record {
  id = formats.uuid_text row.room.id;
  slug = row.room.slug;
  title = row.room.title;
  district = row.room.district;
  engine = row.room.engine;
  difficulty = row.room.difficulty;
  description = row.room.description;
  latest_version = map_room_version formats row.latest_version;
}

-- The errors that have a code of their own.
abbrev pub key_gql_error : (StartError → GqlError) → StartError → GqlError
key_gql_error other idempotency_conflict = coded "idempotency conflict" "CONFLICT"
key_gql_error other request_in_progress = coded "request in progress" "CONFLICT"
key_gql_error other e = other e

abbrev pub publish_gql_error : PublishError → GqlError
publish_gql_error (key_error e) = key_gql_error (λ f. publish_error (key_error f)) e
publish_gql_error bundle_not_found = coded "bundle not found in storage" "BUNDLE_NOT_FOUND"
publish_gql_error e = publish_error e

abbrev pub published :
    Formats
    → Result PublishError (Option RoomVersion) × PublishDb
    → Result GqlError (Option GqlRoomVersion) × PublishDb
published formats (err e, db) = (err (publish_gql_error e), db)
published formats (ok rv, db) = (ok (map_room_version formats rv), db)

-- From the check of the user on.
unfoldable pub publish_as :
    Formats
    → Resolver
    → Hashes
    → Circumstances
    → PublishDb
    → PublishRoomVersionInput
    → User
    → Result GqlError (Option GqlRoomVersion) × PublishDb
unfolding publish
publish_as formats resolver hashes c db input user =
    if not resolver.publish_service
    then (err (missing_service "publish service is nil"), db)
    else published formats (
        publish hashes c db (record {
          client_request_id = input.client_request_id;
          user_id = user.id;
          room_slug = input.room_slug;
          version = input.version;
          changelog = input.changelog;
          bundle_hash_sha256 = input.bundle_hash_sha256;
          activate = input.activate;
        }))

abbrev pub forbidden : GqlError
forbidden = coded "forbidden" "FORBIDDEN"

unfoldable pub publish_room_version :
    Formats
    → Resolver
    → Hashes
    → Circumstances
    → PublishDb
    → PublishRoomVersionInput
    → Option User
    → Result GqlError (Option GqlRoomVersion) × PublishDb
unfolding publish_as
publish_room_version formats resolver hashes c db input none = (err forbidden, db)
publish_room_version formats resolver hashes c db input (some user) =
    if not (str_eq user.role "ADMIN")
    then (err forbidden, db)
    else publish_as formats resolver hashes c db input user

abbrev pub started :
    Formats → Result StartError StartRunResult × Db → Result GqlError StartRunPayload × Db
started formats (err e, db) = (err (key_gql_error start_error e), db)
started formats (ok r, db) =
    (ok (record { run_id = formats.uuid_text r.run_id; run_token = r.run_token }), db)

-- From the look-up of the room on.
unfoldable pub start_in_room :
    Formats
    → Texts
    → Minter
    → Weather
    → World
    → Db
    → GqlStartRunInput
    → User
    → Result CatalogError (Option RoomWithVersion)
    → Result GqlError StartRunPayload × Db
unfolding start_run
start_in_room formats texts minter weather world db input user (err e) = (err (catalog_error e), db)
start_in_room formats texts minter weather world db input user (ok none) =
    (err (coded "room not found" "NOT_FOUND"), db)
start_in_room formats texts minter weather world db input user (ok (some row)) =
    elim row.room.active_room_version_id [
      | none ↦ (err (coded "room has no active version" "NOT_FOUND"), db)
      | some version_id ↦ started formats (
          start_run texts minter weather world db (record {
            client_request_id = input.client_request_id;
            user_id = user.id;
            room_slug = input.room_slug;
            room_version_id = version_id;
            engine = row.room.engine;
          }))
    ]

-- `StartRun`; `rooms` and `versions` are what the query of the catalog sees.
unfoldable pub start_run_resolver :
    Formats
    → Resolver
    → Texts
    → Minter
    → Weather
    → World
    → (fails : Bool) (rooms : List RoomRow) (versions : List RoomVersion) → Db
    → GqlStartRunInput
    → Option User
    → Result GqlError StartRunPayload × Db
unfolding start_in_room get_by_slug
start_run_resolver formats resolver texts minter weather world fails rooms versions db input none =
    (err (coded "unauthorized" "UNAUTHORIZED"), db)
start_run_resolver formats resolver texts minter weather world fails rooms versions db input
      (some user) =
    if not resolver.catalog_repo
    then (err (missing_service "catalog repo is nil"), db)
    else if not resolver.run_service
    then (err (missing_service "run service is nil"), db)
    else start_in_room formats texts minter weather world db input user
        (get_by_slug fails rooms versions input.room_slug)

unfoldable pub viewer : Formats → Option User → Option Viewer
viewer formats none = none
viewer formats (some user) = some (record {
  user_id = formats.uuid_text user.id;
  role = user.role;
  github_username = if str_eq user.github_username "" then none else some user.github_username;
})

abbrev pub listed :
    Formats → Result CatalogError (List RoomWithVersion) → Result GqlError (List GqlRoom)
listed formats (err e) = err (catalog_error e)
listed formats (ok rows) = ok (map (map_room formats) rows)

unfoldable pub rooms_resolver :
    Formats
    → Resolver
    → (List RoomWithVersion → List RoomWithVersion)
    → (fails : Bool) (rooms : List RoomRow) (versions : List RoomVersion)
    → (engine difficulty district : Option String) → Result GqlError (List GqlRoom)
unfolding list
rooms_resolver formats resolver order fails rooms versions engine difficulty district =
    if not resolver.catalog_repo
    then err (missing_service "catalog repo is nil")
    else listed formats (
        list order fails rooms versions
          (record { engine = engine; difficulty = difficulty; district = district }))

abbrev pub found_room :
    Formats → Result CatalogError (Option RoomWithVersion) → Result GqlError (Option GqlRoom)
found_room formats (err e) = err (catalog_error e)
found_room formats (ok none) = ok none
found_room formats (ok (some row)) = ok (some (map_room formats row))

unfoldable pub room_by_slug :
    Formats
    → Resolver
    → (fails : Bool) (rooms : List RoomRow) (versions : List RoomVersion) → String
    → Result GqlError (Option GqlRoom)
unfolding get_by_slug
room_by_slug formats resolver fails rooms versions slug =
    if not resolver.catalog_repo
    then err (missing_service "catalog repo is nil")
    else found_room formats (get_by_slug fails rooms versions slug)
