-- ===== src/Tests/Bff.antt =====
-- Requests to POST /graphql (internal/graphql/resolvers and cmd/graphql-bff/main.go).
use mathlib.Core.List.{Perm}
use mathlib.Core.List.Perm
use sys_escape.Prelude.{◌≡◌, refl, true, false, List, [], ◌∷◌, none, some, ok, err}
use sys_escape.Prelude.Int.{pos}
use sys_escape.Auth.Transport.{Request, session_middleware, admin_api_key_middleware, gql_handler}
use sys_escape.Starts.RunService.{Db, start_run}
use sys_escape.Publishing.Service.{RoomRow, find_room}
use sys_escape.Catalog.RoomRepo.{
  RoomFilter, RoomWithVersion, max_published, matching, base_query, passes, list, get_by_slug,
}
use sys_escape.Catalog.Latest.{list-latest, latest_published}
use sys_escape.Graphql.Resolvers.{
  Formats, Resolver, GqlStartRunInput, PublishRoomVersionInput, forbidden, started, publish_as,
  publish_room_version, start_in_room, start_run_resolver, viewer, rooms_resolver, room_by_slug,
}
use sys_escape.Graphql.Access.{publish-never}
use sys_escape.Graphql.Play.{start_run-published}
use sys_escape.Tests.Accounts
use sys_escape.Tests.Publication
use sys_escape.Tests.Starting

abbrev formats : Formats
formats = record { uuid_text = λ id. "id"; rfc3339 = λ time. "time" }

abbrev resolver : Resolver
resolver = record { catalog_repo = true; publish_service = true; run_service = true }

abbrev input : PublishRoomVersionInput
input = record {
  client_request_id = "p1";
  room_slug = "cache-room";
  version = pos 2;
  changelog = "second";
  bundle_hash_sha256 = "abc";
  activate = true;
}

abbrev by_octocat : Request
by_octocat = record { cookie = some "xx"; authorization = ""; code = "" }

abbrev by_key : Request
by_key = record { cookie = none; authorization = "Bearer secret"; code = "" }

-- All that a request computes with.
requests : Unit {0}
unfolding Accounts.accounts Publication.publishing Starting.starting session_middleware
    admin_api_key_middleware gql_handler publish_as publish_room_version start_in_room
    start_run_resolver viewer rooms_resolver room_by_slug max_published matching base_query passes
    list get_by_slug
requests = tt

key_test :
    gql_handler Accounts.uuids Accounts.conditions
      (some Accounts.service)
      "secret"
      Accounts.logged_in
      (λ user q.
        (publish_room_version formats resolver Publication.hashes Publication.calm
          Publication.before_db input user).1.versions)
      by_key
    ≡ Publication.made ∷ []
unfolding requests
key_test = refl

publish-never_example :
    gql_handler Accounts.uuids Accounts.conditions
      (some Accounts.service)
      ""
      Accounts.logged_in
      (λ user q.
        publish_room_version formats resolver Publication.hashes Publication.calm
          Publication.before_db input user)
      by_key
    ≡ (err forbidden, Publication.before_db)
publish-never_example =
    publish-never Accounts.uuids Accounts.conditions (some Accounts.service) Accounts.seeded
      Accounts.logged_in by_key formats resolver Publication.hashes Publication.calm
      Publication.before_db input Accounts.seeded-IsSafe Accounts.joined

abbrev run_request : GqlStartRunInput
run_request = record { client_request_id = "r1"; room_slug = "cache-room" }

abbrev no_runs : Db
no_runs = record { keys = []; runs = [] }

start_run-published_example :
    (room : RoomRow) × (find_room Publication.before_db.rooms "cache-room" ≡ some room)
    × (start_run_resolver formats resolver Starting.texts Starting.minter Starting.calm
          Starting.world false Publication.after_db.rooms Publication.after_db.versions no_runs
          run_request
          (some Accounts.octocat)
        ≡ started formats (
            start_run Starting.texts Starting.minter Starting.calm Starting.world no_runs (record {
              client_request_id = "r1";
              user_id = 2;
              room_slug = "cache-room";
              room_version_id = 100;
              engine = room.engine;
            })))
unfolding requests
start_run-published_example =
    start_run-published Publication.hashes Publication.calm Publication.before_db
      Publication.after_db Publication.publish_input Publication.made formats resolver
      Starting.texts Starting.minter Starting.calm Starting.world no_runs run_request
      Accounts.octocat refl refl refl refl tt Publication.first_publish refl refl refl

abbrev any_room : RoomFilter
any_room = record { engine = some "A"; difficulty = none; district = none }

list-latest_example :
    (rows : List RoomWithVersion) × (list
        (λ found. found)
        false
        Publication.after_db.rooms
        Publication.after_db.versions
        any_room
      ≡ ok rows)
    × Perm rows (
        record { room = Publication.cache_room (some 100); latest_version = some Publication.made }
        ∷ [])
unfolding requests latest_published
list-latest_example =
    list-latest (λ found. found) (λ found. Perm.refl found) Publication.after_db.rooms
      Publication.after_db.versions any_room (tt, tt)
