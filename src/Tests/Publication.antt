-- ===== src/Tests/Publication.antt =====
-- A request to publish a room, sent twice, and two requests that meet (internal/platform/publish/service.go).
use sys_escape.Prelude.{ℕ, Option, ◌≡◌, refl, true, false, [], ◌∷◌, none, some, ok}
use sys_escape.Prelude.Int.{pos}
use sys_escape.Prelude.Text.{is_blank, trim_space}
use sys_escape.Prelude.Assoc.{lookup, insert}
use sys_escape.Starts.Idempotency.{
  check_row, lookup_idempotency, reserve_idempotency, store_response, release,
}
use sys_escape.Publishing.Service.{
  PublishInput, RoomVersion, RoomRow, Hashes, PublishDb, Circumstances, validate_input, fingerprint,
  publish_key, find_room, free_key, complete, insert_version, publish_reserved, publish_new,
  publish_looked_up, publish, activate_version,
}
use sys_escape.Publishing.Repeat.{publish_again}
use sys_escape.Tests.Rows.{generated}

abbrev pub hashes : Hashes
hashes = record { uuid_version = λ text. some 4; fingerprint_of = λ slug version hash. hash }

abbrev pub calm : Circumstances
calm = record {
  lookup_fails = false;
  reserve_fails = false;
  relookup_fails = false;
  exists = ok true;
  room_fails = false;
  insert_fails = false;
  activate_fails = false;
  update_fails = false;
  release_fails = false;
  before_reserve = λ keys. keys;
  after_conflict = λ keys. keys;
  now = 0;
  gen = generated;
}

abbrev pub publish_input : PublishInput
publish_input = record {
  client_request_id = "p1";
  user_id = 1;
  room_slug = "cache-room";
  version = pos 2;
  changelog = "second";
  bundle_hash_sha256 = "abc";
  activate = true;
}

abbrev pub made : RoomVersion
made = record {
  id = 100;
  room_id = 4;
  version_number = pos 2;
  status = "PUBLISHED";
  bundle_hash = some "abc";
  changelog = "second";
  published_at = 5;
}

abbrev pub cache_room : Option ℕ → RoomRow
cache_room active = record {
  id = 4;
  slug = "cache-room";
  title = "Cache";
  district = "core";
  engine = "A";
  difficulty = "L1";
  description = "";
  active_room_version_id = active;
}

abbrev pub before_db : PublishDb
before_db = record { keys = []; rooms = cache_room none ∷ []; versions = [] }

abbrev pub after_db : PublishDb
after_db = record {
  keys =
      (
        "publishRoomVersion:p1",
        record {
          user_id = 1;
          response_fingerprint = "abc";
          response_body = some made;
          expires_at = 86400000000000;
        },
      )
      ∷ [];
  rooms = cache_room (some 100) ∷ [];
  versions = made ∷ [];
}

-- All that publishing computes with.
unfoldable pub publishing : Unit {0}
unfolding publish publish_looked_up publish_new publish_reserved insert_version complete free_key
    find_room activate_version validate_input fingerprint publish_key lookup_idempotency check_row
    reserve_idempotency store_response release lookup insert is_blank trim_space
publishing = tt

pub first_publish : publish hashes calm before_db publish_input ≡ (ok (some made), after_db)
unfolding publishing
first_publish = refl

publish_again_example : publish hashes calm after_db publish_input ≡ (ok (some made), after_db)
unfolding publishing
publish_again_example =
    publish_again hashes calm calm before_db after_db publish_input publish_input made first_publish
      refl refl refl refl

-- Another call takes the key before the reservation, and frees it before the second look-up.
abbrev crossed : Circumstances
crossed = record calm {
  before_reserve = λ keys.
      (
        "publishRoomVersion:p1",
        record { user_id = 1; response_fingerprint = "abc"; response_body = none; expires_at = 0 },
      )
      ∷ keys;
  after_conflict = λ keys. [];
}

crossed_test : publish hashes crossed before_db publish_input ≡ (ok none, before_db)
unfolding publishing
crossed_test = refl
