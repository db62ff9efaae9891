-- ===== src/Publishing/Service.antt =====
-- internal/platform/publish/service.go, with the tables of migrations/0002_rooms_versions.up.sql and
-- 0003_add_active_room_version.up.sql. The table of keys and the statements on it are those of
-- Starts/Idempotency, which this file of the source has a copy of. `crypto/sha256`, `encoding/json` and
-- `google/uuid` are the parameter `Hashes`.
use mathlib.Core.Bool.{◌&&◌, ◌||◌, not}
use Prim.Native.String.{◌++◌ as text_append}
use sys_escape.Prelude.{
  ℕ, ◌==◌, Bool, false, List, [], ◌∷◌, ◌++◌, Option, none, some, String, map, find_first,
  if◌then◌else◌, Result, ok, err, fail_if, map_err, ◌>>◌,
}
use sys_escape.Prelude.Int.{ℤ, pos, ltb_ℤ, leb_ℤ}
use sys_escape.Prelude.Text.{str_eq, is_blank, trim_space}
use sys_escape.Store.RunRepo.{Generated}
use sys_escape.Starts.Idempotency.{
  StartError, KeyRow, lookup_idempotency, reserve_idempotency, store_response, release,
}

-- `key_error` has the two errors of the look-up, which have the same names in both files.
pub data PublishError : Type 0 where
  bundle_not_found room_not_found invalid_publish publish_database_error storage_error :
      PublishError
  key_error : StartError → PublishError

pub record PublishInput : Type 0 where
  pub client_request_id : String
  pub user_id : ℕ
  pub room_slug : String
  pub version : ℤ
  pub changelog : String
  pub bundle_hash_sha256 : String
  pub activate : Bool

pub record RoomVersion : Type 0 where
  pub id : ℕ
  pub room_id : ℕ
  pub version_number : ℤ
  pub status : String
  pub bundle_hash : Option String
  pub changelog : String
  pub published_at : ℕ

-- `models.Room`, without the two times.
pub record RoomRow : Type 0 where
  pub id : ℕ
  pub slug : String
  pub title : String
  pub district : String
  pub engine : String
  pub difficulty : String
  pub description : String
  pub active_room_version_id : Option ℕ

pub record Hashes : Type 0 where
  pub uuid_version : String → Option ℕ
  pub fingerprint_of : String → ℤ → String → String

abbrev pub is_uuid_v4 : Option ℕ → Bool
is_uuid_v4 none = false
is_uuid_v4 (some v) = v == 4

unfoldable pub validate_input : Hashes → PublishInput → Result PublishError (Unit {0})
unfolding is_blank trim_space
validate_input hashes input = do
  fail_if (not (is_uuid_v4 (Hashes.uuid_version hashes (trim_space input.client_request_id))))
      invalid_publish
  fail_if (is_blank input.room_slug) invalid_publish
  fail_if (ltb_ℤ input.version (pos 1)) invalid_publish
  fail_if (is_blank input.changelog) invalid_publish
  fail_if (is_blank input.bundle_hash_sha256) invalid_publish

unfoldable pub fingerprint : Hashes → String → ℤ → String → String
fingerprint hashes slug version hash = Hashes.fingerprint_of hashes slug version hash

pub record PublishDb : Type 0 where
  pub keys : List (String × KeyRow RoomVersion)
  pub rooms : List RoomRow
  pub versions : List RoomVersion

-- Which statements the driver reports as failed, what the bundle store answers, and what others do to
-- the table of keys before the reservation and after a conflict.
pub record Circumstances : Type 0 where
  pub lookup_fails : Bool
  pub reserve_fails : Bool
  pub relookup_fails : Bool
  pub exists : Result (Unit {0}) Bool
  pub room_fails : Bool
  pub insert_fails : Bool
  pub activate_fails : Bool
  pub update_fails : Bool
  pub release_fails : Bool
  pub before_reserve : List (String × KeyRow RoomVersion) → List (String × KeyRow RoomVersion)
  pub after_conflict : List (String × KeyRow RoomVersion) → List (String × KeyRow RoomVersion)
  pub now : ℕ
  pub gen : Generated

unfoldable pub publish_key : PublishInput → String
publish_key input = text_append "publishRoomVersion:" input.client_request_id

unfoldable pub find_room : List RoomRow → String → Option RoomRow
find_room rooms slug = find_first (λ r. str_eq r.slug slug) rooms

abbrev pub has_version : ℕ → ℤ → List RoomVersion → Bool
has_version room_id n [] = false
has_version room_id n (v ∷ vs) =
    v.room_id == room_id && leb_ℤ v.version_number n && leb_ℤ n v.version_number
    || has_version room_id n vs

abbrev pub new_version : Generated → ℕ → PublishInput → RoomVersion
new_version gen room_id input = record {
  id = gen.id;
  room_id = room_id;
  version_number = input.version;
  status = "PUBLISHED";
  bundle_hash = some input.bundle_hash_sha256;
  changelog = input.changelog;
  published_at = gen.at;
}

unfoldable pub activate_version : List RoomRow → ℕ → ℕ → List RoomRow
activate_version rooms version_id room_id =
    map
      (λ (r : RoomRow).
        if r.id == room_id then record r { active_room_version_id = some version_id } else r)
      rooms

-- The deferred DELETE, where `completed` is not set.
unfoldable pub free_key :
    {A : Type 0}
    → Circumstances
    → String
    → PublishError
    → PublishDb
    → Result PublishError A × PublishDb
unfolding release
free_key c key e db =
    (err e, if c.release_fails then db else record db { keys = release db.keys key })

-- From the inserted version on.
unfoldable pub complete :
    Circumstances
    → String
    → PublishInput
    → RoomVersion
    → PublishDb
    → Result PublishError (Option RoomVersion) × PublishDb
unfolding free_key activate_version store_response
complete c key input rv db =
    let rooms = if input.activate then activate_version db.rooms rv.id rv.room_id else db.rooms in
    if input.activate && c.activate_fails
    then free_key c key publish_database_error db
    else if c.update_fails
    then free_key c key publish_database_error (record db { rooms = rooms })
    else (ok (some rv), record db { rooms = rooms; keys = store_response db.keys key rv })

unfoldable pub insert_version :
    Circumstances
    → String
    → PublishInput
    → ℕ
    → PublishDb
    → Result PublishError (Option RoomVersion) × PublishDb
unfolding free_key complete
insert_version c key input room_id db =
    let rv = new_version c.gen room_id input in
    if c.insert_fails || has_version room_id input.version db.versions
    then free_key c key publish_database_error db
    else complete c key input rv (record db { versions = db.versions ++ rv ∷ [] })

-- From the reservation on.
unfoldable pub publish_reserved :
    Circumstances
    → String
    → PublishInput
    → PublishDb
    → Result PublishError (Option RoomVersion) × PublishDb
unfolding free_key insert_version find_room
publish_reserved c key input db = elim c.exists [
  | err _ ↦ free_key c key storage_error db
  | ok there ↦
      if not there
      then free_key c key bundle_not_found db
      else if c.room_fails
      then free_key c key publish_database_error db
      else elim (find_room db.rooms input.room_slug) [
        | none ↦ free_key c key room_not_found db
        | some room ↦ insert_version c key input room.id db
      ]
]

unfoldable pub publish_new :
    Circumstances
    → String
    → String
    → PublishInput
    → PublishDb
    → Result PublishError (Option RoomVersion) × PublishDb
unfolding reserve_idempotency lookup_idempotency publish_reserved
publish_new c key fp input db =
    let seen = c.before_reserve db.keys in
    let (reserved, keys) = reserve_idempotency c.now seen key input.user_id fp in
    let later = c.after_conflict keys in
    if c.reserve_fails
    then (err publish_database_error, record db { keys = seen })
    else if reserved
    then publish_reserved c key input (record db { keys = keys })
    else (
      map_err key_error (lookup_idempotency c.relookup_fails later key fp),
      record db { keys = later },
    )

unfoldable pub publish_looked_up :
    Circumstances
    → String
    → String
    → PublishInput
    → PublishDb
    → Result StartError (Option RoomVersion)
    → Result PublishError (Option RoomVersion) × PublishDb
unfolding publish_new
publish_looked_up c key fp input db (err e) = (err (key_error e), db)
publish_looked_up c key fp input db (ok (some rv)) = (ok (some rv), db)
publish_looked_up c key fp input db (ok none) = publish_new c key fp input db

-- `ok none` is a nil version with a nil error.
unfoldable pub publish :
    Hashes
    → Circumstances
    → PublishDb
    → PublishInput
    → Result PublishError (Option RoomVersion) × PublishDb
unfolding validate_input publish_looked_up lookup_idempotency publish_key fingerprint
publish hashes c db input =
    let fp = fingerprint hashes input.room_slug input.version input.bundle_hash_sha256 in
    let key = publish_key input in
    elim (validate_input hashes input) [
      | err e ↦ (err e, db)
      | ok _ ↦
          publish_looked_up c key fp input db (lookup_idempotency c.lookup_fails db.keys key fp)
    ]
