-- ===== src/Graphql/Play.antt =====
-- From a published version to a run of it: internal/platform/publish/service.go, the catalog and
-- StartRun of internal/graphql/resolvers/schema.resolvers.go.
use mathlib.Core.Bool.{◌||◌}
use sys_escape.Prelude.{
  ℕ, ◌≡◌, refl, sym, subst, ◌∙◌, ap, true, false, List, [], ◌∷◌, ◌++◌, none, some, String, ok,
  arith, Option-cases, Bool-cases, Result-cases, inl, inr,
}
use sys_escape.Prelude.Assoc.{lookup}
use sys_escape.Auth.Tables.{User}
use sys_escape.Starts.Idempotency.{lookup_idempotency, reserve_idempotency, check_row}
use sys_escape.Starts.RunService.{Texts, Minter, Weather, World, Db, StartRunInput, start_run}
use sys_escape.Publishing.Service.{
  PublishInput, RoomVersion, RoomRow, Hashes, PublishDb, Circumstances, validate_input, fingerprint,
  publish_key, find_room, new_version, has_version, free_key, complete, insert_version,
  activate_version, publish_reserved, publish_new, publish_looked_up, publish,
}
use sys_escape.Publishing.Repeat.{publish-valid}
use sys_escape.Publishing.Versions.{IsUniqueVersion, publish-IsUniqueVersion}
use sys_escape.Catalog.RoomRepo.{RoomWithVersion, get_by_slug}
use sys_escape.Catalog.Latest.{with_latest, get_by_slug-latest}
use sys_escape.Graphql.Resolvers.{
  Formats, Resolver, GqlStartRunInput, start_in_room, started, start_run_resolver,
}

-- Activation is seen by whoever looks the room up.
find_room-activate :
    (slug : String) (version_id : ℕ) (rooms : List RoomRow) (room : RoomRow)
    → find_room rooms slug ≡ some room
    → find_room (activate_version rooms version_id room.id) slug
      ≡ some (record room { active_room_version_id = some version_id })
unfolding find_room activate_version
find_room-activate slug version_id [] room h = cc
find_room-activate slug version_id (r ∷ rs) room h =
    ground (arith, find_room-activate slug version_id rs room)

abbrev pub Activated : String → RoomRow → RoomVersion → PublishDb → Type 0
Activated slug room rv db =
    find_room db.rooms slug ≡ some (record room { active_room_version_id = some rv.id })

complete-Activated :
    (c : Circumstances) (key slug : String) (input : PublishInput) (rv made : RoomVersion)
    (room : RoomRow) (db db' : PublishDb)
    → input.activate ≡ true
    → find_room db.rooms slug ≡ some room
    → made.room_id ≡ room.id
    → complete c key input made db ≡ (ok (some rv), db')
    → Activated slug room rv db'
unfolding complete free_key
complete-Activated c key slug input rv made room db db' a f i h =
    let is_rv : rv ≡ made = ground (arith, a, h) in
    let is_rooms : db'.rooms ≡ activate_version db.rooms made.id made.room_id =
      ground (arith, a, h) in
    rw (is_rv, is_rooms, i) (find_room-activate slug made.id db.rooms room f)

insert_version-Activated :
    (c : Circumstances) (key slug : String) (input : PublishInput) (rv : RoomVersion)
    (room : RoomRow) (db db' : PublishDb)
    → input.activate ≡ true
    → find_room db.rooms slug ≡ some room
    → insert_version c key input room.id db ≡ (ok (some rv), db')
    → Activated slug room rv db'
unfolding insert_version free_key
insert_version-Activated c key slug input rv room db db' a f h =
    elim (Bool-cases (c.insert_fails || has_version room.id input.version db.versions)) [
      | inl refused ↦ absurd (ground (arith, refused, h))
      | inr taken_in ↦
          let made = new_version c.gen room.id input in
          complete-Activated c key slug input rv made room
            (record db { versions = db.versions ++ made ∷ [] }) db' a f refl (rw taken_in at h)
    ]

publish_reserved-Activated :
    (c : Circumstances) (key : String) (input : PublishInput) (rv : RoomVersion)
    (db db' : PublishDb)
    → input.activate ≡ true
    → publish_reserved c key input db ≡ (ok (some rv), db')
    → (room : RoomRow) × (find_room db.rooms input.room_slug ≡ some room)
      × Activated input.room_slug room rv db'
unfolding publish_reserved free_key
publish_reserved-Activated c key input rv db db' a h = elim (Result-cases c.exists) [
  | inr (e, p) ↦ absurd (ground arith)
  | inl (there, p) ↦ elim (Option-cases (find_room db.rooms input.room_slug)) [
    | inl missing ↦ absurd (ground arith)
    | inr (room, found) ↦ (
      room,
      found,
      insert_version-Activated c key input.room_slug input rv room db db' a found (ground arith),
    )
  ]
]

-- The first call with its key, where nobody takes the key before the reservation.
publish_new-Activated :
    (c : Circumstances) (key fp : String) (input : PublishInput) (rv : RoomVersion)
    (db db' : PublishDb)
    → input.activate ≡ true
    → lookup key (c.before_reserve db.keys) ≡ none
    → publish_new c key fp input db ≡ (ok (some rv), db')
    → (room : RoomRow) × (find_room db.rooms input.room_slug ≡ some room)
      × Activated input.room_slug room rv db'
unfolding publish_new reserve_idempotency
publish_new-Activated c key fp input rv db db' a free h =
    publish_reserved-Activated c key input rv
      (record db {
        keys = (reserve_idempotency c.now (c.before_reserve db.keys) key input.user_id fp).1;
      })
      db' a (ground (arith, free, h))

-- Once Publish has made and activated a version, on the first call with its key, the room that its slug
-- names has that version as the active one, whoever looks it up; all statements of the call worked, since
-- it returned the version, and no other call held the key when it was reserved.
pub publish-Activated :
    (hashes : Hashes) (c : Circumstances) (db db' : PublishDb) (input : PublishInput)
    (rv : RoomVersion)
    → validate_input hashes input ≡ ok tt
    → input.activate ≡ true
    → lookup (publish_key input) db.keys ≡ none
    → lookup (publish_key input) (c.before_reserve db.keys) ≡ none
    → publish hashes c db input ≡ (ok (some rv), db')
    → (room : RoomRow) × (find_room db.rooms input.room_slug ≡ some room)
      × Activated input.room_slug room rv db'
unfolding publish_looked_up lookup_idempotency check_row
publish-Activated hashes c db db' input rv valid a fresh free h =
    let fp = fingerprint hashes input.room_slug input.version input.bundle_hash_sha256 in
    let called = sym (publish-valid hashes c db input valid) ∙ h in
    elim (Bool-cases c.lookup_fails) [
      | inl e ↦ absurd (ground (arith, e, called))
      | inr e ↦
          publish_new-Activated c (publish_key input) fp input rv db db' a free
            (rw (e, fresh) at called)
    ]

-- The input that StartRun passes on for a room with an active version.
abbrev pub run_input : GqlStartRunInput → User → RoomRow → ℕ → StartRunInput
run_input input user room version_id = record {
  client_request_id = input.client_request_id;
  user_id = user.id;
  room_slug = input.room_slug;
  room_version_id = version_id;
  engine = room.engine;
}

start_run_resolver-wired :
    (formats : Formats) (resolver : Resolver) (texts : Texts) (minter : Minter) (weather : Weather)
    (world : World) (rooms : List RoomRow) (versions : List RoomVersion) (runs : Db)
    (input : GqlStartRunInput) (user : User)
    → resolver.catalog_repo ≡ true
    → resolver.run_service ≡ true
    → start_run_resolver formats resolver texts minter weather world false rooms versions runs input
        (some user)
      ≡ start_in_room formats texts minter weather world runs input user
          (get_by_slug false rooms versions input.room_slug)
unfolding start_run_resolver
start_run_resolver-wired formats resolver texts minter weather world rooms versions runs input user
      cat run =
    rw (cat, run) refl

start_in_room-active :
    (formats : Formats) (texts : Texts) (minter : Minter) (weather : Weather) (world : World)
    (runs : Db) (input : GqlStartRunInput) (user : User) (row : RoomWithVersion) (version_id : ℕ)
    → row.room.active_room_version_id ≡ some version_id
    → start_in_room formats texts minter weather world runs input user (ok (some row))
      ≡ started formats
          (start_run texts minter weather world runs (run_input input user row.room version_id))
unfolding start_in_room
start_in_room-active formats texts minter weather world runs input user row version_id a = rw a refl

start_run_resolver-room :
    (formats : Formats) (resolver : Resolver) (texts : Texts) (minter : Minter) (weather : Weather)
    (world : World) (rooms : List RoomRow) (versions : List RoomVersion) (runs : Db)
    (input : GqlStartRunInput) (user : User) (room : RoomRow) (version_id : ℕ)
    → resolver.catalog_repo ≡ true
    → resolver.run_service ≡ true
    → IsUniqueVersion versions
    → find_room rooms input.room_slug ≡ some room
    → room.active_room_version_id ≡ some version_id
    → start_run_resolver formats resolver texts minter weather world false rooms versions runs input
        (some user)
      ≡ started formats
          (start_run texts minter weather world runs (run_input input user room version_id))
start_run_resolver-room formats resolver texts minter weather world rooms versions runs input user
      room version_id cat run u f a =
    start_run_resolver-wired formats resolver texts minter weather world rooms versions runs input
      user cat run
    ∙ ap (start_in_room formats texts minter weather world runs input user)
        (get_by_slug-latest rooms versions input.room_slug u ∙ rw f refl)
    ∙ start_in_room-active formats texts minter weather world runs input user
        (with_latest versions room) version_id a

-- After the first call of Publish with its key has made and activated a version, where no room has two
-- versions of one number, startRun on the same slug by any user is StartRun with that very version, on
-- whatever runs and keys it finds.
pub start_run-published :
    (hashes : Hashes) (c : Circumstances) (db db' : PublishDb) (publish_input : PublishInput)
    (rv : RoomVersion) (formats : Formats) (resolver : Resolver) (texts : Texts) (minter : Minter)
    (weather : Weather) (world : World) (runs : Db) (input : GqlStartRunInput) (user : User)
    → validate_input hashes publish_input ≡ ok tt
    → publish_input.activate ≡ true
    → lookup (publish_key publish_input) db.keys ≡ none
    → lookup (publish_key publish_input) (c.before_reserve db.keys) ≡ none
    → IsUniqueVersion db.versions
    → publish hashes c db publish_input ≡ (ok (some rv), db')
    → resolver.catalog_repo ≡ true
    → resolver.run_service ≡ true
    → input.room_slug ≡ publish_input.room_slug
    → (room : RoomRow) × (find_room db.rooms input.room_slug ≡ some room)
      × (start_run_resolver formats resolver texts minter weather world false db'.rooms db'.versions
            runs input
            (some user)
          ≡ started formats
              (start_run texts minter weather world runs (run_input input user room rv.id)))
start_run-published hashes c db db' publish_input rv formats resolver texts minter weather world
      runs input user valid a fresh free u h cat run slug =
    let (room, found, active) =
      publish-Activated hashes c db db' publish_input rv valid a fresh free h in
    let unique : IsUniqueVersion db'.versions =
      subst (λ d. IsUniqueVersion d.1.versions) h
        (publish-IsUniqueVersion hashes c db publish_input u) in
    let seen : find_room db'.rooms input.room_slug
        ≡ some (record room { active_room_version_id = some rv.id }) =
      ap (find_room db'.rooms) slug ∙ active in
    (
      room,
      ap (find_room db.rooms) slug ∙ found,
      start_run_resolver-room formats resolver texts minter weather world db'.rooms db'.versions
          runs input user (record room { active_room_version_id = some rv.id }) rv.id cat run unique
          seen refl,
    )
