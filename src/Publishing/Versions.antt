-- ===== src/Publishing/Versions.antt =====
-- The numbers of the versions of a room (internal/platform/publish/service.go, with the UNIQUE of
-- migrations/0002_rooms_versions.up.sql).
use mathlib.Core.Bool.{◌&&◌, ◌||◌, not}
use sys_escape.Prelude.{
  ℕ, ◌==◌, ◌≡◌, false, List, [], ◌∷◌, ◌++◌, Option, String, All, arith, Option-cases, Bool-cases,
  Result-cases, inl, inr,
}
use sys_escape.Prelude.Int.{eqb_ℤ}
use sys_escape.Starts.Idempotency.{lookup_idempotency, reserve_idempotency}
use sys_escape.Publishing.Service.{
  PublishError, publish_database_error, storage_error, bundle_not_found, room_not_found,
  PublishInput, RoomVersion, Hashes, PublishDb, Circumstances, validate_input, fingerprint,
  publish_key, find_room, new_version, has_version, free_key, complete, insert_version,
  publish_reserved, publish_new, publish,
}

-- UNIQUE (room_id, version_number).
abbrev pub Differ : RoomVersion → RoomVersion → Type 0
Differ v w = (v.room_id == w.room_id && eqb_ℤ v.version_number w.version_number) ≡ false

abbrev pub IsUniqueVersion : List RoomVersion → Type 0
IsUniqueVersion [] = Unit
IsUniqueVersion (v ∷ vs) = All (Differ v) vs × IsUniqueVersion vs

IsUniqueVersion-append :
    (v : RoomVersion) (vs : List RoomVersion)
    → IsUniqueVersion vs
    → has_version v.room_id v.version_number vs ≡ false
    → IsUniqueVersion (vs ++ v ∷ [])
IsUniqueVersion-append v [] u h = (tt, tt)
IsUniqueVersion-append v (w ∷ ws) u h =
    (snoc ws u.0, IsUniqueVersion-append v ws u.1 (ground arith))
  where
    snoc : (xs : List RoomVersion) → All (Differ w) xs → All (Differ w) (xs ++ v ∷ [])
    snoc [] a = (ground arith, tt)
    snoc (x ∷ xs) a = (a.0, snoc xs a.1)

-- What a call of Publish leaves of the versions: what was there, or that and one version more.
versions-free_key :
    (c : Circumstances) (key : String) (e : PublishError) (db : PublishDb)
    → (free_key {A = Option RoomVersion} c key e db).1.versions ≡ db.versions
unfolding free_key
versions-free_key c key e db = ground arith

versions-complete :
    (c : Circumstances) (key : String) (input : PublishInput) (rv : RoomVersion) (db : PublishDb)
    → (complete c key input rv db).1.versions ≡ db.versions
unfolding complete free_key
versions-complete c key input rv db = ground arith

insert_version-IsUniqueVersion :
    (c : Circumstances) (key : String) (input : PublishInput) (room_id : ℕ) (db : PublishDb)
    → IsUniqueVersion db.versions
    → IsUniqueVersion (insert_version c key input room_id db).1.versions
unfolding insert_version
insert_version-IsUniqueVersion c key input room_id db u =
    elim (Bool-cases (c.insert_fails || has_version room_id input.version db.versions)) [
      | inl e ↦ rw (e, versions-free_key c key publish_database_error db) u
      | inr e ↦
          let rv = new_version c.gen room_id input in
          rw (e, versions-complete c key input rv (record db { versions = db.versions ++ rv ∷ [] }))
            (IsUniqueVersion-append rv db.versions u (ground (arith, e)))
    ]

publish_reserved-IsUniqueVersion :
    (c : Circumstances) (key : String) (input : PublishInput) (db : PublishDb)
    → IsUniqueVersion db.versions
    → IsUniqueVersion (publish_reserved c key input db).1.versions
unfolding publish_reserved
publish_reserved-IsUniqueVersion c key input db u = elim (Result-cases c.exists) [
  | inr (e, p) ↦ rw (p, versions-free_key c key storage_error db) u
  | inl (there, p) ↦ elim (Bool-cases (not there)) [
    | inl q ↦ rw (p, q, versions-free_key c key bundle_not_found db) u
    | inr q ↦ elim (Bool-cases c.room_fails) [
      | inl r ↦ rw (p, q, r, versions-free_key c key publish_database_error db) u
      | inr r ↦ elim (Option-cases (find_room db.rooms input.room_slug)) [
        | inl s ↦ rw (p, q, r, s, versions-free_key c key room_not_found db) u
        | inr (room, s) ↦ rw (p, q, r, s) (insert_version-IsUniqueVersion c key input room.id db u)
      ]
    ]
  ]
]

publish_new-IsUniqueVersion :
    (c : Circumstances) (key fp : String) (input : PublishInput) (db : PublishDb)
    → IsUniqueVersion db.versions
    → IsUniqueVersion (publish_new c key fp input db).1.versions
unfolding publish_new
publish_new-IsUniqueVersion c key fp input db u =
    let seen = c.before_reserve db.keys in
    let reserve = reserve_idempotency c.now seen key input.user_id fp in
    elim (Bool-cases c.reserve_fails) [
      | inl e ↦ rw e u
      | inr e ↦ elim (Bool-cases reserve.0) [
        | inl r ↦
            rw (e, r)
              (publish_reserved-IsUniqueVersion c key input (record db { keys = reserve.1 }) u)
        | inr r ↦ rw (e, r) u
      ]
    ]

-- The constraint of the table lasts through a call of Publish.
pub publish-IsUniqueVersion :
    (hashes : Hashes) (c : Circumstances) (db : PublishDb) (input : PublishInput)
    → IsUniqueVersion db.versions
    → IsUniqueVersion (publish hashes c db input).1.versions
unfolding publish
publish-IsUniqueVersion hashes c db input u =
    let fp = fingerprint hashes input.room_slug input.version input.bundle_hash_sha256 in
    let key = publish_key input in
    elim (Result-cases (validate_input hashes input)) [
      | inr (e, f) ↦ rw (publish, f) u
      | inl (t, f) ↦ elim (Result-cases (lookup_idempotency c.lookup_fails db.keys key fp)) [
        | inr (e, g) ↦ rw (publish, f, g) u
        | inl (found, g) ↦ elim (Option-cases found) [
          | inl k ↦ rw (publish, f, g, k) (publish_new-IsUniqueVersion c key fp input db u)
          | inr (rv, k) ↦ rw (publish, f, g, k) u
        ]
      ]
    ]
