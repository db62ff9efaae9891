-- ===== src/Publishing/Repeat.antt =====
-- A repeated request to publish (internal/platform/publish/service.go).
use mathlib.Core.Bool.{◌||◌}
use sys_escape.Prelude.{
  ℕ, ◌≡◌, refl, sym, ap, ◌∙◌, inl, inr, false, [], ◌∷◌, ◌++◌, Option, none, some, String, Result,
  ok, err, arith, Bool-cases, Option-cases, Result-cases,
}
use sys_escape.Prelude.Assoc.{lookup}
use sys_escape.Starts.Idempotency.{
  StartError, check_row, lookup_idempotency, reserve_idempotency, store_response,
}
use sys_escape.Starts.Retry.{stored, lookup_idempotency-ok}
use sys_escape.Publishing.Service.{
  PublishError, PublishInput, RoomVersion, Hashes, PublishDb, Circumstances, validate_input,
  fingerprint, publish_key, find_room, new_version, has_version, free_key, complete, insert_version,
  publish_reserved, publish_new, publish_looked_up, publish,
}

-- The table answers the key with the version.
abbrev pub Answered : String → String → RoomVersion → PublishDb → Type 0
Answered key fp rv db = check_row fp (lookup key db.keys) ≡ ok (some rv)

complete-ok :
    (c : Circumstances) (key : String) (input : PublishInput) (made rv : RoomVersion)
    (db db' : PublishDb)
    → complete c key input made db ≡ (ok (some rv), db')
    → db'.keys ≡ store_response db.keys key rv
unfolding complete free_key
complete-ok c key input made rv db db' h = ground arith

insert_version-ok :
    (c : Circumstances) (key : String) (input : PublishInput) (room_id : ℕ) (rv : RoomVersion)
    (db db' : PublishDb)
    → insert_version c key input room_id db ≡ (ok (some rv), db')
    → db'.keys ≡ store_response db.keys key rv
unfolding insert_version free_key
insert_version-ok c key input room_id rv db db' h =
    elim (Bool-cases (c.insert_fails || has_version room_id input.version db.versions)) [
      | inl refused ↦ absurd (ground arith)
      | inr taken_in ↦
          let made = new_version c.gen room_id input in
          complete-ok c key input made rv (record db { versions = db.versions ++ made ∷ [] }) db'
            (rw taken_in at h)
    ]

publish_reserved-ok :
    (c : Circumstances) (key : String) (input : PublishInput) (rv : RoomVersion)
    (db db' : PublishDb)
    → publish_reserved c key input db ≡ (ok (some rv), db')
    → db'.keys ≡ store_response db.keys key rv
unfolding publish_reserved free_key
publish_reserved-ok c key input rv db db' h = elim (Result-cases c.exists) [
  | inr (e, p) ↦ absurd (ground arith)
  | inl (there, p) ↦ elim (Option-cases (find_room db.rooms input.room_slug)) [
    | inl missing ↦ absurd (ground arith)
    | inr (room, found) ↦ insert_version-ok c key input room.id rv db db' (ground arith)
  ]
]

publish_new-Answered :
    (c : Circumstances) (key fp : String) (input : PublishInput) (rv : RoomVersion)
    (db db' : PublishDb)
    → publish_new c key fp input db ≡ (ok (some rv), db')
    → Answered key fp rv db'
unfolding publish_new
publish_new-Answered c key fp input rv db db' h =
    let seen = c.before_reserve db.keys in
    let x = reserve_idempotency c.now seen key input.user_id fp in
    elim (Bool-cases c.reserve_fails) [
      | inl failed ↦ absurd (ground arith)
      | inr works ↦ elim (Bool-cases x.0) [
        | inl free ↦
            let stores =
              publish_reserved-ok c key input rv (record db { keys = x.1 }) db' (ground arith) in
            ap (λ ks. check_row fp (lookup key ks)) stores
            ∙ stored c.now input.user_id rv seen key fp free
        | inr taken ↦
            let same : db'.keys ≡ c.after_conflict x.1 = ground arith in
            ap (λ ks. check_row fp (lookup key ks)) same
            ∙ lookup_idempotency-ok c.relookup_fails (c.after_conflict x.1) key fp rv (ground arith)
      ]
    ]

publish_looked_up-Answered :
    (c : Circumstances) (key fp : String) (input : PublishInput) (rv : RoomVersion)
    (db db' : PublishDb) (o : Result StartError (Option RoomVersion))
    → lookup_idempotency c.lookup_fails db.keys key fp ≡ o
    → publish_looked_up c key fp input db o ≡ (ok (some rv), db')
    → Answered key fp rv db'
unfolding publish_looked_up
publish_looked_up-Answered c key fp input rv db db' (err e) p h = absurd (ground arith)
publish_looked_up-Answered c key fp input rv db db' (ok none) p h =
    publish_new-Answered c key fp input rv db db' h
publish_looked_up-Answered c key fp input rv db db' (ok (some old)) p h =
    ap (λ (d : PublishDb). check_row fp (lookup key d.keys)) (sym (ap (λ x. x.1) h))
    ∙ lookup_idempotency-ok c.lookup_fails db.keys key fp old p
    ∙ ap (λ x. ok (some x)) (ground arith)

pub publish-valid :
    (hashes : Hashes) (c : Circumstances) (db : PublishDb) (input : PublishInput)
    → validate_input hashes input ≡ ok tt
    → let fp = fingerprint hashes input.room_slug input.version input.bundle_hash_sha256 in
      publish hashes c db input
      ≡ publish_looked_up c
          (publish_key input)
          fp
          input
          db
          (lookup_idempotency c.lookup_fails db.keys (publish_key input) fp)
unfolding publish
publish-valid hashes c db input valid = rw (publish, valid) refl

pub publish-invalid :
    (hashes : Hashes) (c : Circumstances) (db : PublishDb) (input : PublishInput) (e : PublishError)
    → validate_input hashes input ≡ err e
    → publish hashes c db input ≡ (err e, db)
unfolding publish
publish-invalid hashes c db input e invalid = rw (publish, invalid) refl

publish-Answered :
    (hashes : Hashes) (c : Circumstances) (db db' : PublishDb) (input : PublishInput)
    (rv : RoomVersion)
    → publish hashes c db input ≡ (ok (some rv), db')
    → Answered
        (publish_key input)
        (fingerprint hashes input.room_slug input.version input.bundle_hash_sha256)
        rv
        db'
publish-Answered hashes c db db' input rv h = elim (Result-cases (validate_input hashes input)) [
  | inr (e, p) ↦
      let refused = publish-invalid hashes c db input e p in
      absurd (ground (arith, sym refused ∙ h))
  | inl (u, p) ↦
      publish_looked_up-Answered c _ _ input rv db db' _ refl
        (sym (publish-valid hashes c db input p) ∙ h)
]

-- A publish request that is sent again gets the version that the first call made: once a call has
-- returned a version, in whatever order others' calls came between its statements, a later valid request
-- with the same client request id, room, version number and bundle, whose look-up does not fail, changes
-- no table and returns that version.
pub publish_again :
    (hashes : Hashes) (c c' : Circumstances) (db db' : PublishDb) (input input' : PublishInput)
    (rv : RoomVersion)
    → publish hashes c db input ≡ (ok (some rv), db')
    → publish_key input' ≡ publish_key input
    → fingerprint hashes input'.room_slug input'.version input'.bundle_hash_sha256
      ≡ fingerprint hashes input.room_slug input.version input.bundle_hash_sha256
    → validate_input hashes input' ≡ ok tt
    → c'.lookup_fails ≡ false
    → publish hashes c' db' input' ≡ (ok (some rv), db')
unfolding publish_looked_up lookup_idempotency
publish_again hashes c c' db db' input input' rv h k same valid works =
    let found = publish-Answered hashes c db db' input rv h in
    publish-valid hashes c' db' input' valid ∙ rw (works, k, same, found) refl
