-- ===== src/Starts/Failure.antt =====
-- A failed request to start a run (internal/engine/a/service/run_service.go).
use sys_escape.Prelude.{
  ℕ, ◌≡◌, refl, ap, ◌∙◌, ◌⊎◌, inl, inr, true, false, List, [], ◌∷◌, none, some, String, ok, arith,
  Bool-cases, Result-cases,
}
use sys_escape.Prelude.Text.{str_eq, eq_refl}
use sys_escape.Prelude.Assoc.{lookup, insert}
use sys_escape.Store.RunRepo.{create_run}
use sys_escape.Starts.Idempotency.{
  KeyRow, check_row, lookup_idempotency, reserve_idempotency, store_response, release,
}
use sys_escape.Starts.RunService.{
  Texts, StartRunInput, Minter, Db, Weather, World, validate_start_run_input,
  start_run_idempotency_key, start_run_fingerprint, give_up, start_reserved, start_new,
  start_run_looked_up, start_run,
}
use sys_escape.Starts.Retry.{Records, stored}

release-insert :
    {B : Type 0} (key : String) (row : KeyRow B) (keys : List (String × KeyRow B))
    → lookup key keys ≡ none
    → row.response_body ≡ none
    → lookup key (release (insert key row keys) key) ≡ none
unfolding lookup insert release
release-insert key row [] h p = ground (arith, eq_refl key)
release-insert key row (entry ∷ keys) h p = elim (Bool-cases (str_eq entry.0 key)) [
  | inl same ↦ absurd (ground arith)
  | inr other ↦ rw (other, release) (ground (arith, release-insert key row keys (ground arith) p))
]

-- A key that was reserved and is given up is free.
released :
    (now user_id : ℕ) (keys : List (String × KeyRow ℕ)) (key fingerprint : String)
    → lookup key keys ≡ none
    → lookup key (release (reserve_idempotency now keys key user_id fingerprint).1 key) ≡ none
unfolding reserve_idempotency
released now user_id keys key fingerprint h = rw h (release-insert key _ keys h refl)

reserve_idempotency_free :
    (now user_id : ℕ) (keys : List (String × KeyRow ℕ)) (key fingerprint : String)
    → lookup key keys ≡ none
    → (reserve_idempotency now keys key user_id fingerprint).0 ≡ true
unfolding reserve_idempotency
reserve_idempotency_free now user_id keys key fingerprint h = rw h refl

-- The key is free, or it answers with a run.
abbrev pub Settled : String → String → Db → Type 0
Settled key fingerprint db =
    (lookup key db.keys ≡ none) ⊎ ((run_id : ℕ) × Records key fingerprint run_id db)

start_reserved-Settled :
    (minter : Minter) (weather : Weather) (world : World) (key fingerprint : String)
    (input : StartRunInput) (keys : List (String × KeyRow ℕ)) (db : Db)
    → weather.release_fails ≡ false
    → lookup key keys ≡ none
    → db.keys ≡ (reserve_idempotency world.now keys key input.user_id fingerprint).1
    → Settled key fingerprint (start_reserved minter weather world key input db).1
unfolding start_reserved give_up
start_reserved-Settled minter weather world key fingerprint input keys db works free p =
    let gone : lookup key (release db.keys key) ≡ none =
      ap (λ ks. lookup key (release ks key)) p
      ∙ released world.now input.user_id keys key fingerprint free in
    let run_id =
      (create_run db.runs world.gen input.user_id input.room_version_id world.seed).0.id in
    let kept : check_row fingerprint (lookup key (store_response db.keys key run_id))
        ≡ ok (some run_id) =
      ap (λ ks. check_row fingerprint (lookup key (store_response ks key run_id))) p
      ∙ stored world.now input.user_id run_id keys key fingerprint
          (reserve_idempotency_free world.now input.user_id keys key fingerprint free) in
    elim (Bool-cases weather.create_fails) [
      | inl failed ↦ rw (failed, works) (inl gone)
      | inr created ↦ elim (Bool-cases weather.update_fails) [
        | inl failed ↦ rw (created, failed, works) (inl gone)
        | inr updated ↦ rw (created, updated) (inr (run_id, kept))
      ]
    ]

start_new-Settled :
    (minter : Minter) (weather : Weather) (world : World) (key fingerprint : String)
    (input : StartRunInput) (db : Db)
    → weather.release_fails ≡ false
    → lookup key (weather.before_reserve db.keys) ≡ none
    → Settled key fingerprint (start_new minter weather world key fingerprint input db).1
unfolding start_new
start_new-Settled minter weather world key fingerprint input db works free =
    let seen = weather.before_reserve db.keys in
    let taken = reserve_idempotency_free world.now input.user_id seen key fingerprint free in
    elim (Bool-cases weather.reserve_fails) [
      | inl failed ↦ rw failed (inl free)
      | inr reserves ↦
          rw (reserves, taken)
            (start_reserved-Settled minter weather world key fingerprint input seen _ works free
              refl)
    ]

-- A call never leaves a key without an answer: where the key is free at the look-up and at the
-- reservation and the last DELETE does not fail, after the call, whatever statement failed and whether
-- or not the token was minted, the key is free or answers with a run.
pub start_run-Settled :
    (texts : Texts) (minter : Minter) (weather : Weather) (world : World) (db : Db)
    (input : StartRunInput)
    → let key = start_run_idempotency_key texts input.user_id input.client_request_id in
      weather.release_fails ≡ false
      → lookup key db.keys ≡ none
      → lookup key (weather.before_reserve db.keys) ≡ none
      → Settled key
          (start_run_fingerprint texts input.room_slug)
          (start_run texts minter weather world db input).1
unfolding start_run start_run_looked_up lookup_idempotency check_row
start_run-Settled texts minter weather world db input works unseen free =
    elim (Result-cases (validate_start_run_input texts input)) [
      | inr (e, invalid) ↦ rw (start_run, invalid) (inl unseen)
      | inl (u, valid) ↦ elim (Bool-cases weather.lookup_fails) [
        | inl failed ↦ rw (start_run, valid, failed) (inl unseen)
        | inr looks ↦
            rw (start_run, valid, looks, unseen)
              (start_new-Settled minter weather world _ _ input db works free)
      ]
    ]
