-- ===== src/Starts/Retry.antt =====
-- A repeated request to start a run (internal/engine/a/service/run_service.go).
use sys_escape.Prelude.{
  ℕ, ◌≡◌, refl, sym, ap, ◌∙◌, ◌⊎◌, inl, inr, Bool, true, false, List, Option, none, some, String,
  Result, ok, err, arith, Bool-cases, Result-cases, is_some,
}
use sys_escape.Prelude.Text.{eq_refl}
use sys_escape.Prelude.Assoc.{lookup, insert, lookup-insert}
use sys_escape.Store.RunRepo.{create_run}
use sys_escape.Starts.Idempotency.{
  StartError, KeyRow, check_row, lookup_idempotency, reserve_idempotency, store_response,
}
use sys_escape.Starts.RunService.{
  Texts, StartRunInput, StartRunResult, Minter, Db, Weather, World, validate_start_run_input,
  start_run_idempotency_key, start_run_fingerprint, minted_result, start_reserved, join_other,
  start_new, start_run_looked_up, start_run,
}

-- The table answers the key with the run.
abbrev pub Records : String → String → ℕ → Db → Type 0
Records key fingerprint run_id db = check_row fingerprint (lookup key db.keys) ≡ ok (some run_id)

minted_result-run_id :
    (minter : Minter) (world : World) (input : StartRunInput) (run_id : ℕ) (r : StartRunResult)
    → minted_result minter world input run_id ≡ ok r
    → r.run_id ≡ run_id
unfolding minted_result
minted_result-run_id minter world input run_id r h = ground arith

pub lookup_idempotency-ok :
    {B : Type 0} (fails : Bool) (keys : List (String × KeyRow B)) (key fingerprint : String)
    (run_id : B)
    → lookup_idempotency fails keys key fingerprint ≡ ok (some run_id)
    → check_row fingerprint (lookup key keys) ≡ ok (some run_id)
unfolding lookup_idempotency
lookup_idempotency-ok fails keys key fingerprint run_id h = ground arith

lookup-inserted :
    {B : Type 0} (key : String) (row : KeyRow B) (keys : List (String × KeyRow B))
    → lookup key (insert key row keys) ≡ some row
lookup-inserted key row keys = lookup-insert key key row keys ∙ rw (eq_refl key) refl

pub stored_row :
    {B : Type 0} (key fingerprint : String) (run_id : B) (row : KeyRow B)
    (keys : List (String × KeyRow B))
    → row.response_fingerprint ≡ fingerprint
    → check_row fingerprint (lookup key (store_response (insert key row keys) key run_id))
      ≡ ok (some run_id)
unfolding store_response check_row
stored_row key fingerprint run_id row keys p =
    rw
      (
        store_response,
        lookup-inserted key row keys,
        lookup-inserted key (record row { response_body = some run_id }) (insert key row keys),
        check_row,
        p,
        eq_refl fingerprint,
      )
      refl

-- What is stored under a key that was reserved is found there.
pub stored :
    {B : Type 0} (now user_id : ℕ) (run_id : B) (keys : List (String × KeyRow B))
    (key fingerprint : String)
    → (reserve_idempotency now keys key user_id fingerprint).0 ≡ true
    → check_row fingerprint (
        lookup key
          (store_response (reserve_idempotency now keys key user_id fingerprint).1 key run_id))
      ≡ ok (some run_id)
unfolding reserve_idempotency
stored now user_id run_id keys key fingerprint h = elim (Bool-cases (is_some (lookup key keys))) [
  | inl taken ↦ absurd (ground arith)
  | inr free ↦ rw free (stored_row key fingerprint run_id _ keys refl)
]

-- A successful start from the reservation on stores the response.
start_reserved-ok :
    (minter : Minter) (weather : Weather) (world : World) (key : String) (input : StartRunInput)
    (db db' : Db) (r : StartRunResult)
    → start_reserved minter weather world key input db ≡ (ok r, db')
    → (run_id : ℕ) × (r.run_id ≡ run_id) × (db'.keys ≡ store_response db.keys key run_id)
unfolding start_reserved
start_reserved-ok minter weather world key input db db' r h =
    let run_id =
      (create_run db.runs world.gen input.user_id input.room_version_id world.seed).0.id in
    let named = minted_result-run_id minter world input run_id r in
    elim (Bool-cases weather.create_fails) [
      | inl failed ↦ absurd (ground arith)
      | inr _ ↦ elim (Bool-cases weather.update_fails) [
        | inl failed ↦ absurd (ground arith)
        | inr _ ↦ (run_id, named (ground arith), ground arith)
      ]
    ]

start_reserved-Records :
    (minter : Minter) (weather : Weather) (world : World) (key fingerprint : String)
    (input : StartRunInput) (keys : List (String × KeyRow ℕ)) (db db' : Db) (r : StartRunResult)
    → (reserve_idempotency world.now keys key input.user_id fingerprint).0 ≡ true
    → db.keys ≡ (reserve_idempotency world.now keys key input.user_id fingerprint).1
    → start_reserved minter weather world key input db ≡ (ok r, db')
    → Records key fingerprint r.run_id db'
start_reserved-Records minter weather world key fingerprint input keys db db' r free p h =
    let (run_id, same, stores) = start_reserved-ok minter weather world key input db db' r h in
    let found : check_row fingerprint (lookup key (store_response db.keys key run_id))
        ≡ ok (some run_id) =
      ap (λ ks. check_row fingerprint (lookup key (store_response ks key run_id))) p
      ∙ stored world.now input.user_id run_id keys key fingerprint free in
    ap (λ ks. check_row fingerprint (lookup key ks)) stores
    ∙ found
    ∙ ap (λ n. ok (some n)) (sym same)

join_other-ok :
    (minter : Minter) (world : World) (input : StartRunInput) (o : Result StartError (Option ℕ))
    (r : StartRunResult)
    → join_other minter world input o ≡ ok r
    → o ≡ ok (some r.run_id)
unfolding join_other
join_other-ok minter world input (err e) r h = cc
join_other-ok minter world input (ok none) r h = cc
join_other-ok minter world input (ok (some run_id)) r h =
    ap (λ n. ok (some n)) (sym (minted_result-run_id minter world input run_id r h))

-- The ways to a result of `start_new`.
start_new-ok :
    (minter : Minter) (weather : Weather) (world : World) (key fingerprint : String)
    (input : StartRunInput) (db db' : Db) (r : StartRunResult)
    → start_new minter weather world key fingerprint input db ≡ (ok r, db')
    → let seen = weather.before_reserve db.keys in
      let x = reserve_idempotency world.now seen key input.user_id fingerprint in
      ((x.0 ≡ true)
        × (start_reserved minter weather world key input (record db { keys = x.1 }) ≡ (ok r, db')))
      ⊎ ((join_other minter world input (
              lookup_idempotency weather.relookup_fails
                (weather.after_conflict x.1)
                key
                fingerprint)
            ≡ ok r)
          × (db'.keys ≡ weather.after_conflict x.1))
unfolding start_new
start_new-ok minter weather world key fingerprint input db db' r h =
    let x =
      reserve_idempotency world.now (weather.before_reserve db.keys) key input.user_id
        fingerprint in
    elim (Bool-cases weather.reserve_fails) [
      | inl failed ↦ absurd (ground arith)
      | inr _ ↦ elim (Bool-cases x.0) [
        | inl free ↦ inl (free, ground arith)
        | inr taken ↦ inr (ground arith)
      ]
    ]

start_new-Records :
    (minter : Minter) (weather : Weather) (world : World) (key fingerprint : String)
    (input : StartRunInput) (db db' : Db) (r : StartRunResult)
    → start_new minter weather world key fingerprint input db ≡ (ok r, db')
    → Records key fingerprint r.run_id db'
start_new-Records minter weather world key fingerprint input db db' r h =
    elim (start_new-ok minter weather world key fingerprint input db db' r h) [
      | inl (free, starts) ↦
          start_reserved-Records minter weather world key fingerprint input _ _ db' r free refl
            starts
      | inr (joins, same) ↦
          ap (λ ks. check_row fingerprint (lookup key ks)) same
          ∙ lookup_idempotency-ok weather.relookup_fails _ key fingerprint r.run_id
              (join_other-ok minter world input _ r joins)
    ]

start_run_looked_up-Records :
    (minter : Minter) (weather : Weather) (world : World) (key fingerprint : String)
    (input : StartRunInput) (db db' : Db) (r : StartRunResult)
    → start_run_looked_up minter weather world key fingerprint input db
        (lookup_idempotency weather.lookup_fails db.keys key fingerprint)
      ≡ (ok r, db')
    → Records key fingerprint r.run_id db'
unfolding start_run_looked_up
start_run_looked_up-Records minter weather world key fingerprint input db db' r h =
    by_answer (lookup_idempotency weather.lookup_fails db.keys key fingerprint) refl h
  where
    by_answer :
        (o : Result StartError (Option ℕ))
        → lookup_idempotency weather.lookup_fails db.keys key fingerprint ≡ o
        → start_run_looked_up minter weather world key fingerprint input db o ≡ (ok r, db')
        → Records key fingerprint r.run_id db'
    by_answer (err e) p k = absurd (ground arith)
    by_answer (ok none) p k =
        start_new-Records minter weather world key fingerprint input db db' r k
    by_answer (ok (some run_id)) p k =
        let same = minted_result-run_id minter world input run_id r (ap (λ x. x.0) k) in
        ap (λ (d : Db). check_row fingerprint (lookup key d.keys)) (sym (ap (λ x. x.1) k))
        ∙ lookup_idempotency-ok weather.lookup_fails db.keys key fingerprint run_id p
        ∙ ap (λ n. ok (some n)) (sym same)

pub start_run-valid :
    (texts : Texts) (minter : Minter) (weather : Weather) (world : World) (db : Db)
    (input : StartRunInput)
    → validate_start_run_input texts input ≡ ok tt
    → let key = start_run_idempotency_key texts input.user_id input.client_request_id in
      let fingerprint = start_run_fingerprint texts input.room_slug in
      start_run texts minter weather world db input
      ≡ start_run_looked_up minter weather world key fingerprint input db
          (lookup_idempotency weather.lookup_fails db.keys key fingerprint)
unfolding start_run
start_run-valid texts minter weather world db input valid = rw (start_run, valid) refl

start_run-Records :
    (texts : Texts) (minter : Minter) (weather : Weather) (world : World) (db db' : Db)
    (input : StartRunInput) (r : StartRunResult)
    → start_run texts minter weather world db input ≡ (ok r, db')
    → Records
        (start_run_idempotency_key texts input.user_id input.client_request_id)
        (start_run_fingerprint texts input.room_slug)
        r.run_id
        db'
unfolding start_run
start_run-Records texts minter weather world db db' input r h =
    elim (Result-cases (validate_start_run_input texts input)) [
      | inr (e, p) ↦ absurd (ground arith)
      | inl (u, p) ↦
          start_run_looked_up-Records minter weather world _ _ input db db' r
            (sym (start_run-valid texts minter weather world db input p) ∙ h)
    ]

-- A request to start a run that is sent again gets the same run: once a call has succeeded, in whatever
-- order others' calls came between its statements, a later valid request of the same user with the same
-- client request id, up to blanks, and the same room, whose look-up does not fail, makes no run and
-- changes no table, and its result is a token newly minted for the first call's run.
pub start_run_again :
    (texts : Texts) (minter minter' : Minter) (weather weather' : Weather) (world world' : World)
    (db db' : Db) (input input' : StartRunInput) (r : StartRunResult)
    → start_run texts minter weather world db input ≡ (ok r, db')
    → start_run_idempotency_key texts input'.user_id input'.client_request_id
      ≡ start_run_idempotency_key texts input.user_id input.client_request_id
    → input'.room_slug ≡ input.room_slug
    → validate_start_run_input texts input' ≡ ok tt
    → weather'.lookup_fails ≡ false
    → start_run texts minter' weather' world' db' input'
      ≡ (minted_result minter' world' input' r.run_id, db')
unfolding start_run start_run_looked_up lookup_idempotency
start_run_again texts minter minter' weather weather' world world' db db' input input' r h k slug
      valid works =
    let found = start_run-Records texts minter weather world db db' input r h in
    rw (start_run, valid, works, k, slug, found) refl
