-- ===== src/Starts/RunService.antt =====
-- internal/engine/a/service/run_service.go. `crypto/sha256`, `encoding/json` and `google/uuid` are the
-- parameter `Texts`.
use mathlib.Core.Bool.{◌||◌, not}
use sys_escape.Prelude.{
  ℕ, ◌==◌, Bool, false, List, Option, none, some, String, if◌then◌else◌, Result, ok, err, fail_if,
  map_err, ◌>>=◌, ◌>>◌,
}
use Prim.Native.String.{◌++◌ as text_append}
use sys_escape.Prelude.Int.{ℤ}
use sys_escape.Prelude.Text.{str_eq, is_blank, trim_space}
use sys_escape.Store.Tables.{Run}
use sys_escape.Store.RunRepo.{Generated, create_run}
use sys_escape.Token.Claims.{engine_a, engine_b}
use sys_escape.Token.Tokens.{Jwt, mint_run_token}
use sys_escape.Starts.Idempotency.{
  StartError, request_in_progress, invalid_input, database_error, mint_error, KeyRow,
  lookup_idempotency, reserve_idempotency, store_response, release,
}

pub record Texts : Type 0 where
  pub uuid_version : String → Option ℕ
  pub uuid_text : ℕ → String
  pub slug_hash : String → String

pub record StartRunInput : Type 0 where
  pub client_request_id : String
  pub user_id : ℕ
  pub room_slug : String
  pub room_version_id : ℕ
  pub engine : String

pub record StartRunResult : Type 0 where
  pub run_id : ℕ
  pub run_token : String

pub record MintInput : Type 0 where
  pub user_id : ℕ
  pub run_id : ℕ
  pub engine : String
  pub now : Option ℕ

-- `TokenMinter`.
abbrev pub Minter : Type 0
Minter = MintInput → Result StartError String

-- `JWTTokenMinter.MintRunToken`.
unfoldable pub jwt_token_minter : Jwt → ℕ → String → ℤ → Minter
unfolding mint_run_token
jwt_token_minter jwt clock secret ttl input =
    map_err (λ e. mint_error)
      (mint_run_token jwt clock secret (record {
        user_id = input.user_id;
        run_id = input.run_id;
        engine = input.engine;
        ttl = ttl;
        now = some (elim input.now [ none ↦ clock | some now ↦ now ]);
      }))

abbrev pub is_uuid_v4 : Option ℕ → Bool
is_uuid_v4 none = false
is_uuid_v4 (some v) = v == 4

unfoldable pub validate_start_run_input : Texts → StartRunInput → Result StartError (Unit {0})
unfolding is_blank trim_space
validate_start_run_input texts input = do
  fail_if (not (is_uuid_v4 (Texts.uuid_version texts (trim_space input.client_request_id))))
      invalid_input
  fail_if (input.user_id == 0) invalid_input
  fail_if (is_blank input.room_slug) invalid_input
  fail_if (input.room_version_id == 0) invalid_input
  fail_if (is_blank input.engine) invalid_input
  fail_if (not (str_eq input.engine engine_a || str_eq input.engine engine_b)) invalid_input

unfoldable pub start_run_idempotency_key : Texts → ℕ → String → String
unfolding trim_space
start_run_idempotency_key texts user_id client_request_id =
    text_append "startRun:"
      (text_append (texts.uuid_text user_id) (text_append ":" (trim_space client_request_id)))

unfoldable pub start_run_fingerprint : Texts → String → String
start_run_fingerprint texts room_slug = texts.slug_hash room_slug

pub record Db : Type 0 where
  pub keys : List (String × KeyRow ℕ)
  pub runs : List Run

-- Which statements the driver reports as failed, and what others do to the table of keys before the
-- reservation and after it.
pub record Weather : Type 0 where
  pub lookup_fails : Bool
  pub reserve_fails : Bool
  pub relookup_fails : Bool
  pub create_fails : Bool
  pub update_fails : Bool
  pub release_fails : Bool
  pub before_reserve : List (String × KeyRow ℕ) → List (String × KeyRow ℕ)
  pub after_conflict : List (String × KeyRow ℕ) → List (String × KeyRow ℕ)

-- The clock, the random seed and what the database generates.
pub record World : Type 0 where
  pub now : ℕ
  pub seed : ℤ
  pub gen : Generated

unfoldable pub minted_result : Minter → World → StartRunInput → ℕ → Result StartError StartRunResult
minted_result minter world input run_id = do
  run_token ← minter (record {
    user_id = input.user_id;
    run_id = run_id;
    engine = input.engine;
    now = some world.now;
  })
  ok (record { run_id = run_id; run_token = run_token })

-- The deferred DELETE.
unfoldable pub give_up : Weather → String → Db → Db
unfolding release
give_up weather key db =
    if weather.release_fails then db else record db { keys = release db.keys key }

-- From the reservation on.
unfoldable pub start_reserved :
    Minter → Weather → World → String → StartRunInput → Db → Result StartError StartRunResult × Db
unfolding create_run minted_result give_up store_response
start_reserved minter weather world key input db =
    let (run, runs) = create_run db.runs world.gen input.user_id input.room_version_id world.seed in
    if weather.create_fails
    then (err database_error, give_up weather key db)
    else if weather.update_fails
    then (err database_error, give_up weather key (record db { runs = runs }))
    else (
      minted_result minter world input run.id,
      record db { runs = runs; keys = store_response db.keys key run.id },
    )

-- A key that is taken: the other request's run, if it is there.
unfoldable pub join_other :
    Minter → World → StartRunInput → Result StartError (Option ℕ) → Result StartError StartRunResult
unfolding minted_result
join_other minter world input (err e) = err e
join_other minter world input (ok none) = err request_in_progress
join_other minter world input (ok (some run_id)) = minted_result minter world input run_id

unfoldable pub start_new :
    Minter
    → Weather
    → World
    → String
    → String
    → StartRunInput
    → Db
    → Result StartError StartRunResult × Db
unfolding reserve_idempotency lookup_idempotency start_reserved join_other
start_new minter weather world key fingerprint input db =
    let seen = weather.before_reserve db.keys in
    let (reserved, keys) = reserve_idempotency world.now seen key input.user_id fingerprint in
    let later = weather.after_conflict keys in
    if weather.reserve_fails
    then (err database_error, record db { keys = seen })
    else if reserved
    then start_reserved minter weather world key input (record db { keys = keys })
    else (
      join_other minter world input
          (lookup_idempotency weather.relookup_fails later key fingerprint),
      record db { keys = later },
    )

unfoldable pub start_run_looked_up :
    Minter
    → Weather
    → World
    → String
    → String
    → StartRunInput
    → Db
    → Result StartError (Option ℕ)
    → Result StartError StartRunResult × Db
unfolding start_new minted_result
start_run_looked_up minter weather world key fingerprint input db (err e) = (err e, db)
start_run_looked_up minter weather world key fingerprint input db (ok (some run_id)) =
    (minted_result minter world input run_id, db)
start_run_looked_up minter weather world key fingerprint input db (ok none) =
    start_new minter weather world key fingerprint input db

unfoldable pub start_run :
    Texts → Minter → Weather → World → Db → StartRunInput → Result StartError StartRunResult × Db
unfolding validate_start_run_input start_run_idempotency_key start_run_fingerprint
    start_run_looked_up lookup_idempotency
start_run texts minter weather world db input =
    let key = start_run_idempotency_key texts input.user_id input.client_request_id in
    let fingerprint = start_run_fingerprint texts input.room_slug in
    elim (validate_start_run_input texts input) [
      | err e ↦ (err e, db)
      | ok _ ↦
          start_run_looked_up minter weather world key fingerprint input db
            (lookup_idempotency weather.lookup_fails db.keys key fingerprint)
    ]
