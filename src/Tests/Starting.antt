-- ===== src/Tests/Starting.antt =====
-- A request to start a run, sent twice (internal/engine/a/service/run_service.go).
use sys_escape.Prelude.{◌≡◌, refl, true, false, [], ◌∷◌, some, ok}
use sys_escape.Prelude.Int.{pos}
use sys_escape.Prelude.Text.{is_blank, trim_space}
use sys_escape.Prelude.Assoc.{lookup, insert}
use sys_escape.Store.RunRepo.{create_run}
use sys_escape.Starts.Idempotency.{
  check_row, lookup_idempotency, reserve_idempotency, store_response, release,
}
use sys_escape.Starts.RunService.{
  Texts, StartRunInput, Minter, Db, Weather, World, validate_start_run_input,
  start_run_idempotency_key, start_run_fingerprint, minted_result, start_reserved, join_other,
  start_new, start_run_looked_up, start_run, give_up,
}
use sys_escape.Starts.Retry.{start_run_again}
use sys_escape.Starts.Failure.{Settled, start_run-Settled}
use sys_escape.Tests.Rows.{run_row, generated}

abbrev pub texts : Texts
texts = record { uuid_version = λ text. some 4; uuid_text = λ id. "user"; slug_hash = λ slug. slug }

abbrev pub minter : Minter
minter = λ input. ok "token"

abbrev pub calm : Weather
calm = record {
  lookup_fails = false;
  reserve_fails = false;
  relookup_fails = false;
  create_fails = false;
  update_fails = false;
  release_fails = false;
  before_reserve = λ keys. keys;
  after_conflict = λ keys. keys;
}

abbrev pub world : World
world = record { now = 0; seed = pos 1; gen = generated }

abbrev start_input : StartRunInput
start_input = record {
  client_request_id = "r1";
  user_id = 1;
  room_slug = "cache-room";
  room_version_id = 2;
  engine = "A";
}

abbrev sent_again : StartRunInput
sent_again = record start_input { client_request_id = " r1 " }

abbrev pub started : Db
started = record {
  keys =
      (
        "startRun:user:r1",
        record {
          user_id = 1;
          response_fingerprint = "cache-room";
          response_body = some 100;
          expires_at = 86400000000000;
        },
      )
      ∷ [];
  runs = record run_row { id = 100; seed = pos 1; started_at = 5 } ∷ [];
}

-- All that starting a run computes with.
unfoldable pub starting : Unit {0}
unfolding start_run start_run_looked_up start_new start_reserved join_other minted_result give_up
    validate_start_run_input start_run_idempotency_key start_run_fingerprint lookup_idempotency
    check_row reserve_idempotency store_response release create_run lookup insert is_blank
    trim_space
starting = tt

first_start :
    start_run texts minter calm world (record { keys = []; runs = [] }) start_input
    ≡ (ok (record { run_id = 100; run_token = "token" }), started)
unfolding starting
first_start = refl

start_run_again_example :
    start_run texts minter calm world started sent_again
    ≡ (ok (record { run_id = 100; run_token = "token" }), started)
unfolding starting
start_run_again_example =
    start_run_again texts minter minter calm calm world world (record { keys = []; runs = [] })
      started start_input sent_again (record { run_id = 100; run_token = "token" }) first_start refl
      refl refl refl

-- The run is made, but its response cannot be stored.
abbrev stormy : Weather
stormy = record calm { update_fails = true }

start_run-Settled_example :
    Settled "startRun:user:r1" "cache-room"
      (start_run texts minter stormy world (record { keys = []; runs = [] }) start_input).1
unfolding starting
start_run-Settled_example =
    start_run-Settled texts minter stormy world (record { keys = []; runs = [] }) start_input refl
      refl refl
