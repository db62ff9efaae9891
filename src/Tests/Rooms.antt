-- ===== src/Tests/Rooms.antt =====
-- A room that is checked, packed, loaded and played (internal/roomctl, bundle_loader.go, runtime.go).
use sys_escape.Prelude.{
  ◌==◌, ◌≡◌, ◌↔◌, refl, true, false, List, [], ◌∷◌, none, some, String, ok, err, if◌then◌else◌,
}
use sys_escape.Prelude.Int.{ℤ, pos, negsuc}
use sys_escape.Prelude.Text.{is_blank, trim_space, cut_prefix}
use sys_escape.Prelude.Assoc.{lookup, insert}
use sys_escape.Prelude.Sort.{sort_strings}
use sys_escape.Sim.Exact.{exact}
use sys_escape.Store.RunRepo.{append_action, get_run_by_id, quiet}
use sys_escape.Publishing.Service.{RoomVersion}
use sys_escape.Bundles.Paths.{clean, join, base}
use sys_escape.Bundles.Loader.{
  TarItem, member, BundleScenario, BundleAction, BundleSimulation, Formats, EngineABundle,
  required_files, member_name, read_members, to_float_metrics, parse_bundle,
  load_engine_a_bundle_from_tar, int,
}
use sys_escape.Bundles.Contents.{last_content, load-contents}
use sys_escape.Bundles.Check.{
  key_mismatch, must_dir, parse_yaml, validate_metadata, add_key, key_set, missing_from,
  validate_action_simulation_key_match, validate_engine_a, validate_room_dir, validate_entries,
  validate_all_rooms, check_engine_b_leak,
}
use sys_escape.Bundles.Match.{mentions, keys_of, validate_action_simulation_key_match_iff}
use sys_escape.Runtime.State.{RunState, push_delta, offer}
use sys_escape.Runtime.Calls.{tick_round, tick_recorded, settle, finish_run}
use sys_escape.Runtime.Synced.{Synced}
use sys_escape.Runtime.Load.{Backing, bundle_hash_of, load_bundle, load_state, state}
use sys_escape.Runtime.Loaded.{BundleOf, load_state-Synced}
use sys_escape.Tests.Simulator.{room}
use sys_escape.Tests.Rows.{run_row, generated, tick_row}
use sys_escape.Tests.Runs.{loaded, runtime, empty-IsNumbered}

abbrev items : List TarItem
items =
    member "engineA/" false (some "")
    ∷ member "engineA/actions.yaml" true (some "old")
    ∷ member "./engineA/actions.yaml" true (some "actions")
    ∷ member "engineA/scenario.yaml" true (some "scenario")
    ∷ member "engineA/signals.yaml" true (some "signals")
    ∷ member "engineA/simulation.yaml" true (some "simulation")
    ∷ member "engineA/win_checks.yaml" true (some "checks")
    ∷ member "metadata.yaml" true (some "metadata")
    ∷ []

abbrev room_scenario : BundleScenario ℤ
room_scenario = record {
  topology = [];
  initial_metrics = ("latency", int (pos 20)) ∷ ("errors", int (pos 1)) ∷ [];
  config = [];
}

abbrev room_actions : List BundleAction
room_actions = record { key = "enable_cache"; description = "" } ∷ []

abbrev room_simulation : BundleSimulation ℤ
room_simulation = record {
  tick_interval_ms = pos 250;
  duration_ticks = pos 10;
  events =
      record {
        at_tick = pos 0;
        effects = record { metric = "latency"; target = pos 90; rate = pos 30 } ∷ [];
      }
      ∷ [];
  action_effects =
      ("enable_cache", record { metric = "latency"; target = pos 10; rate = negsuc 49 } ∷ []) ∷ [];
}

abbrev formats : Formats ℤ
formats = record {
  items = λ raw. items;
  of_int = λ n. n;
  scenario = λ text. some room_scenario;
  actions = λ text. some room_actions;
  signals = λ text. some (record { metrics = []; log_patterns = []; trace_spans = [] });
  win_checks = λ text. some room.win_checks;
  simulation = λ text. some room_simulation;
}

-- All that loading a bundle computes with.
bundles : Unit {0}
unfolding clean join base cut_prefix lookup insert required_files member_name read_members
    to_float_metrics parse_bundle load_engine_a_bundle_from_tar last_content must_dir parse_yaml
    validate_metadata add_key key_set missing_from validate_action_simulation_key_match
    validate_engine_a validate_room_dir validate_entries validate_all_rooms check_engine_b_leak
    mentions is_blank trim_space sort_strings get_run_by_id bundle_hash_of load_bundle load_state
    state runtime tick_round tick_recorded settle finish_run push_delta offer append_action
bundles = tt

load-contents_example :
    load_engine_a_bundle_from_tar formats "tar"
    ≡ parse_bundle formats
        (some "scenario")
        (some "actions")
        (some "signals")
        (some "checks")
        (some "simulation")
unfolding bundles
load-contents_example =
    load-contents formats "tar" (refl, (refl, (refl, (refl, (refl, (refl, (refl, (refl, tt))))))))

abbrev spaced : List String
spaced = " enable_cache" ∷ "" ∷ []

validate_action_simulation_key_match_iff_example :
    (validate_action_simulation_key_match room_actions spaced ≡ ok tt)
    ↔ ((key : String) → mentions key (keys_of room_actions) ≡ mentions key spaced)
validate_action_simulation_key_match_iff_example =
    validate_action_simulation_key_match_iff room_actions spaced

match_test : validate_action_simulation_key_match room_actions spaced ≡ ok tt
unfolding bundles
match_test = refl

mismatch_test :
    validate_action_simulation_key_match room_actions ("scale" ∷ [])
    ≡ err (key_mismatch ("enable_cache" ∷ []) ("scale" ∷ []))
unfolding bundles
mismatch_test = refl

abbrev version : RoomVersion
version = record {
  id = 3;
  room_id = 4;
  version_number = pos 1;
  status = "PUBLISHED";
  bundle_hash = some "abc";
  changelog = "";
  published_at = 0;
}

abbrev backing : Backing ℤ
backing = record {
  run_fails = false;
  runs = run_row ∷ [];
  hash_fails = false;
  versions = record version { id = run_row.room_version_id } ∷ [];
  download = λ hash. some "tar";
  formats = formats;
}

first_load_test :
    state (quiet []) generated backing (λ run. none) (λ run. none) 7 []
    ≡ (ok loaded, (λ run. if run == 7 then some loaded else none), some tick_row)
unfolding bundles
first_load_test = refl

load_test : load_state (quiet []) generated backing 7 [] ≡ (ok loaded, some tick_row)
unfolding bundles
load_test = refl

load_state-Synced_example :
    (bundle : EngineABundle ℤ) × BundleOf backing 7 bundle
    × Synced bundle.simulation (tick_row ∷ []) loaded
load_state-Synced_example =
    load_state-Synced generated backing 7 [] loaded (some tick_row) empty-IsNumbered load_test

load_again_test :
    load_state (quiet (tick_row ∷ [])) generated backing 7 (tick_row ∷ []) ≡ (ok loaded, none)
unfolding bundles
load_again_test = refl

abbrev ticked : RunState ℤ
ticked = record loaded { last_seq = 2; tick_started = true }

-- A call that looked the run up before another one stored it puts its own state in the place of the other.
second_load_test :
    (state
        (quiet (tick_row ∷ []))
        generated
        backing
        (λ run. none)
        (λ run. some ticked)
        7
        (tick_row ∷ [])).1
      7
    ≡ some loaded
unfolding bundles
second_load_test = refl
