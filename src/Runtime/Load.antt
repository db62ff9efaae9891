-- ===== src/Runtime/Load.antt =====
-- `state` of cmd/engine-a/runtime.go as a whole: the runs in memory, the look-up of a run's bundle, the
-- archive and the log. The object store is the field `download` of `Backing`.
use sys_escape.Prelude.{
  ℕ, ◌==◌, Bool, List, Option, none, some, String, find_first, if◌then◌else◌, Result, ok, err,
  fail_if, or_err, or_else, map_err, ◌>>=◌, ◌>>◌,
}
use sys_escape.Prelude.Text.{str_eq}
use sys_escape.Sim.Types.{Float64}
use sys_escape.Store.Tables.{Run, RunAction}
use sys_escape.Store.RunRepo.{Generated, Schedule, get_run_by_id}
use sys_escape.Publishing.Service.{RoomVersion}
use sys_escape.Bundles.Loader.{Formats, LoadError, EngineABundle, load_engine_a_bundle_from_tar}
use sys_escape.Runtime.State.{RunState, RuntimeError, open_state}

pub data StateError : Type 0 where
  run_not_found hash_query_failed missing_bundle_hash download_failed : StateError
  load_failed : LoadError → StateError
  runtime_failed : RuntimeError → StateError

-- `none` of `download` is an error of Download or of reading what it gives.
pub record Backing (F : Type 0) : Type 0 where
  pub run_fails : Bool
  pub runs : List Run
  pub hash_fails : Bool
  pub versions : List RoomVersion
  pub download : String → Option String
  pub formats : Formats F

-- `SELECT COALESCE(bundle_hash, '')`; no row is an error.
unfoldable pub bundle_hash_of : List RoomVersion → ℕ → Option String
bundle_hash_of versions id = elim (find_first (λ v. v.id == id) versions) [
  | none ↦ none
  | some v ↦ some (or_else v.bundle_hash "")
]

-- The states in memory, by run.
abbrev pub Memory : Type 0 → Type 0
Memory F = ℕ → Option (RunState F)

abbrev pub remember : {F : Type 0} → Memory F → ℕ → RunState F → Memory F
remember memory run_id s asked = if asked == run_id then some s else memory asked

module _ {F : Type 0} where
  -- From the run to its bundle.
  unfoldable pub load_bundle : Backing F → ℕ → Result StateError (EngineABundle F)
  unfolding get_run_by_id bundle_hash_of load_engine_a_bundle_from_tar
  load_bundle b run_id = do
    run ← or_err run_not_found (if b.run_fails then none else get_run_by_id b.runs run_id)
    hash ←
        or_err hash_query_failed
          (if b.hash_fails then none else bundle_hash_of b.versions run.room_version_id)
    fail_if (str_eq hash "") missing_bundle_hash
    raw ← or_err download_failed (b.download hash)
    map_err load_failed (load_engine_a_bundle_from_tar b.formats raw)

module _ {F : Type 0} ⦃fp : Float64 F⦄ where
  -- A state that is not in memory; `t` is the table that `ListActions` sees.
  unfoldable pub load_state :
      Schedule
      → Generated
      → Backing F
      → ℕ
      → List RunAction
      → Result StateError (RunState F) × Option RunAction
  unfolding load_bundle open_state
  load_state db gen b run_id t = elim (load_bundle b run_id) [
    | err e ↦ (err e, none)
    | ok bundle ↦
        let (s, row) = open_state db b.runs gen run_id bundle.simulation t in
        (map_err runtime_failed s, row)
  ]

  abbrev pub remembered :
      Memory F
      → ℕ
      → Result StateError (RunState F) × Option RunAction
      → Result StateError (RunState F) × Memory F × Option RunAction
  remembered memory run_id (err e, row) = (err e, memory, row)
  remembered memory run_id (ok s, row) = (ok s, remember memory run_id s, row)

  -- The mutex is free while the run is loaded: `memory` is the map at the look-up and `later` the map when
  -- the new state is put into it.
  unfoldable pub state :
      Schedule
      → Generated
      → Backing F
      → Memory F
      → Memory F
      → ℕ
      → List RunAction
      → Result StateError (RunState F) × Memory F × Option RunAction
  unfolding load_state
  state db gen b memory later run_id t = elim (memory run_id) [
    | some s ↦ (ok s, memory, none)
    | none ↦ remembered later run_id (load_state db gen b run_id t)
  ]
