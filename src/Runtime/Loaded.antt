-- ===== src/Runtime/Loaded.antt =====
-- Loading a run (`state` of cmd/engine-a/runtime.go) against its row, its bundle and its log.
use sys_escape.Prelude.{
  ℕ, ◌≡◌, ap, ◌∙◌, List, Option, some, String, ok, arith, Option-cases, Result-cases, Bool-cases,
  inl, inr,
}
use sys_escape.Sim.Types.{Float64}
use sys_escape.Store.Tables.{Run, RunAction}
use sys_escape.Store.RunRepo.{Generated, Schedule, get_run_by_id, quiet, committed}
use sys_escape.Store.Numbering.{IsNumbered}
use sys_escape.Bundles.Loader.{EngineABundle, load_engine_a_bundle_from_tar}
use sys_escape.Runtime.State.{RunState, open_state}
use sys_escape.Runtime.Synced.{Synced}
use sys_escape.Runtime.Restart.{open_state-Synced}
use sys_escape.Runtime.Load.{Backing, bundle_hash_of, load_bundle, load_state}

module _ {F : Type 0} ⦃fp : Float64 F⦄ where
  -- The bundle that a run is played with.
  pub record BundleOf (b : Backing F) (run_id : ℕ) (bundle : EngineABundle F) : Type 0 where
    pub run : Run
    pub hash : String
    pub raw : String
    pub is_run : get_run_by_id b.runs run_id ≡ some run
    pub is_hash : bundle_hash_of b.versions run.room_version_id ≡ some hash
    pub is_archive : b.download hash ≡ some raw
    pub is_bundle : load_engine_a_bundle_from_tar b.formats raw ≡ ok bundle

  load_bundle-ok :
      (b : Backing F) (run_id : ℕ) (bundle : EngineABundle F)
      → load_bundle b run_id ≡ ok bundle
      → BundleOf b run_id bundle
  unfolding load_bundle
  load_bundle-ok b run_id bundle h = elim (Bool-cases b.run_fails) [
    | inl e ↦ absurd (ground (arith, e, h))
    | inr e ↦ elim (Option-cases (get_run_by_id b.runs run_id)) [
      | inl f ↦ absurd (ground (arith, e, f, h))
      | inr (run, f) ↦ elim (Bool-cases b.hash_fails) [
        | inl g ↦ absurd (ground (arith, e, f, g, h))
        | inr g ↦ elim (Option-cases (bundle_hash_of b.versions run.room_version_id)) [
          | inl k ↦ absurd (ground (arith, e, f, g, k, h))
          | inr (hash, k) ↦ elim (Option-cases (b.download hash)) [
            | inl l ↦ absurd (ground (arith, e, f, g, k, l, h))
            | inr (raw, l) ↦ record {
              run = run;
              hash = hash;
              raw = raw;
              is_run = f;
              is_hash = k;
              is_archive = l;
              is_bundle = ground (arith, e, f, g, k, l, h);
            }
          ]
        ]
      ]
    ]
  ]

  load_state-ok :
      (db : Schedule) (gen : Generated) (b : Backing F) (run_id : ℕ) (t : List RunAction)
      (s : RunState F) (new : Option RunAction)
      → load_state db gen b run_id t ≡ (ok s, new)
      → (bundle : EngineABundle F) × (load_bundle b run_id ≡ ok bundle)
        × (open_state db b.runs gen run_id bundle.simulation t ≡ (ok s, new))
  unfolding load_state
  load_state-ok db gen b run_id t s new h = elim (Result-cases (load_bundle b run_id)) [
    | inr (e, p) ↦ absurd (ground (arith, p, h))
    | inl (bundle, p) ↦
        let opened = open_state db b.runs gen run_id bundle.simulation t in
        elim (Result-cases opened.0) [
          | inr (e, q) ↦ absurd (ground (arith, p, q, h))
          | inl (s', q) ↦
              let is_s : s' ≡ s = ground (arith, p, q, h) in
              let is_new : opened.1 ≡ new = ground (arith, p, q, h) in
              (bundle, p, ap (λ r. (r, opened.1)) (q ∙ ap ok is_s) ∙ ap (λ n. (ok s, n)) is_new)
        ]
  ]

  -- A state that is loaded agrees with its log under the simulation of the one bundle that the run's
  -- room version names: the version's hash, the archive stored under it and the files in that, from a
  -- table in which every run is numbered 1, 2, 3 and so on and with no other transaction near.
  pub load_state-Synced :
      (gen : Generated) (b : Backing F) (run_id : ℕ) (t : List RunAction) (s : RunState F)
      (new : Option RunAction)
      → IsNumbered t
      → load_state (quiet t) gen b run_id t ≡ (ok s, new)
      → (bundle : EngineABundle F) × BundleOf b run_id bundle
        × Synced bundle.simulation (committed t new) s
  load_state-Synced gen b run_id t s new numbered h =
      let (bundle, loaded, opened) = load_state-ok (quiet t) gen b run_id t s new h in
      (
        bundle,
        load_bundle-ok b run_id bundle loaded,
        (open_state-Synced bundle.simulation t b.runs gen run_id s new numbered opened).0,
      )
