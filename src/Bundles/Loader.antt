-- ===== src/Bundles/Loader.antt =====
-- internal/engine/a/service/bundle_loader.go. `archive/tar` and `gopkg.in/yaml.v3` are the parameter
-- `Formats`: what the reader of an archive meets, item by item, and what a text decodes to. A map that
-- the decoder makes is an association list.
use sys_escape.Prelude.{
  Bool, true, false, List, [], ◌∷◌, Option, none, some, String, map, if◌then◌else◌, Result, ok, err,
  or_err, ◌>>=◌, is_some,
}
use sys_escape.Prelude.Int.{ℤ, pos}
use sys_escape.Prelude.Assoc.{lookup, insert}
use sys_escape.Prelude.Text.{cut_prefix}
use sys_escape.Sim.Types.{Effect, TimedEvent, ActionEffectSet, WinCheck, SimulationSpec}
use sys_escape.Bundles.Paths.{clean}

-- `broken` is an error of Next; a member's content is `none` where reading it fails.
pub data TarItem : Type 0 where
  broken : TarItem
  member : (name : String) → (is_regular : Bool) → (content : Option String) → TarItem

pub data Value (F : Type 0) : Type 0 where
  int : ℤ → Value F
  float : F → Value F
  other : String → Value F

pub record BundleScenario (F : Type 0) : Type 0 where
  pub topology : List (List (String × Value F))
  pub initial_metrics : List (String × Value F)
  pub config : List (String × Value F)

pub record BundleAction : Type 0 where
  pub key : String
  pub description : String

pub record BundleSignals : Type 0 where
  pub metrics : List String
  pub log_patterns : List String
  pub trace_spans : List String

pub record BundleEffect (F : Type 0) : Type 0 where
  pub metric : String
  pub target : F
  pub rate : F

pub record BundleTimedEvent (F : Type 0) : Type 0 where
  pub at_tick : ℤ
  pub effects : List (BundleEffect F)

pub record BundleSimulation (F : Type 0) : Type 0 where
  pub tick_interval_ms : ℤ
  pub duration_ticks : ℤ
  pub events : List (BundleTimedEvent F)
  pub action_effects : List (String × List (BundleEffect F))

pub record EngineABundle (F : Type 0) : Type 0 where
  pub scenario : BundleScenario F
  pub actions : List BundleAction
  pub signals : BundleSignals
  pub win_checks : List (WinCheck F)
  pub simulation : SimulationSpec F

-- `of_int` is the conversion of an int to a float64.
pub record Formats (F : Type 0) : Type 0 where
  pub items : String → List TarItem
  pub of_int : ℤ → F
  pub scenario : String → Option (BundleScenario F)
  pub actions : String → Option (List BundleAction)
  pub signals : String → Option BundleSignals
  pub win_checks : String → Option (List (WinCheck F))
  pub simulation : String → Option (BundleSimulation F)

-- A missing file is named by the first one that the range over the map meets, which is any of them; the
-- model leaves the name out.
pub data LoadError : Type 0 where
  bad_archive missing_file : LoadError
  unreadable bad_yaml : String → LoadError
  not_numeric : String → LoadError

abbrev pub Required : Type 0
Required = List (String × Option String)

unfoldable pub required_files : Required
required_files =
    ("engineA/scenario.yaml", none)
    ∷ ("engineA/actions.yaml", none)
    ∷ ("engineA/signals.yaml", none)
    ∷ ("engineA/win_checks.yaml", none)
    ∷ ("engineA/simulation.yaml", none)
    ∷ []

-- `strings.TrimPrefix(path.Clean(name), "./")`.
unfoldable pub member_name : String → String
unfolding clean cut_prefix
member_name name = elim (cut_prefix "./" (clean name)) [ none ↦ clean name | some rest ↦ rest ]

-- The loop over the archive.
unfoldable pub read_members : List TarItem → Required → Result LoadError Required
unfolding member_name lookup insert
read_members [] files = ok files
read_members (broken ∷ items) files = err bad_archive
read_members (member name is_regular content ∷ items) files =
    elim (if is_regular then is_some (lookup (member_name name) files) else false) [
      | false ↦ read_members items files
      | true ↦ elim content [
        | none ↦ err (unreadable (member_name name))
        | some text ↦ read_members items (insert (member_name name) (some text) files)
      ]
    ]

abbrev pub all_there : Required → Bool
all_there [] = true
all_there (entry ∷ others) = if is_some entry.1 then all_there others else false

abbrev pub content_of : String → Required → Option String
content_of name files = elim (lookup name files) [ none ↦ none | some content ↦ content ]

abbrev pub parse_file :
    {A : Type 0} → (String → Option A) → String → Option String → Result LoadError A
parse_file decode name none = err missing_file
parse_file decode name (some text) = or_err (bad_yaml name) (decode text)

module _ {F : Type 0} where
  -- `Effect(eff)`.
  abbrev pub to_effect : BundleEffect F → Effect F
  to_effect e = record { metric = e.metric; target = e.target; rate = e.rate }

  -- The error names the first metric in the order of the map.
  unfoldable pub to_float_metrics :
      (ℤ → F) → List (String × Value F) → Result LoadError (List (String × F))
  to_float_metrics of_int [] = ok []
  to_float_metrics of_int ((key, int n) ∷ rest) = do
    floats ← to_float_metrics of_int rest
    ok ((key, of_int n) ∷ floats)
  to_float_metrics of_int ((key, float x) ∷ rest) = do
    floats ← to_float_metrics of_int rest
    ok ((key, x) ∷ floats)
  to_float_metrics of_int ((key, other kind) ∷ rest) = err (not_numeric key)

  abbrev pub to_event : BundleTimedEvent F → TimedEvent F
  to_event ev = record { at_tick = ev.at_tick; effects = map to_effect ev.effects }

  abbrev pub to_action_effects :
      List (String × List (BundleEffect F)) → List (String × ActionEffectSet F)
  to_action_effects [] = []
  to_action_effects (entry ∷ others) =
      (entry.0, record { effects = map to_effect entry.1 }) ∷ to_action_effects others

  -- The seed of a specification is not set here.
  abbrev pub to_spec : BundleSimulation F → List (String × F) → List (WinCheck F) → SimulationSpec F
  to_spec simulation metrics checks = record {
    tick_interval_ms = simulation.tick_interval_ms;
    duration_ticks = simulation.duration_ticks;
    seed = pos 0;
    initial_metrics = metrics;
    events = map to_event simulation.events;
    action_effects = to_action_effects simulation.action_effects;
    win_checks = checks;
  }

  -- From the five contents on.
  unfoldable pub parse_bundle :
      Formats F
      → (scenario actions signals win_checks simulation : Option String)
      → Result LoadError (EngineABundle F)
  unfolding to_float_metrics
  parse_bundle formats scenario actions signals win_checks simulation = do
    s ← parse_file formats.scenario "engineA/scenario.yaml" scenario
    a ← parse_file formats.actions "engineA/actions.yaml" actions
    g ← parse_file formats.signals "engineA/signals.yaml" signals
    w ← parse_file formats.win_checks "engineA/win_checks.yaml" win_checks
    m ← parse_file formats.simulation "engineA/simulation.yaml" simulation
    metrics ← to_float_metrics formats.of_int s.initial_metrics
    ok (record {
      scenario = s;
      actions = a;
      signals = g;
      win_checks = w;
      simulation = to_spec m metrics w;
    })

  abbrev pub parse_files : Formats F → Required → Result LoadError (EngineABundle F)
  parse_files formats files =
      parse_bundle formats (content_of "engineA/scenario.yaml" files)
        (content_of "engineA/actions.yaml" files) (content_of "engineA/signals.yaml" files)
        (content_of "engineA/win_checks.yaml" files) (content_of "engineA/simulation.yaml" files)

  unfoldable pub load_engine_a_bundle_from_tar :
      Formats F → String → Result LoadError (EngineABundle F)
  unfolding read_members required_files parse_bundle
  load_engine_a_bundle_from_tar formats raw = do
    files ← read_members (formats.items raw) required_files
    if all_there files then parse_files formats files else err missing_file
