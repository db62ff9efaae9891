-- ===== src/Sim/Types.antt =====
-- internal/engine/a/service/types.go: the specification of a simulation, its log and its engine.
-- The type of the metrics is a parameter `F`: it stands for Go's float64, whose operations are the
-- fields of `Float64`. No law of them is assumed here. `int` fields that a bundle supplies are ℤ;
-- counters that start at 0 or 1 and only grow are ℕ, and the sequence numbers of a log are ℕ too (the
-- code compares them only with positions counted from 1, and refuses 0 as it refuses a negative one).
use sys_escape.Prelude.{ℕ, Bool, List, Option, String}
use sys_escape.Prelude.Int.{ℤ}

-- `math.Abs` and the operators of float64 that the simulator applies. `epsilon` is 1e-9.
pub record Float64 (F : Type 0) : Type 0 where
  pub zero_value : F
  pub epsilon : F
  pub lt : F → F → Bool
  pub le : F → F → Bool
  pub add : F → F → F
  pub sub : F → F → F
  pub neg : F → F
  pub abs : F → F

pub data SimError : Type 0 where
  unknown_action run_completed invalid_replay_log : SimError

abbrev pub action_type_player : String
action_type_player = "player"

abbrev pub action_type_tick : String
action_type_tick = "tick"

pub record Effect (F : Type 0) : Type 0 where
  pub metric : String
  pub target : F
  pub rate : F

pub record TimedEvent (F : Type 0) : Type 0 where
  pub at_tick : ℤ
  pub effects : List (Effect F)

pub record ActionEffectSet (F : Type 0) : Type 0 where
  pub effects : List (Effect F)

pub record WinCheck (F : Type 0) : Type 0 where
  pub metric : String
  pub op : String
  pub value : F

-- A map is an association list; the seed is carried and never read.
pub record SimulationSpec (F : Type 0) : Type 0 where
  pub tick_interval_ms : ℤ
  pub duration_ticks : ℤ
  pub seed : ℤ
  pub initial_metrics : List (String × F)
  pub events : List (TimedEvent F)
  pub action_effects : List (String × ActionEffectSet F)
  pub win_checks : List (WinCheck F)

pub record LogEntry : Type 0 where
  pub seq : ℕ
  pub action_type : String
  pub action_key : Option String
  pub client_request_id : Option String

pub record Snapshot (F : Type 0) : Type 0 where
  pub tick : ℕ
  pub won : Bool
  pub metrics : List (String × F)
  pub actions : List String

pub record Engine (F : Type 0) : Type 0 where
  pub spec : SimulationSpec F
  pub metrics : List (String × F)
  pub tick : ℕ
  pub won : Bool
  pub next_seq : ℕ
  pub log : List LogEntry
  pub active_actions : List String
