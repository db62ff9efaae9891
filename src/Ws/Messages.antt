-- ===== src/Ws/Messages.antt =====
-- The messages of internal/ws/protocol.go and internal/ws/resume_buffer.go, and the types of the
-- `Runtime` interface of internal/engine/a/transport/ws_handler.go. `P` is the type of a raw JSON
-- payload. An `int` is ℤ.
use sys_escape.Prelude.{Bool, List, Option, String}
use sys_escape.Prelude.Int.{ℤ, pos}

pub record Delta (P : Type 0) : Type 0 where
  pub seq : ℤ
  pub payload : P

abbrev pub protocol_version1 : ℤ
protocol_version1 = pos 1

abbrev pub type_hello : String
type_hello = "hello"

abbrev pub type_hello_ack : String
type_hello_ack = "hello_ack"

abbrev pub type_snapshot : String
type_snapshot = "snapshot"

abbrev pub type_delta : String
type_delta = "delta"

abbrev pub type_apply_action : String
type_apply_action = "apply_action"

abbrev pub type_action_accepted : String
type_action_accepted = "action_accepted"

abbrev pub type_win_update : String
type_win_update = "win_update"

abbrev pub type_ping : String
type_ping = "ping"

abbrev pub type_pong : String
type_pong = "pong"

pub record Envelope (P : Type 0) : Type 0 where
  pub protocol_version : ℤ
  pub msg_type : String
  pub run_id : String
  pub seq : Option ℤ
  pub payload : P

pub record HelloPayload : Type 0 where
  pub run_token : String
  pub resume_from_seq : Option ℤ

pub record HelloAckPayload : Type 0 where
  pub snapshot_required : Bool

pub record ApplyActionPayload : Type 0 where
  pub action_key : String
  pub client_request_id : String
  pub expected_seq : ℤ

pub record ActionAcceptedPayload : Type 0 where
  pub action_key : String
  pub seq : ℤ

pub record ConnectResult (P : Type 0) : Type 0 where
  pub snapshot_required : Bool
  pub snapshot : Delta P
  pub deltas : List (Delta P)

pub record ApplyActionInput : Type 0 where
  pub action_key : String
  pub client_request_id : String
  pub expected_seq : ℤ

-- An empty `WinPayload` is `none`.
pub record ApplyActionResult (P : Type 0) : Type 0 where
  pub seq : ℤ
  pub delta : P
  pub win_payload : Option P
