-- ===== src/Ws/Session.antt =====
-- `handleConnection` of internal/engine/a/transport/ws_handler.go, and the goroutines that it starts.
-- A session is their shared state. Each event is one step of one of them, up to and with a call of the
-- writer or of the tracker, so a list of events is an interleaving: between two steps of a `writeDelta`
-- the others may take any of theirs. An event carries what the runtime answers, if it is asked.
use mathlib.Core.Bool.{not, ◌&&◌}
use sys_escape.Prelude.{
  ℕ, Bool, true, false, List, [], ◌∷◌, Option, none, some, String, if◌then◌else◌, Result, ok, err,
}
use sys_escape.Prelude.Text.{str_eq}
use sys_escape.Ws.Messages.{
  Delta, Envelope, ApplyActionPayload, ApplyActionResult, type_apply_action, type_pong,
}
use sys_escape.Ws.Protocol.{Codec, WsError, validate_and_decode_apply_action}
use sys_escape.Ws.Heartbeat.{Heartbeat, record_pong, ping_due, heartbeat_timed_out}
use sys_escape.Ws.Connection.{
  Body, Line, Task, Turn, idle, takes, puts, gives_up, announces, write, close_with, go_on,
  action_accepted, win_update, ping,
}

abbrev pub close_normal_closure : ℕ
close_normal_closure = 1000

abbrev pub close_expected_hello : ℕ
close_expected_hello = 4001

abbrev pub close_invalid_hello : ℕ
close_invalid_hello = 4002

abbrev pub close_run_id_mismatch : ℕ
close_run_id_mismatch = 4003

abbrev pub close_unauthorized : ℕ
close_unauthorized = 4004

abbrev pub close_bad_message : ℕ
close_bad_message = 4006

abbrev pub close_bad_apply_action : ℕ
close_bad_apply_action = 4007

abbrev pub close_internal : ℕ
close_internal = 4010

-- Which of the loops are running: the reader, the streams of deltas and wins, and the heartbeat. The
-- reader and the stream of deltas may be in the middle of a `writeDelta`.
pub record Session (P : Type 0) : Type 0 where
  pub line : Line P
  pub reading : Bool
  pub streaming_deltas : Bool
  pub streaming_wins : Bool
  pub beating : Bool
  pub heartbeat : Heartbeat
  pub last_ping_at : ℕ
  pub reader : Task P
  pub streamer : Task P

abbrev pub closing : {P : Type 0} → ℕ → String → Session P → Session P
closing code reason s = record s {
  line = record s.line { writer = close_with s.line.writer code reason };
}

-- `handleConnection` returns: its deferred calls stop the loops and close the connection.
unfoldable pub finish : {P : Type 0} → Session P → Session P
unfolding close_with
finish s = record (closing close_normal_closure "closing" s) {
  reading = false;
  reader = idle;
  streaming_deltas = false;
  streaming_wins = false;
  beating = false;
}

abbrev pub fail : {P : Type 0} → ℕ → String → Session P → Session P
fail code reason s = finish (closing code reason s)

-- A write, with whether it succeeded.
abbrev pub written : {P : Type 0} → Session P → Envelope (Body P) → Bool × Session P
written s env =
    let (done, writer) = write s.line.writer env in
    (done, record s { line = record s.line { writer = writer } })

-- What the outside does: the client, the runtime and the clock.
pub data Event (P : Type 0) : Type 0 where
  received : Envelope P → Result (Unit {0}) (ApplyActionResult P) → Event P
  read_failed deltas_end wins_end heartbeat_ticks reader_goes_on streamer_goes_on : Event P
  delta_arrives : Delta P → Event P
  win_arrives : Option P → Event P

-- An action that the runtime took: the answer goes out, and its delta is next.
unfoldable pub accept : {P : Type 0} → String → ApplyActionResult P → Session P → Session P
unfolding write finish
accept action_key out s =
    let (done, s') = written s (action_accepted action_key out.seq) in
    if done
    then record s' {
      reader = takes (record { seq = out.seq; payload = out.delta }) out.win_payload;
    }
    else finish s'

unfoldable pub on_action :
    {P : Type 0}
    → String
    → Envelope P
    → Result (Unit {0}) (ApplyActionResult P)
    → Result WsError ApplyActionPayload
    → Session P
    → Session P
unfolding accept
on_action run_id env answer (err e) s = fail close_bad_apply_action "invalid action" s
on_action run_id env answer (ok input) s =
    if not (str_eq env.run_id run_id)
    then fail close_run_id_mismatch "runId mismatch" s
    else elim answer [
      | err _ ↦ fail close_internal "apply action failed" s
      | ok out ↦ accept input.action_key out s
    ]

-- A turn of the reader's loop.
unfoldable pub on_message :
    {P : Type 0} ⦃codec : Codec P⦄
    → ℕ
    → String
    → Envelope P
    → Result (Unit {0}) (ApplyActionResult P)
    → Session P
    → Session P
unfolding on_action record_pong validate_and_decode_apply_action
on_message now run_id env answer s =
    if str_eq env.msg_type type_pong
    then record s { heartbeat = record_pong now s.heartbeat }
    else if str_eq env.msg_type type_apply_action
    then on_action run_id env answer (validate_and_decode_apply_action env) s
    else fail close_bad_message "unsupported message" s

-- The reader in the middle of a `writeDelta`, which ends the connection where it fails.
abbrev pub reader_after : {P : Type 0} → Turn P → Session P → Session P
reader_after (task, is_ok, line) s =
    let s' = record s { line = line; reader = task } in if is_ok then s' else finish s'

-- The stream of deltas in the middle of a `writeDelta`, which ends the stream where it fails.
abbrev pub streamer_after : {P : Type 0} → Turn P → Session P → Session P
streamer_after (task, is_ok, line) s = record s {
  line = line;
  streamer = task;
  streaming_deltas = if is_ok then s.streaming_deltas else false;
}

abbrev pub is_idle : {P : Type 0} → Task P → Bool
is_idle idle = true
is_idle (takes delta win) = false
is_idle (puts delta win) = false
is_idle (gives_up reason) = false
is_idle (announces payload) = false

-- A turn of `streamRuntimeWinUpdates`.
unfoldable pub on_win : {P : Type 0} → Option P → Session P → Session P
unfolding write
on_win none s = s
on_win (some payload) s =
    let (done, s') = written s (win_update payload) in record s' { streaming_wins = done }

-- A turn of `runHeartbeat`.
unfoldable pub on_heartbeat : {P : Type 0} → ℕ → Session P → Session P
unfolding write close_with heartbeat_timed_out ping_due
on_heartbeat now s =
    let (done, s') = written s ping in
    if heartbeat_timed_out now s.heartbeat
    then record (closing close_bad_message "pong timeout" s) { beating = false }
    else if ping_due now s.heartbeat s.last_ping_at
    then (if done then record s' { last_ping_at = now } else record s' { beating = false })
    else s

-- An event for a loop that has stopped, or is in the middle of a `writeDelta`, does nothing.
unfoldable pub step : {P : Type 0} ⦃codec : Codec P⦄ → String → ℕ → Event P → Session P → Session P
unfolding on_message on_win on_heartbeat go_on finish
step run_id now (received env answer) s =
    if s.reading && is_idle s.reader then on_message now run_id env answer s else s
step run_id now read_failed s = if s.reading && is_idle s.reader then finish s else s
step run_id now (delta_arrives d) s =
    if s.streaming_deltas && is_idle s.streamer then record s { streamer = takes d none } else s
step run_id now deltas_end s = record s { streaming_deltas = false }
step run_id now (win_arrives w) s = if s.streaming_wins then on_win w s else s
step run_id now wins_end s = record s { streaming_wins = false }
step run_id now heartbeat_ticks s = if s.beating then on_heartbeat now s else s
step run_id now reader_goes_on s = reader_after (go_on s.reader s.line) s
step run_id now streamer_goes_on s = streamer_after (go_on s.streamer s.line) s

-- A run of events, each with its time.
unfoldable pub steps :
    {P : Type 0} ⦃codec : Codec P⦄ → String → List (ℕ × Event P) → Session P → Session P
unfolding step
steps run_id [] s = s
steps run_id ((now, e) ∷ es) s = steps run_id es (step run_id now e s)
