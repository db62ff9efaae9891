-- ===== src/Ws/Handshake.antt =====
-- The opening of `handleConnection` in internal/engine/a/transport/ws_handler.go: the hello message,
-- the snapshot or the missed deltas, and the subscriptions.
use mathlib.Core.Bool.{not}
use sys_escape.Prelude.{
  ℕ, Bool, true, false, List, [], ◌∷◌, Option, none, some, String, if◌then◌else◌, Result, ok, err,
  or_else,
}
use sys_escape.Prelude.Int.{ℤ, pos, leb_ℤ}
use sys_escape.Prelude.Text.{str_eq}
use sys_escape.Ws.Messages.{
  Delta, Envelope, HelloPayload, ConnectResult, type_hello, type_snapshot, type_delta,
}
use sys_escape.Ws.Protocol.{Codec, WsError, validate_and_decode_hello}
use sys_escape.Ws.Heartbeat.{new_heartbeat}
use sys_escape.Ws.Connection.{
  idle, write, close_with, advance, with_delta, hello_ack, close_seq_gap,
}
use sys_escape.Ws.Session.{
  Session, closing, finish, fail, written, close_expected_hello, close_invalid_hello,
  close_run_id_mismatch, close_unauthorized, close_bad_message, close_internal,
}

-- What the connection is opened with: the run's id as text, the token check, the settings of the
-- heartbeat, and the runtime. `win_subscription` is `none` for a runtime without win updates.
pub record Setup (P : Type 0) : Type 0 where
  pub run_id : String
  pub token_holds : String → Bool
  pub ping_interval : ℤ
  pub pong_timeout : ℤ
  pub now : ℕ
  pub connects : Option ℤ → Result (Unit {0}) (ConnectResult P)
  pub subscribes : Bool
  pub win_subscription : Option Bool
  pub accepts : ℕ → Bool

unfoldable pub new_session : {P : Type 0} → Setup P → Session P
new_session setup = record {
  line = record {
    writer = record { closed = false; wire = []; accepts = setup.accepts };
    last = pos 0;
  };
  reading = true;
  streaming_deltas = false;
  streaming_wins = false;
  beating = false;
  heartbeat = record { ping_interval = 0; pong_timeout = 0; last_pong_at = 0 };
  last_ping_at = 0;
  reader = idle;
  streamer = idle;
}

abbrev pub set_last : {P : Type 0} → ℤ → Session P → Session P
set_last n s = record s { line = record s.line { last = n } }

-- The deltas that the client missed. The flag says whether to go on.
unfoldable pub send_backlog : {P : Type 0} → List (Delta P) → Session P → Bool × Session P
unfolding advance write close_with
send_backlog [] s = (true, s)
send_backlog (d ∷ ds) s =
    let (a, last) = advance s.line.last d.seq in
    let (done, s') = written (set_last last s) (with_delta type_delta d) in
    let skipped = send_backlog ds (set_last last s) in
    let sent = send_backlog ds s' in
    if a.gap
    then (false, closing close_seq_gap "resume sequence gap" s)
    else if not a.send
    then skipped
    else if done
    then sent
    else (false, s')

-- The snapshot, or the deltas from the number that the client named.
unfoldable pub greet : {P : Type 0} → ConnectResult P → Option ℤ → Session P → Bool × Session P
unfolding send_backlog write close_with
greet c resume_from_seq s =
    let (done, s') = written s (with_delta type_snapshot c.snapshot) in
    if not c.snapshot_required
    then send_backlog c.deltas (set_last (or_else resume_from_seq (pos 0)) s)
    else if leb_ℤ c.snapshot.seq (pos 0)
    then (false, closing close_seq_gap "invalid snapshot sequence" s)
    else if done
    then (true, set_last c.snapshot.seq s')
    else (false, s')

unfoldable pub start_loops : {P : Type 0} → Setup P → Bool → Session P → Session P
unfolding new_heartbeat
start_loops setup wins s = record s {
  streaming_deltas = true;
  streaming_wins = wins;
  beating = true;
  heartbeat = new_heartbeat setup.now setup.ping_interval setup.pong_timeout;
  last_ping_at = setup.now;
}

unfoldable pub subscribe : {P : Type 0} → Setup P → Session P → Session P
unfolding start_loops finish
subscribe setup s =
    if not setup.subscribes
    then fail close_internal "subscribe failed" s
    else elim setup.win_subscription [
      | none ↦ start_loops setup false s
      | some subscribed ↦
          if subscribed
          then start_loops setup true s
          else fail close_internal "subscribe win updates failed" s
    ]

unfoldable pub send_greeting :
    {P : Type 0} → Setup P → ConnectResult P → Option ℤ → Session P → Session P
unfolding greet subscribe finish
send_greeting setup c resume_from_seq s =
    let (go_on, s') = greet c resume_from_seq s in if go_on then subscribe setup s' else finish s'

-- A client whose hello and token hold.
unfoldable pub admit : {P : Type 0} → Setup P → HelloPayload → Session P → Session P
unfolding send_greeting finish write
admit setup hello s = elim (setup.connects hello.resume_from_seq) [
  | err _ ↦ fail close_internal "connect failed" s
  | ok c ↦
      let (done, s') = written s (hello_ack c.snapshot_required) in
      if done then send_greeting setup c hello.resume_from_seq s' else finish s'
]

unfoldable pub check_hello :
    {P : Type 0} → Setup P → Envelope P → Result WsError HelloPayload → Session P → Session P
unfolding admit finish
check_hello setup env (err e) s = fail close_invalid_hello "invalid hello" s
check_hello setup env (ok hello) s =
    if not (str_eq env.run_id setup.run_id)
    then fail close_run_id_mismatch "runId mismatch" s
    else if not (setup.token_holds hello.run_token)
    then fail close_unauthorized "unauthorized" s
    else admit setup hello s

-- The first message is `none` where it cannot be read or decoded.
unfoldable pub open_session :
    {P : Type 0} ⦃codec : Codec P⦄ → Setup P → Option (Envelope P) → Session P
unfolding new_session check_hello validate_and_decode_hello finish
open_session setup none = fail close_bad_message "invalid first message" (new_session setup)
open_session setup (some env) =
    if not (str_eq env.msg_type type_hello)
    then fail close_expected_hello "expected hello" (new_session setup)
    else check_hello setup env (validate_and_decode_hello env) (new_session setup)
