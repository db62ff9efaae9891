-- ===== src/Ws/Connection.antt =====
-- `connWriter`, `seqTracker` and `writeDelta` of internal/engine/a/transport/ws_handler.go. The mutex of
-- the writer makes each of `write` and `closeWith` one step, and that of the tracker `advance`;
-- `writeDelta` takes them one after the other, so that it is several steps, and a `Task` says which one a
-- goroutine takes next. `accepts n` says whether the network takes the frame that would be the n-th on
-- the wire.
use sys_escape.Prelude.{
  ℕ, Bool, true, false, List, [], ◌∷◌, ◌++◌, length, Option, none, some, String, if◌then◌else◌,
}
use sys_escape.Prelude.Int.{ℤ, pos, ltb_ℤ, leb_ℤ, ◌+ℤ◌}
use sys_escape.Ws.Messages.{
  Delta, Envelope, HelloAckPayload, ActionAcceptedPayload, type_hello_ack, type_action_accepted,
  type_win_update, type_ping, type_delta,
}

-- What an envelope to the client carries.
pub data Body (P : Type 0) : Type 0 where
  no_body : Body P
  hello_ack_body : HelloAckPayload → Body P
  action_accepted_body : ActionAcceptedPayload → Body P
  raw : P → Body P

pub data Frame (P : Type 0) : Type 0 where
  text : Envelope (Body P) → Frame P
  close_frame : ℕ → String → Frame P

pub record ConnWriter (P : Type 0) : Type 0 where
  pub closed : Bool
  pub wire : List (Frame P)
  pub accepts : ℕ → Bool

abbrev pub envelope : {P : Type 0} → String → Option ℤ → Body P → Envelope (Body P)
envelope msg_type seq payload = record {
  protocol_version = pos 0;
  msg_type = msg_type;
  run_id = "";
  seq = seq;
  payload = payload;
}

abbrev pub with_delta : {P : Type 0} → String → Delta P → Envelope (Body P)
with_delta msg_type delta = envelope msg_type (some delta.seq) (raw delta.payload)

abbrev pub hello_ack : {P : Type 0} → Bool → Envelope (Body P)
hello_ack snapshot_required =
    envelope type_hello_ack none (hello_ack_body (record { snapshot_required = snapshot_required }))

abbrev pub action_accepted : {P : Type 0} → String → ℤ → Envelope (Body P)
action_accepted action_key seq =
    envelope type_action_accepted none
      (action_accepted_body (record { action_key = action_key; seq = seq }))

abbrev pub win_update : {P : Type 0} → P → Envelope (Body P)
win_update payload = envelope type_win_update none (raw payload)

abbrev pub ping : {P : Type 0} → Envelope (Body P)
ping = envelope type_ping none no_body

-- Whether the write succeeded, and the connection after it.
unfoldable pub write : {P : Type 0} → ConnWriter P → Envelope (Body P) → Bool × ConnWriter P
write w env =
    if w.closed
    then (false, w)
    else if w.accepts (length w.wire)
    then (true, record w { wire = w.wire ++ text env ∷ [] })
    else (false, w)

-- The code ignores an error of the close frame.
unfoldable pub close_with : {P : Type 0} → ConnWriter P → ℕ → String → ConnWriter P
close_with w code reason = if w.closed then w else record w {
  closed = true;
  wire = if w.accepts (length w.wire) then w.wire ++ close_frame code reason ∷ [] else w.wire;
}

-- What `advance` returns.
pub record Advance : Type 0 where
  pub send : Bool
  pub gap : Bool

unfoldable pub advance : ℤ → ℤ → Advance × ℤ
unfolding ◌+ℤ◌
advance last seq =
    if leb_ℤ seq last
    then (record { send = false; gap = false }, last)
    else if ltb_ℤ (last +ℤ pos 1) seq
    then (record { send = false; gap = true }, last)
    else (record { send = true; gap = false }, seq)

-- A connection and the last number that went out on it.
pub record Line (P : Type 0) : Type 0 where
  pub writer : ConnWriter P
  pub last : ℤ

abbrev pub close_seq_gap : ℕ
close_seq_gap = 4005

-- What a goroutine in `writeDelta` does next: it calls `advance`, `write` or `closeWith`. The reader has
-- the win update at hand that it announces after a delta that it sent.
pub data Task (P : Type 0) : Type 0 where
  idle : Task P
  takes puts : Delta P → Option P → Task P
  gives_up : String → Task P
  announces : P → Task P

abbrev pub after_sent : {P : Type 0} → Option P → Task P
after_sent none = idle
after_sent (some payload) = announces payload

-- The task that is left, whether it goes well so far, and the line.
abbrev pub Turn : Type 0 → Type 0
Turn P = Task P × Bool × Line P

-- Up to the call of `advance`.
unfoldable pub take_delta : {P : Type 0} → Line P → Delta P → Option P → Turn P
unfolding advance
take_delta l delta win =
    if leb_ℤ delta.seq (pos 0)
    then (gives_up "invalid sequence", true, l)
    else let (a, last) = advance l.last delta.seq in
      if a.gap
      then (gives_up "sequence gap", true, record l { last = last })
      else if a.send
      then (puts delta win, true, record l { last = last })
      else (idle, true, record l { last = last })

unfoldable pub put_delta : {P : Type 0} → Line P → Delta P → Option P → Turn P
unfolding write
put_delta l delta win =
    let (done, writer) = write l.writer (with_delta type_delta delta) in
    (if done then after_sent win else idle, done, record l { writer = writer })

-- The next step of `writeDelta`, or the reader's win update after it.
unfoldable pub go_on : {P : Type 0} → Task P → Line P → Turn P
unfolding take_delta put_delta close_with write
go_on idle l = (idle, true, l)
go_on (takes delta win) l = take_delta l delta win
go_on (puts delta win) l = put_delta l delta win
go_on (gives_up reason) l =
    (idle, false, record l { writer = close_with l.writer close_seq_gap reason })
go_on (announces payload) l =
    let (done, writer) = write l.writer (win_update payload) in
    (idle, done, record l { writer = writer })
