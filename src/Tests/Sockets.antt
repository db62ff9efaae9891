-- ===== src/Tests/Sockets.antt =====
-- A connection that gets a snapshot and two deltas, and a buffer of deltas (internal/ws).
use sys_escape.Prelude.{ℕ, ◌≡◌, refl, true, List, [], ◌∷◌, none, some, String, ok, err, err}
use sys_escape.Prelude.Int.{ℤ, pos, ◌-ℤ◌}
use sys_escape.Prelude.Text.{is_blank, trim_space}
use sys_escape.Ws.Messages.{Delta, Envelope, ConnectResult}
use sys_escape.Ws.Protocol.{
  Codec, validate_and_decode_hello, decode_hello_payload, validate_and_decode_apply_action,
  decode_apply_action_payload,
}
use sys_escape.Ws.ResumeBuffer.{new_resume_buffer, add, start_from, resume_from, ResumeBuffer}
use sys_escape.Ws.Resume.{add_all, after, resume_from-after}
use sys_escape.Ws.Connection.{advance, write, close_with, take_delta, put_delta, go_on}
use sys_escape.Ws.Heartbeat.{new_heartbeat, record_pong, heartbeat_timed_out, ping_due}
use sys_escape.Ws.Session.{
  Event, received, delta_arrives, heartbeat_ticks, read_failed, reader_goes_on, streamer_goes_on,
  finish, accept, on_action, on_message, on_win, on_heartbeat, step, steps,
}
use sys_escape.Ws.Handshake.{
  Setup, new_session, send_backlog, greet, start_loops, subscribe, send_greeting, admit,
  check_hello, open_session,
}
use sys_escape.Ws.InOrder.{Counts, delta_seqs}
use sys_escape.Ws.Active.{
  Hub, comes, goes, IsCounted, changes, register_active, register_active-counts,
}
use sys_escape.Ws.Watching.{steps-Counts}
use sys_escape.Ws.Interleaving.{Kept, steps-Once}

abbrev delta : ℤ → Delta String
delta n = record { seq = n; payload = "state" }

abbrev history : List (Delta String)
history = delta (pos 3) ∷ delta (pos 4) ∷ delta (pos 5) ∷ []

abbrev small_buffer : ResumeBuffer String
small_buffer = record { cap = 2; items = delta (pos 4) ∷ delta (pos 5) ∷ []; last_seq = pos 5 }

filled : add_all (new_resume_buffer (pos 2)) history ≡ ok small_buffer
unfolding add_all new_resume_buffer add
filled = refl

resume_from-after_example :
    ◌≡◌ {A = List (Delta String)} (delta (pos 5) ∷ []) (after (pos 4) history)
unfolding resume_from start_from ◌-ℤ◌
resume_from-after_example =
    resume_from-after (pos 2) history small_buffer (pos 4) (delta (pos 5) ∷ []) filled refl

-- A payload is its text, and a hello's text is its token.
text_codec : Codec String
text_codec = record {
  envelope_of = λ text. none;
  hello_of = λ text. some (record { run_token = text; resume_from_seq = none });
  apply_action_of =
      λ text. some (record { action_key = text; client_request_id = "r1"; expected_seq = pos 0 });
  uuid_version = λ text. some 4;
}

abbrev greeting : ConnectResult String
greeting = record { snapshot_required = true; snapshot = delta (pos 5); deltas = [] }

abbrev setup : Setup String
setup = record {
  run_id = "run";
  token_holds = λ token. true;
  ping_interval = pos 0;
  pong_timeout = pos 0;
  now = 1;
  connects = λ from. ok greeting;
  subscribes = true;
  win_subscription = some true;
  accepts = λ n. true;
}

abbrev hello_envelope : Envelope String
hello_envelope = record {
  protocol_version = pos 1;
  msg_type = "hello";
  run_id = "run";
  seq = none;
  payload = "token";
}

abbrev action_envelope : Envelope String
action_envelope = record {
  protocol_version = pos 1;
  msg_type = "apply_action";
  run_id = "run";
  seq = none;
  payload = "enable_cache";
}

-- An action makes delta 6. The reader gets that number from `advance`, and before it writes, the stream
-- of deltas skips its own delta 6 and writes delta 7.
abbrev events : List (ℕ × Event String)
events =
    (2, received action_envelope (ok (record { seq = pos 6; delta = "state"; win_payload = none })))
    ∷ (3, reader_goes_on)
    ∷ (4, delta_arrives (delta (pos 6)))
    ∷ (5, streamer_goes_on)
    ∷ (6, heartbeat_ticks)
    ∷ (7, delta_arrives (delta (pos 7)))
    ∷ (8, streamer_goes_on)
    ∷ (9, streamer_goes_on)
    ∷ (10, reader_goes_on)
    ∷ (11, read_failed)
    ∷ []

-- All that a connection computes with.
connection : Unit {0}
unfolding validate_and_decode_hello decode_hello_payload validate_and_decode_apply_action
    decode_apply_action_payload is_blank trim_space advance write close_with take_delta put_delta
    go_on new_heartbeat record_pong heartbeat_timed_out ping_due finish accept on_action on_message
    on_win on_heartbeat step steps new_session send_backlog greet start_loops subscribe
    send_greeting admit check_hello open_session text_codec
connection = tt

-- The two deltas are on the wire in the wrong order.
out_of_order_test :
    delta_seqs
      (steps ⦃codec = text_codec⦄ "run" events
        (open_session ⦃codec = text_codec⦄ setup (some hello_envelope))).line.writer.wire
    ≡ pos 7 ∷ pos 6 ∷ []
unfolding connection
out_of_order_test = refl

steps-Once_example : Kept (pos 5) (
    steps ⦃codec = text_codec⦄ "run" events
      (open_session ⦃codec = text_codec⦄ setup (some hello_envelope)))
unfolding validate_and_decode_hello decode_hello_payload is_blank trim_space text_codec
steps-Once_example =
    steps-Once ⦃codec = text_codec⦄ setup hello_envelope
      (record { run_token = "token"; resume_from_seq = none }) greeting events refl refl

abbrev watched : List (ℕ × Event String)
watched =
    (2, delta_arrives (delta (pos 6)))
    ∷ (3, streamer_goes_on)
    ∷ (4, heartbeat_ticks)
    ∷ (5, streamer_goes_on)
    ∷ (6, delta_arrives (delta (pos 7)))
    ∷ (7, streamer_goes_on)
    ∷ (8, received (record action_envelope { msg_type = "pong" }) (err tt))
    ∷ (9, streamer_goes_on)
    ∷ (10, read_failed)
    ∷ []

watched_test :
    delta_seqs
      (steps ⦃codec = text_codec⦄ "run" watched
        (open_session ⦃codec = text_codec⦄ setup (some hello_envelope))).line.writer.wire
    ≡ pos 6 ∷ pos 7 ∷ []
unfolding connection
watched_test = refl

steps-Counts_example :
    (last : ℤ) × Counts (pos 5) last (
      delta_seqs
        (steps ⦃codec = text_codec⦄ "run" watched
          (open_session ⦃codec = text_codec⦄ setup (some hello_envelope))).line.writer.wire)
unfolding validate_and_decode_hello decode_hello_payload is_blank trim_space text_codec
steps-Counts_example =
    steps-Counts ⦃codec = text_codec⦄ setup hello_envelope
      (record { run_token = "token"; resume_from_seq = none }) greeting watched refl refl
      (tt, (tt, (tt, (tt, (tt, (tt, (refl, (tt, (tt, tt)))))))))

abbrev empty_hub : Hub
empty_hub = record { active = []; replaced = [] }

-- Connection 1 is replaced by connection 2; both are of run 7.
register_active-counts_example :
    IsCounted 7 1 (changes (comes 7 2 ∷ goes 7 2 ∷ []) (register_active 7 1 empty_hub))
register_active-counts_example =
    register_active-counts 7 1 (comes 7 2 ∷ goes 7 2 ∷ []) empty_hub (tt, (refl, tt))
