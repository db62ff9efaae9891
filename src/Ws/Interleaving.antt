-- ===== src/Ws/Interleaving.antt =====
-- A whole connection of internal/engine/a/transport/ws_handler.go, with the steps of its goroutines in
-- any order.
use mathlib.Core.Bool.{◌&&◌}
use sys_escape.Prelude.{
  ℕ, ◌≡◌, refl, sym, ap, ◌⊎◌, inl, inr, Bool, true, false, List, [], ◌∷◌, Option, none, some,
  String, if◌then◌else◌, Result, ok, err, arith,
}
use sys_escape.Prelude.Text.{str_eq}
use sys_escape.Prelude.Int.{ℤ}
use sys_escape.Ws.Messages.{
  Envelope, HelloPayload, ConnectResult, ApplyActionPayload, ApplyActionResult, type_pong,
  type_apply_action,
}
use sys_escape.Ws.Protocol.{
  Codec, WsError, validate_and_decode_hello, validate_and_decode_apply_action,
}
use sys_escape.Ws.Heartbeat.{record_pong, heartbeat_timed_out, ping_due}
use sys_escape.Ws.Connection.{
  Body, Task, Turn, idle, takes, puts, gives_up, announces, text, win_update, ping, action_accepted,
  go_on,
}
use sys_escape.Ws.Session.{
  Session, Event, received, read_failed, deltas_end, wins_end, heartbeat_ticks, delta_arrives,
  win_arrives, reader_goes_on, streamer_goes_on, reader_after, streamer_after, is_idle, closing,
  finish, fail, written, accept, on_action, on_message, on_win, on_heartbeat, step, steps,
  close_bad_message,
}
use sys_escape.Ws.Handshake.{Setup, open_session}
use sys_escape.Ws.InOrder.{delta_seq, delta_seqs}
use sys_escape.Ws.Order.{Orderly, if_both}
use sys_escape.Ws.Opening.{opened_base, open_session-Orderly}
use sys_escape.Ws.Once.{Once, in_hand, Once-swap, Once-still, Once-written, Once-closed, go_on-Once}

module _ {P : Type 0} (base : ℤ) where
  -- What the two goroutines have done with the deltas so far.
  abbrev pub Kept : Session P → Type 0
  Kept s = Once base s.line s.reader s.streamer

  Orderly-Kept : (s : Session P) → Orderly base s → Kept s
  Orderly-Kept s v =
      rw (v.no_reader, v.no_streamer)
        (record {
          reserved = delta_seqs s.line.writer.wire;
          end = v.in_order.on_wire;
          counts = v.in_order.counts;
          at_most = λ n. omega arith;
          all_there = elim v.in_order.current [
            | inl same ↦ inr (same, λ n. omega arith)
            | inr dead ↦ inl dead
          ];
        })

  closing-Kept :
      (code : ℕ) (reason : String) (s : Session P) → Kept s → Kept (closing code reason s)
  closing-Kept code reason s v =
      Once-closed base s.line s.reader s.reader s.streamer s.streamer code reason v

  finish-Kept : (s : Session P) → Kept s → Kept (finish s)
  unfolding finish
  finish-Kept s v = Once-closed base s.line s.reader idle s.streamer s.streamer _ _ v

  fail-Kept : (code : ℕ) (reason : String) (s : Session P) → Kept s → Kept (fail code reason s)
  fail-Kept code reason s v = finish-Kept (closing code reason s) (closing-Kept code reason s v)

  written-Kept :
      (s : Session P) (env : Envelope (Body P))
      → delta_seq (text env) ≡ none
      → Kept s
      → Kept (written s env).1
  written-Kept s env p v = Once-written base s.line s.reader s.streamer env p v

  accept-Kept :
      (key : String) (out : ApplyActionResult P) (s : Session P)
      → s.reader ≡ idle
      → Kept s
      → Kept (accept key out s)
  unfolding accept
  accept-Kept key out s free v =
      let (done, s') = written s (action_accepted key out.seq) in
      let k = written-Kept s (action_accepted key out.seq) refl v in
      let next = takes (record { seq = out.seq; payload = out.delta }) out.win_payload in
      if_both Kept done (record s' { reader = next }) (finish s')
        (Once-still base s'.line s'.line s'.reader next s'.streamer refl refl (λ d. d)
          (λ n. sym (ap (in_hand n) free)) k)
        (finish-Kept s' k)

  on_action-Kept :
      (run_id : String) (env : Envelope P) (answer : Result (Unit {0}) (ApplyActionResult P))
      (input : Result WsError ApplyActionPayload) (s : Session P)
      → s.reader ≡ idle
      → Kept s
      → Kept (on_action run_id env answer input s)
  unfolding on_action
  on_action-Kept run_id env answer (err e) s free v = fail-Kept _ _ s v
  on_action-Kept run_id env (err e) (ok input) s free v =
      if_both Kept _ _ _ (fail-Kept _ _ s v) (fail-Kept _ _ s v)
  on_action-Kept run_id env (ok out) (ok input) s free v =
      if_both Kept _ _ _ (fail-Kept _ _ s v) (accept-Kept input.action_key out s free v)

  on_win-Kept : (w : Option P) (s : Session P) → Kept s → Kept (on_win w s)
  unfolding on_win
  on_win-Kept none s v = v
  on_win-Kept (some payload) s v = written-Kept s (win_update payload) refl v

  on_heartbeat-Kept : (now : ℕ) (s : Session P) → Kept s → Kept (on_heartbeat now s)
  unfolding on_heartbeat
  on_heartbeat-Kept now s v =
      let (done, s') = written s ping in
      let k = written-Kept s ping refl v in
      let timed_out : Session P = record (closing close_bad_message "pong timeout" s) {
        beating = false;
      } in
      let pinged : Session P = record s' { last_ping_at = now } in
      let lost : Session P = record s' { beating = false } in
      if_both Kept (heartbeat_timed_out now s.heartbeat) timed_out
        (if ping_due now s.heartbeat s.last_ping_at then (if done then pinged else lost) else s)
        (closing-Kept _ _ s v)
        (if_both Kept (ping_due now s.heartbeat s.last_ping_at) (if done then pinged else lost) s
          (if_both Kept done pinged lost k k) v)

  reader_after-Kept :
      (r : Turn P) (s : Session P) → Once base r.2 r.0 s.streamer → Kept (reader_after r s)
  reader_after-Kept (task, is_ok, line) s v =
      let s' : Session P = record s { line = line; reader = task } in
      if_both Kept is_ok s' (finish s') v (finish-Kept s' v)

  streamer_after-Kept :
      (r : Turn P) (s : Session P) → Once base r.2 s.reader r.0 → Kept (streamer_after r s)
  streamer_after-Kept (task, is_ok, line) s v = v

  pub free-cases : (b : Bool) (t : Task P) → ((b && is_idle t) ≡ false) ⊎ (t ≡ idle)
  free-cases false t = inl refl
  free-cases true idle = inr refl
  free-cases true (takes d w) = inl refl
  free-cases true (puts d w) = inl refl
  free-cases true (gives_up reason) = inl refl
  free-cases true (announces payload) = inl refl

  -- A step that is taken only where a goroutine is free.
  if_free :
      (b : Bool) (t : Task P) (x y : Session P)
      → (t ≡ idle → Kept x)
      → Kept y
      → Kept (if b && is_idle t then x else y)
  if_free b t x y h k = elim (free-cases b t) [
    | inl busy ↦ rw busy k
    | inr free ↦ if_both Kept (b && is_idle t) x y (h free) k
  ]

  module _ ⦃codec : Codec P⦄ where
    on_message-Kept :
        (now : ℕ) (run_id : String) (env : Envelope P)
        (answer : Result (Unit {0}) (ApplyActionResult P)) (s : Session P)
        → s.reader ≡ idle
        → Kept s
        → Kept (on_message now run_id env answer s)
    unfolding on_message
    on_message-Kept now run_id env answer s free v =
        let acted = on_action run_id env answer (validate_and_decode_apply_action env) s in
        let failed = fail close_bad_message "unsupported message" s in
        let ponged : Session P = record s { heartbeat = record_pong now s.heartbeat } in
        if_both Kept (str_eq env.msg_type type_pong) ponged
          (if str_eq env.msg_type type_apply_action then acted else failed) v
          (if_both Kept (str_eq env.msg_type type_apply_action) acted failed
            (on_action-Kept run_id env answer (validate_and_decode_apply_action env) s free v)
            (fail-Kept _ _ s v))

    step-Kept :
        (run_id : String) (now : ℕ) (e : Event P) (s : Session P)
        → Kept s
        → Kept (step run_id now e s)
    unfolding step
    step-Kept run_id now (received env answer) s v =
        if_free s.reading s.reader _ _ (λ free. on_message-Kept now run_id env answer s free v) v
    step-Kept run_id now read_failed s v =
        if_free s.reading s.reader _ _ (λ free. finish-Kept s v) v
    step-Kept run_id now (delta_arrives d) s v =
        if_free s.streaming_deltas s.streamer _ _
          (λ free. Once-swap base s.line (takes d none) s.reader (
            Once-still base s.line s.line s.streamer (takes d none) s.reader refl refl (λ h. h)
              (λ n. sym (ap (in_hand n) free)) (Once-swap base s.line s.reader s.streamer v)))
          v
    step-Kept run_id now deltas_end s v = v
    step-Kept run_id now (win_arrives w) s v =
        if_both Kept s.streaming_wins _ _ (on_win-Kept w s v) v
    step-Kept run_id now wins_end s v = v
    step-Kept run_id now heartbeat_ticks s v =
        if_both Kept s.beating _ _ (on_heartbeat-Kept now s v) v
    step-Kept run_id now reader_goes_on s v =
        reader_after-Kept (go_on s.reader s.line) s (go_on-Once base s.line s.reader s.streamer v)
    step-Kept run_id now streamer_goes_on s v = streamer_after-Kept (go_on s.streamer s.line) s (
        Once-swap base (go_on s.streamer s.line).2 (go_on s.streamer s.line).0 s.reader (
          go_on-Once base s.line s.streamer s.reader (Once-swap base s.line s.reader s.streamer v)))

    steps-Kept :
        (run_id : String) (es : List (ℕ × Event P)) (s : Session P)
        → Kept s
        → Kept (steps run_id es s)
    unfolding steps
    steps-Kept run_id [] s v = v
    steps-Kept run_id ((now, e) ∷ es) s v =
        steps-Kept run_id es (step run_id now e s) (step-Kept run_id now e s v)

-- No delta of a run goes out twice, none that the client should not get, and none is lost on a line that
-- still works. For any first message that decodes as a hello, any snapshot or backlog that the runtime's
-- Connect returns, and any later interleaving of the goroutines' steps, the tracker has let out the numbers
-- base + 1, base + 2 and so on, where base is the number of the snapshot or, where none is required, the
-- number from which the client resumes. Each is on the wire at most once, nothing else is, and while the
-- connection is open and takes frames, each is there once or in the hand of a goroutine that is about to
-- write it. In which order they go out is not said.
pub steps-Once :
    {P : Type 0} ⦃codec : Codec P⦄ (setup : Setup P) (env : Envelope P) (hello : HelloPayload)
    (c : ConnectResult P) (es : List (ℕ × Event P))
    → validate_and_decode_hello env ≡ ok hello
    → setup.connects hello.resume_from_seq ≡ ok c
    → Kept
        (opened_base c hello.resume_from_seq)
        (steps setup.run_id es (open_session setup (some env)))
steps-Once setup env hello c es h p =
    let base = opened_base c hello.resume_from_seq in
    steps-Kept base setup.run_id es (open_session setup (some env)) (
      Orderly-Kept base (open_session setup (some env))
        (open_session-Orderly setup env hello c h p))
