-- ===== src/Ws/Watching.antt =====
-- The deltas of a client of internal/engine/a/transport/ws_handler.go that sends no actions: only the
-- stream writes them, so they keep their order.
use mathlib.Core.Bool.{◌&&◌}
use sys_escape.Prelude.{
  ℕ, ◌≡◌, refl, sym, ap, ◌∙◌, ◌⊎◌, inl, inr, subst, false, List, [], ◌∷◌, Option, none, some,
  String, if◌then◌else◌, Result, ok, arith, Bool-cases, All,
}
use sys_escape.Prelude.Text.{str_eq}
use sys_escape.Prelude.Int.{ℤ, pos, ◌+ℤ◌, leb_ℤ}
use sys_escape.Ws.Messages.{
  Delta, Envelope, HelloPayload, ConnectResult, ApplyActionResult, type_pong, type_apply_action,
  type_delta,
}
use sys_escape.Ws.Protocol.{Codec, validate_and_decode_hello}
use sys_escape.Ws.Heartbeat.{record_pong, heartbeat_timed_out, ping_due}
use sys_escape.Ws.Connection.{
  Body, Line, Task, idle, takes, puts, gives_up, announces, after_sent, text, write, close_with,
  with_delta, win_update, ping, close_seq_gap, take_delta, put_delta, go_on,
}
use sys_escape.Ws.Session.{
  Session, Event, received, read_failed, deltas_end, wins_end, heartbeat_ticks, delta_arrives,
  win_arrives, reader_goes_on, streamer_goes_on, is_idle, closing, finish, fail, written,
  on_message, on_win, on_heartbeat, step, steps, close_bad_message,
}
use sys_escape.Ws.Handshake.{Setup, open_session}
use sys_escape.Ws.InOrder.{
  Counts, Counts-snoc, IsDead, IsDead-cases, delta_seq, delta_seqs, delta_seqs-append,
  advance-cases, write-sent, write-dead,
}
use sys_escape.Ws.Order.{Orderly, if_both}
use sys_escape.Ws.Opening.{opened_base, open_session-Orderly}
use sys_escape.Ws.Interleaving.{free-cases}
use sys_escape.Ws.Once.{write-same, close_with-same}

-- The last number on the wire is the tracker's, but for the one that the stream is about to write.
abbrev Expects : {P : Type 0} → Task P → ℤ → ℤ → Type 0
Expects idle on_wire last = on_wire ≡ last
Expects (takes delta win) on_wire last = on_wire ≡ last
Expects (puts delta win) on_wire last = (delta.seq ≡ on_wire +ℤ pos 1) × (delta.seq ≡ last)
Expects (gives_up reason) on_wire last = on_wire ≡ last
Expects (announces payload) on_wire last = on_wire ≡ last

record Waits {P : Type 0} (base : ℤ) (l : Line P) (task : Task P) : Type 0 where
  on_wire : ℤ
  counts : Counts base on_wire (delta_seqs l.writer.wire)
  current : IsDead l.writer ⊎ Expects task on_wire l.last

module _ {P : Type 0} (base : ℤ) where
  Waits-still :
      (l l' : Line P) (task task' : Task P)
      → delta_seqs l'.writer.wire ≡ delta_seqs l.writer.wire
      → (IsDead l.writer → IsDead l'.writer)
      → ((n : ℤ) → Expects task n l.last → Expects task' n l'.last)
      → Waits base l task
      → Waits base l' task'
  Waits-still l l' task task' wire dead expects v = record {
    on_wire = v.on_wire;
    counts = subst (Counts base v.on_wire) (sym wire) v.counts;
    current = elim v.current [ inl d ↦ inl (dead d) | inr e ↦ inr (expects v.on_wire e) ];
  }

  Waits-closed :
      (l : Line P) (task task' : Task P) (code : ℕ) (reason : String)
      → Waits base l task
      → Waits base (record l { writer = close_with l.writer code reason }) task'
  Waits-closed l task task' code reason v =
      let (wire, dead) = close_with-same base l.writer code reason in
      record {
        on_wire = v.on_wire;
        counts = subst (Counts base v.on_wire) (sym wire) v.counts;
        current = inl dead;
      }

  Waits-written :
      (l : Line P) (task : Task P) (env : Envelope (Body P))
      → delta_seq (text env) ≡ none
      → Waits base l task
      → Waits base (record l { writer = (write l.writer env).1 }) task
  Waits-written l task env p v =
      let (wire, dead) = write-same base l.writer env p in
      Waits-still l (record l { writer = (write l.writer env).1 }) task task wire dead (λ n e. e) v

  take_delta-Waits :
      (l : Line P) (delta : Delta P) (win : Option P)
      → Waits base l (takes delta win)
      → Waits base (take_delta l delta win).2 (take_delta l delta win).0
  unfolding take_delta
  take_delta-Waits l delta win v = elim (Bool-cases (leb_ℤ delta.seq (pos 0))) [
    | inl low ↦
        rw low (
          Waits-still l l (takes delta win) (gives_up "invalid sequence") refl (λ d. d) (λ n e. e)
            v)
    | inr positive ↦ elim (advance-cases l.last delta.seq) [
      | inl old ↦
          rw (positive, old) (Waits-still l l (takes delta win) idle refl (λ d. d) (λ n e. e) v)
      | inr (inl gap) ↦
          rw (positive, gap)
            (Waits-still l l (takes delta win) (gives_up "sequence gap") refl (λ d. d) (λ n e. e) v)
      | inr (inr (next, sends)) ↦
          rw (positive, sends)
            (Waits-still l (record l { last = delta.seq }) (takes delta win) (puts delta win) refl
              (λ d. d) (λ n e. (next ∙ ap (λ k. k +ℤ pos 1) (sym e), refl)) v)
    ]
  ]

  after_sent-Expects : (n last : ℤ) (win : Option P) → n ≡ last → Expects (after_sent win) n last
  after_sent-Expects n last none h = h
  after_sent-Expects n last (some payload) h = h

  put_delta-Waits :
      (l : Line P) (delta : Delta P) (win : Option P)
      → Waits base l (puts delta win)
      → Waits base (put_delta l delta win).2 (put_delta l delta win).0
  unfolding put_delta
  put_delta-Waits l delta win v = elim (IsDead-cases l.writer) [
    | inr dead ↦
        rw (write-dead l.writer (with_delta type_delta delta) dead)
          (record { on_wire = v.on_wire; counts = v.counts; current = inl dead })
    | inl (open_line, up) ↦
        let frame = text (with_delta type_delta delta) in
        let (next, same) : (delta.seq ≡ v.on_wire +ℤ pos 1) × (delta.seq ≡ l.last) =
          elim v.current [ inl dead ↦ absurd (ground (arith, dead, open_line, up)) | inr e ↦ e ] in
        rw (write-sent l.writer (with_delta type_delta delta) open_line up) (record {
          on_wire = delta.seq;
          counts =
              subst (Counts base delta.seq) (sym (delta_seqs-append l.writer.wire (frame ∷ [])))
                (Counts-snoc base v.on_wire delta.seq (delta_seqs l.writer.wire) v.counts next);
          current = inr (after_sent-Expects delta.seq l.last win same);
        })
  ]

  go_on-Waits :
      (l : Line P) (task : Task P)
      → Waits base l task
      → Waits base (go_on task l).2 (go_on task l).0
  unfolding go_on
  go_on-Waits l idle v = v
  go_on-Waits l (takes delta win) v = take_delta-Waits l delta win v
  go_on-Waits l (puts delta win) v = put_delta-Waits l delta win v
  go_on-Waits l (gives_up reason) v = Waits-closed l (gives_up reason) idle close_seq_gap reason v
  go_on-Waits l (announces payload) v =
      let l' = record l { writer = (write l.writer (win_update payload)).1 } in
      Waits-still l' l' (announces payload) idle refl (λ d. d) (λ n e. e)
        (Waits-written l (announces payload) (win_update payload) refl v)

  -- The reader writes no delta.
  record Watches (s : Session P) : Type 0 where
    free : s.reader ≡ idle
    waits : Waits base s.line s.streamer

  Orderly-Watches : (s : Session P) → Orderly base s → Watches s
  Orderly-Watches s v = record {
    free = v.no_reader;
    waits = rw v.no_streamer (record {
      on_wire = v.in_order.on_wire;
      counts = v.in_order.counts;
      current = elim v.in_order.current [ inl same ↦ inr same | inr dead ↦ inl dead ];
    });
  }

  closing-Watches :
      (code : ℕ) (reason : String) (s : Session P) → Watches s → Watches (closing code reason s)
  closing-Watches code reason s v = record {
    free = v.free;
    waits = Waits-closed s.line s.streamer s.streamer code reason v.waits;
  }

  finish-Watches : (s : Session P) → Watches s → Watches (finish s)
  unfolding finish
  finish-Watches s v = record {
    free = refl;
    waits = Waits-closed s.line s.streamer s.streamer _ _ v.waits;
  }

  fail-Watches :
      (code : ℕ) (reason : String) (s : Session P) → Watches s → Watches (fail code reason s)
  fail-Watches code reason s v =
      finish-Watches (closing code reason s) (closing-Watches code reason s v)

  written-Watches :
      (s : Session P) (env : Envelope (Body P))
      → delta_seq (text env) ≡ none
      → Watches s
      → Watches (written s env).1
  written-Watches s env p v = record {
    free = v.free;
    waits = Waits-written s.line s.streamer env p v.waits;
  }

  on_win-Watches : (w : Option P) (s : Session P) → Watches s → Watches (on_win w s)
  unfolding on_win
  on_win-Watches none s v = v
  on_win-Watches (some payload) s v =
      let k = written-Watches s (win_update payload) refl v in
      record { free = k.free; waits = k.waits }

  on_heartbeat-Watches : (now : ℕ) (s : Session P) → Watches s → Watches (on_heartbeat now s)
  unfolding on_heartbeat
  on_heartbeat-Watches now s v =
      let (done, s') = written s ping in
      let k = written-Watches s ping refl v in
      let c = closing-Watches close_bad_message "pong timeout" s v in
      let timed_out : Session P = record (closing close_bad_message "pong timeout" s) {
        beating = false;
      } in
      let pinged : Session P = record s' { last_ping_at = now } in
      let lost : Session P = record s' { beating = false } in
      if_both Watches (heartbeat_timed_out now s.heartbeat) timed_out
        (if ping_due now s.heartbeat s.last_ping_at then (if done then pinged else lost) else s)
        (record { free = c.free; waits = c.waits })
        (if_both Watches (ping_due now s.heartbeat s.last_ping_at) (if done then pinged else lost) s
          (if_both Watches done pinged lost (record { free = k.free; waits = k.waits })
            (record { free = k.free; waits = k.waits }))
          v)

-- An event that is no action of the client.
abbrev pub IsWatching : {P : Type 0} → Event P → Type 0
IsWatching (received env answer) = str_eq env.msg_type type_apply_action ≡ false
IsWatching read_failed = Unit {0}
IsWatching deltas_end = Unit {0}
IsWatching wins_end = Unit {0}
IsWatching heartbeat_ticks = Unit {0}
IsWatching reader_goes_on = Unit {0}
IsWatching streamer_goes_on = Unit {0}
IsWatching (delta_arrives d) = Unit {0}
IsWatching (win_arrives w) = Unit {0}

module _ {P : Type 0} (base : ℤ) ⦃codec : Codec P⦄ where
  on_message-Watches :
      (now : ℕ) (run_id : String) (env : Envelope P)
      (answer : Result (Unit {0}) (ApplyActionResult P)) (s : Session P)
      → str_eq env.msg_type type_apply_action ≡ false
      → Watches base s
      → Watches base (on_message now run_id env answer s)
  unfolding on_message
  on_message-Watches now run_id env answer s other v = rw other (
      if_both (Watches base) (str_eq env.msg_type type_pong)
        (record s { heartbeat = record_pong now s.heartbeat })
        (fail close_bad_message "unsupported message" s) (record { free = v.free; waits = v.waits })
        (fail-Watches base close_bad_message "unsupported message" s v))

  step-Watches :
      (run_id : String) (now : ℕ) (e : Event P) (s : Session P)
      → IsWatching e
      → Watches base s
      → Watches base (step run_id now e s)
  unfolding step
  step-Watches run_id now (received env answer) s w v =
      if_both (Watches base) (s.reading && is_idle s.reader) _ _
        (on_message-Watches now run_id env answer s w v) v
  step-Watches run_id now read_failed s w v =
      if_both (Watches base) (s.reading && is_idle s.reader) _ _ (finish-Watches base s v) v
  step-Watches run_id now (delta_arrives d) s w v =
      elim (free-cases base s.streaming_deltas s.streamer) [
        | inl busy ↦ rw busy v
        | inr free ↦
            if_both (Watches base) (s.streaming_deltas && is_idle s.streamer) _ _
              (record {
                free = v.free;
                waits =
                    Waits-still base s.line s.line s.streamer (takes d none) refl (λ h. h)
                      (λ n e. subst (λ t. Expects t n s.line.last) free e) v.waits;
              })
              v
      ]
  step-Watches run_id now deltas_end s w v = record { free = v.free; waits = v.waits }
  step-Watches run_id now (win_arrives u) s w v =
      if_both (Watches base) s.streaming_wins _ _ (on_win-Watches base u s v) v
  step-Watches run_id now wins_end s w v = record { free = v.free; waits = v.waits }
  step-Watches run_id now heartbeat_ticks s w v =
      if_both (Watches base) s.beating _ _ (on_heartbeat-Watches base now s v) v
  step-Watches run_id now reader_goes_on s w v = rw v.free (record { free = refl; waits = v.waits })
  step-Watches run_id now streamer_goes_on s w v = record {
    free = v.free;
    waits = go_on-Waits base s.line s.streamer v.waits;
  }

  steps-Watches :
      (run_id : String) (es : List (ℕ × Event P)) (s : Session P)
      → All (λ (e : ℕ × Event P). IsWatching e.1) es
      → Watches base s
      → Watches base (steps run_id es s)
  unfolding steps
  steps-Watches run_id [] s w v = v
  steps-Watches run_id ((now, e) ∷ es) s w v =
      steps-Watches run_id es (step run_id now e s) w.1 (step-Watches run_id now e s w.0 v)

-- A client that sends no actions gets the deltas of its run in order and without a gap: for any first
-- message that decodes as a hello, any snapshot or backlog that the runtime's Connect returns, and any
-- later interleaving of the goroutines' steps in which no message is an action, the deltas on the wire are
-- numbered base + 1, base + 2 and so on, where base is the number of the snapshot or, where none is
-- required, the number from which the client resumes.
pub steps-Counts :
    {P : Type 0} ⦃codec : Codec P⦄ (setup : Setup P) (env : Envelope P) (hello : HelloPayload)
    (c : ConnectResult P) (es : List (ℕ × Event P))
    → validate_and_decode_hello env ≡ ok hello
    → setup.connects hello.resume_from_seq ≡ ok c
    → All (λ (e : ℕ × Event P). IsWatching e.1) es
    → (last : ℤ) × Counts
        (opened_base c hello.resume_from_seq)
        last
        (delta_seqs (steps setup.run_id es (open_session setup (some env))).line.writer.wire)
steps-Counts setup env hello c es h p watching =
    let base = opened_base c hello.resume_from_seq in
    let v = steps-Watches base setup.run_id es (open_session setup (some env)) watching (
      Orderly-Watches base (open_session setup (some env))
        (open_session-Orderly setup env hello c h p)) in
    (v.waits.on_wire, v.waits.counts)
