-- ===== src/Ws/Opening.antt =====
-- The deltas of the opening of a connection (internal/engine/a/transport/ws_handler.go).
use sys_escape.Prelude.{
  ℕ, ◌≡◌, refl, sym, ◌⊎◌, inl, inr, subst, Bool, true, false, List, [], ◌∷◌, Option, none, some,
  String, Bool-cases, if◌then◌else◌, ok, or_else,
}
use mathlib.Core.Bool.{not}
use sys_escape.Prelude.Text.{str_eq}
use sys_escape.Prelude.Int.{ℤ, pos, leb_ℤ}
use sys_escape.Ws.Messages.{
  Delta, Envelope, HelloPayload, ConnectResult, type_hello, type_delta, type_snapshot,
}
use sys_escape.Ws.Protocol.{Codec, validate_and_decode_hello}
use sys_escape.Ws.Connection.{idle, Body, write, with_delta, hello_ack, text, close_seq_gap}
use sys_escape.Ws.Session.{
  close_internal, close_expected_hello, close_run_id_mismatch, close_unauthorized, Session, closing,
  finish, fail, written,
}
use sys_escape.Ws.Handshake.{
  Setup, new_session, set_last, send_backlog, greet, start_loops, subscribe, send_greeting, admit,
  check_hello, open_session,
}
use sys_escape.Ws.InOrder.{
  Counts, delta_seqs, delta_seq, next_delta, advance-cases, write-delta_seqs, close_with-delta_seqs,
  close_with-closes,
}
use sys_escape.Ws.Order.{Orderly, if_both, finish-Orderly, fail-Orderly, closing-Orderly}

-- No delta is on the wire yet.
pub record Blank {P : Type 0} (s : Session P) : Type 0 where
  pub no_delta : delta_seqs s.line.writer.wire ≡ []
  pub no_reader : s.reader ≡ idle
  pub no_streamer : s.streamer ≡ idle

module _ {P : Type 0} (base : ℤ) where
  closing-Blank :
      (code : ℕ) (reason : String) (s : Session P) → Blank s → Blank (closing code reason s)
  closing-Blank code reason s v = record {
    no_delta = close_with-delta_seqs s.line.writer code reason v.no_delta;
    no_reader = v.no_reader;
    no_streamer = v.no_streamer;
  }

  written-Blank :
      (s : Session P) (env : Envelope (Body P))
      → delta_seq (text env) ≡ none
      → Blank s
      → Blank (written s env).1
  written-Blank s env p v = record {
    no_delta = write-delta_seqs s.line.writer env p v.no_delta;
    no_reader = v.no_reader;
    no_streamer = v.no_streamer;
  }

  -- A session with no delta that is closed, or has the base as its last number, is in order.
  Blank-Orderly :
      (s : Session P)
      → Blank s
      → (base ≡ s.line.last) ⊎ (s.line.writer.closed ≡ true)
      → Orderly base s
  Blank-Orderly s v h = record {
    in_order = record {
      on_wire = base;
      counts = subst (Counts base base) (sym v.no_delta) refl;
      current = elim h [ inl p ↦ inl p | inr closed ↦ inr (inl closed) ];
    };
    no_reader = v.no_reader;
    no_streamer = v.no_streamer;
  }

  finish-Blank : (s : Session P) → Blank s → Orderly base (finish s)
  unfolding finish
  finish-Blank s v =
      Blank-Orderly (finish s)
        (record {
          no_delta = close_with-delta_seqs s.line.writer _ _ v.no_delta;
          no_reader = refl;
          no_streamer = v.no_streamer;
        })
        (inr (close_with-closes s.line.writer _ _))

  fail-Blank :
      (code : ℕ) (reason : String) (s : Session P) → Blank s → Orderly base (fail code reason s)
  fail-Blank code reason s v = finish-Blank (closing code reason s) (closing-Blank code reason s v)

  start_loops-Orderly :
      (setup : Setup P) (wins : Bool) (s : Session P)
      → Orderly base s
      → Orderly base (start_loops setup wins s)
  unfolding start_loops
  start_loops-Orderly setup wins s v = record {
    in_order = v.in_order;
    no_reader = v.no_reader;
    no_streamer = v.no_streamer;
  }

  subscribe-Orderly :
      (setup : Setup P) (s : Session P) → Orderly base s → Orderly base (subscribe setup s)
  unfolding subscribe
  subscribe-Orderly setup s v =
      if_both (Orderly base) (not setup.subscribes) (fail close_internal "subscribe failed" s) _
        (fail-Orderly base _ _ s v) (wins setup.win_subscription)
    where
      wins :
          (o : Option Bool)
          → Orderly base (elim o as (λ _. Session P) [
            | none ↦ start_loops setup false s
            | some subscribed ↦
                if subscribed
                then start_loops setup true s
                else fail close_internal "subscribe win updates failed" s
          ])
      wins none = start_loops-Orderly setup false s v
      wins (some true) = start_loops-Orderly setup true s v
      wins (some false) = fail-Orderly base _ _ s v

  send_backlog-Orderly :
      (ds : List (Delta P)) (s : Session P) → Orderly base s → Orderly base (send_backlog ds s).1
  unfolding send_backlog
  send_backlog-Orderly [] s v = v
  send_backlog-Orderly (d ∷ ds) s v = elim (advance-cases s.line.last d.seq) [
    | inl old ↦ rw old (send_backlog-Orderly ds s v)
    | inr (inl gap) ↦ rw gap (closing-Orderly base _ _ s v)
    | inr (inr (next, sends)) ↦
        let s' = (written (set_last d.seq s) (with_delta type_delta d)).1 in
        let b = (written (set_last d.seq s) (with_delta type_delta d)).0 in
        let k : Orderly base s' = record {
          in_order = next_delta base s.line d next v.in_order;
          no_reader = v.no_reader;
          no_streamer = v.no_streamer;
        } in
        rw sends (
          if_both (λ (r : Bool × Session P). Orderly base r.1) b (send_backlog ds s') (false, s')
            (send_backlog-Orderly ds s' k) k)
  ]

  -- What the greeting leaves: a session in order, or one without deltas that ends.
  Greeted : Bool × Session P → Type 0
  Greeted r = Orderly base r.1 ⊎ ((r.0 ≡ false) × Blank r.1)

  send_greeting-Orderly :
      (setup : Setup P) (c : ConnectResult P) (resume_from_seq : Option ℤ) (s : Session P)
      → Greeted (greet c resume_from_seq s)
      → Orderly base (send_greeting setup c resume_from_seq s)
  unfolding send_greeting Greeted
  send_greeting-Orderly setup c resume_from_seq s (inl v) =
      let s' = (greet c resume_from_seq s).1 in
      if_both (Orderly base) (greet c resume_from_seq s).0 (subscribe setup s') (finish s')
        (subscribe-Orderly setup s' v) (finish-Orderly base s' v)
  send_greeting-Orderly setup c resume_from_seq s (inr (p, v)) =
      rw p (finish-Blank (greet c resume_from_seq s).1 v)

module _ {P : Type 0} where
  -- The number before the first delta: the snapshot's, or the one that the client named.
  abbrev pub opened_base : ConnectResult P → Option ℤ → ℤ
  opened_base c resume_from_seq =
      if c.snapshot_required then c.snapshot.seq else or_else resume_from_seq (pos 0)

  greet-Greeted :
      (c : ConnectResult P) (resume_from_seq : Option ℤ) (s : Session P)
      → Blank s
      → Greeted (opened_base c resume_from_seq) (greet c resume_from_seq s)
  unfolding greet Greeted
  greet-Greeted c resume_from_seq s v = elim (Bool-cases c.snapshot_required) [
    | inr backlog ↦
        let base = or_else resume_from_seq (pos 0) in
        rw backlog (
          inl (
            send_backlog-Orderly base c.deltas (set_last base s) (
              Blank-Orderly base (set_last base s)
                (record {
                  no_delta = v.no_delta;
                  no_reader = v.no_reader;
                  no_streamer = v.no_streamer;
                })
                (inl refl))))
    | inl snap ↦ elim (Bool-cases (leb_ℤ c.snapshot.seq (pos 0))) [
      | inl low ↦
          rw (snap, low)
            (inl (
              Blank-Orderly c.snapshot.seq _ (closing-Blank c.snapshot.seq close_seq_gap _ s v)
                (inr (close_with-closes s.line.writer _ _))))
      | inr positive ↦
          let frame = with_delta type_snapshot c.snapshot in
          let k = written-Blank c.snapshot.seq s frame refl v in
          elim (Bool-cases (write s.line.writer frame).0) [
            | inl done ↦
                rw (snap, positive, done)
                  (inl (
                    Blank-Orderly c.snapshot.seq (set_last c.snapshot.seq (written s frame).1)
                      (record {
                        no_delta = k.no_delta;
                        no_reader = k.no_reader;
                        no_streamer = k.no_streamer;
                      })
                      (inl refl)))
            | inr lost ↦ rw (snap, positive, lost) (inr (refl, k))
          ]
    ]
  ]

  admit-Orderly :
      (setup : Setup P) (hello : HelloPayload) (c : ConnectResult P) (s : Session P)
      → setup.connects hello.resume_from_seq ≡ ok c
      → Blank s
      → Orderly (opened_base c hello.resume_from_seq) (admit setup hello s)
  unfolding admit
  admit-Orderly setup hello c s p v =
      let base = opened_base c hello.resume_from_seq in
      let ack = hello_ack c.snapshot_required in
      let s' = (written s ack).1 in
      let k = written-Blank base s ack refl v in
      rw (p, admit)
        (if_both (Orderly base) (written s ack).0 (send_greeting setup c hello.resume_from_seq s')
          (finish s')
          (send_greeting-Orderly base setup c hello.resume_from_seq s'
            (greet-Greeted c hello.resume_from_seq s' k))
          (finish-Blank base s' k))

  check_hello-Orderly :
      (setup : Setup P) (env : Envelope P) (hello : HelloPayload) (c : ConnectResult P)
      (s : Session P)
      → setup.connects hello.resume_from_seq ≡ ok c
      → Blank s
      → Orderly (opened_base c hello.resume_from_seq) (check_hello setup env (ok hello) s)
  unfolding check_hello
  check_hello-Orderly setup env hello c s p v =
      let base = opened_base c hello.resume_from_seq in
      let unauthorized = fail close_unauthorized "unauthorized" s in
      if_both (Orderly base) (not (str_eq env.run_id setup.run_id))
        (fail close_run_id_mismatch "runId mismatch" s)
        (if not (setup.token_holds hello.run_token) then unauthorized else admit setup hello s)
        (fail-Blank base _ _ s v)
        (if_both (Orderly base) (not (setup.token_holds hello.run_token)) unauthorized
          (admit setup hello s) (fail-Blank base _ _ s v) (admit-Orderly setup hello c s p v))

  pub open_session-Orderly :
      ⦃codec : Codec P⦄ (setup : Setup P) (env : Envelope P) (hello : HelloPayload)
      (c : ConnectResult P)
      → validate_and_decode_hello env ≡ ok hello
      → setup.connects hello.resume_from_seq ≡ ok c
      → Orderly (opened_base c hello.resume_from_seq) (open_session setup (some env))
  unfolding open_session new_session
  open_session-Orderly setup env hello c h p =
      let base = opened_base c hello.resume_from_seq in
      let s = new_session setup in
      let blank : Blank s = record { no_delta = refl; no_reader = refl; no_streamer = refl } in
      rw h (
        if_both (Orderly base) (not (str_eq env.msg_type type_hello))
          (fail close_expected_hello "expected hello" s) (check_hello setup env (ok hello) s)
          (fail-Blank base _ _ s blank) (check_hello-Orderly setup env hello c s p blank))
