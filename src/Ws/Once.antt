-- ===== src/Ws/Once.antt =====
-- The deltas that the two goroutines of a connection write (internal/engine/a/transport/ws_handler.go):
-- each number once, in whatever order their steps come.
use mathlib.Core.List.{append-nil}
use sys_escape.Prelude.{
  ℕ, ◌+◌, ◌≤◌, ◌≡◌, refl, sym, ap, ◌∙◌, ◌⊎◌, inl, inr, subst, Bool, List, [], ◌∷◌, ◌++◌, Option,
  none, some, String, arith, Bool-cases, if◌then◌else◌,
}
use sys_escape.Prelude.Int.{ℤ, pos, ◌+ℤ◌, eqb_ℤ, leb_ℤ}
use sys_escape.Ws.Messages.{Delta, Envelope, type_delta}
use sys_escape.Ws.Connection.{
  Body, Frame, Line, ConnWriter, Task, idle, takes, puts, gives_up, announces, after_sent, text,
  close_frame, write, close_with, with_delta, win_update, close_seq_gap, take_delta, put_delta,
  go_on,
}
use sys_escape.Ws.InOrder.{
  Counts, Counts-snoc, IsDead, IsDead-cases, delta_seq, delta_seqs, delta_seqs-append, cons_some,
  advance-cases, write-sent, write-dead,
}

-- How often a number is in a list.
abbrev pub times : ℤ → List ℤ → ℕ
times n [] = 0
times n (m ∷ ns) = (if eqb_ℤ n m then 1 else 0) + times n ns

times-++ : (n : ℤ) (ms ns : List ℤ) → times n (ms ++ ns) ≡ times n ms + times n ns
times-++ n [] ns = omega arith
times-++ n (m ∷ ms) ns = omega (arith, times-++ n ms ns)

-- A number that a goroutine has got from `advance` and has not written yet.
abbrev pub in_hand : {P : Type 0} → ℤ → Task P → ℕ
in_hand n idle = 0
in_hand n (takes delta win) = 0
in_hand n (puts delta win) = if eqb_ℤ n delta.seq then 1 else 0
in_hand n (gives_up reason) = 0
in_hand n (announces payload) = 0

-- The numbers that `advance` has let out are `base + 1` and so on up to `end`; none is on the wire more
-- often. Unless nothing more can go out, `end` is the tracker's, and each number is on the wire or in
-- one of the two hands. `other` is what the other goroutine does.
pub record Once {P : Type 0} (base : ℤ) (l : Line P) (task other : Task P) : Type 0 where
  pub reserved : List ℤ
  pub end : ℤ
  pub counts : Counts base end reserved
  pub at_most : (n : ℤ) → times n (delta_seqs l.writer.wire) ≤ times n reserved
  pub all_there :
      IsDead l.writer
      ⊎ ((end ≡ l.last)
          × ((n : ℤ)
              → times n (delta_seqs l.writer.wire) + in_hand n task + in_hand n other
                ≡ times n reserved))

module _ {P : Type 0} (base : ℤ) where
  pub Once-swap :
      (l : Line P) (task other : Task P) → Once base l task other → Once base l other task
  Once-swap l task other v = record {
    reserved = v.reserved;
    end = v.end;
    counts = v.counts;
    at_most = v.at_most;
    all_there = elim v.all_there [
      | inl dead ↦ inl dead
      | inr (same, all) ↦ inr (same, λ n. let here = all n in omega arith)
    ];
  }

  -- A step that leaves the deltas on the wire, the tracker and the number in hand.
  pub Once-still :
      (l l' : Line P) (task task' other : Task P)
      → l'.last ≡ l.last
      → delta_seqs l'.writer.wire ≡ delta_seqs l.writer.wire
      → (IsDead l.writer → IsDead l'.writer)
      → ((n : ℤ) → in_hand n task' ≡ in_hand n task)
      → Once base l task other
      → Once base l' task' other
  Once-still l l' task task' other last wire dead hand v = record {
    reserved = v.reserved;
    end = v.end;
    counts = v.counts;
    at_most = λ n. subst (λ ns. times n ns ≤ times n v.reserved) (sym wire) (v.at_most n);
    all_there = elim v.all_there [
      | inl d ↦ inl (dead d)
      | inr (same, all) ↦ inr (
        same ∙ sym last,
        λ n.
            let here = all n in
            let there = ap (times n) wire in let held = hand n in omega (arith, here, there, held),
      )
    ];
  }

  other_frame :
      (fs : List (Frame P)) (f : Frame P)
      → delta_seq f ≡ none
      → delta_seqs (fs ++ f ∷ []) ≡ delta_seqs fs
  other_frame fs f p =
      delta_seqs-append fs (f ∷ [])
      ∙ ap (λ o. delta_seqs fs ++ cons_some o []) p
      ∙ append-nil (delta_seqs fs)

  pub write-same :
      (w : ConnWriter P) (env : Envelope (Body P))
      → delta_seq (text env) ≡ none
      → (delta_seqs (write w env).1.wire ≡ delta_seqs w.wire) × (IsDead w → IsDead (write w env).1)
  write-same w env p = elim (IsDead-cases w) [
    | inl (open_line, up) ↦ (
      ap (λ (r : Bool × ConnWriter P). delta_seqs r.1.wire) (write-sent w env open_line up)
          ∙ other_frame w.wire (text env) p,
      λ dead. absurd (ground (arith, dead, open_line, up)),
    )
    | inr dead ↦
        let same = write-dead w env dead in
        (
          ap (λ (r : Bool × ConnWriter P). delta_seqs r.1.wire) same,
          λ d. subst (λ (r : Bool × ConnWriter P). IsDead r.1) (sym same) d,
        )
  ]

  pub close_with-same :
      (w : ConnWriter P) (code : ℕ) (reason : String)
      → (delta_seqs (close_with w code reason).wire ≡ delta_seqs w.wire)
        × IsDead (close_with w code reason)
  unfolding close_with
  close_with-same w code reason =
      let more = other_frame w.wire (close_frame code reason) refl in
      (ground (arith, more), inl (ground arith))

  pub Once-written :
      (l : Line P) (task other : Task P) (env : Envelope (Body P))
      → delta_seq (text env) ≡ none
      → Once base l task other
      → Once base (record l { writer = (write l.writer env).1 }) task other
  Once-written l task other env p v =
      let (wire, dead) = write-same l.writer env p in
      Once-still l (record l { writer = (write l.writer env).1 }) task task other refl wire dead
        (λ n. refl) v

  -- What is closed has nothing more to keep.
  pub Once-closed :
      (l : Line P) (task task' other other' : Task P) (code : ℕ) (reason : String)
      → Once base l task other
      → Once base (record l { writer = close_with l.writer code reason }) task' other'
  Once-closed l task task' other other' code reason v =
      let (wire, dead) = close_with-same l.writer code reason in
      record {
        reserved = v.reserved;
        end = v.end;
        counts = v.counts;
        at_most = λ n. subst (λ ns. times n ns ≤ times n v.reserved) (sym wire) (v.at_most n);
        all_there = inl dead;
      }

  -- A number that `advance` lets out is in hand.
  Once-taken :
      (l : Line P) (delta : Delta P) (win : Option P) (other : Task P)
      → delta.seq ≡ l.last +ℤ pos 1
      → Once base l (takes delta win) other
      → Once base (record l { last = delta.seq }) (puts delta win) other
  Once-taken l delta win other next v = elim v.all_there [
    | inl dead ↦ record {
      reserved = v.reserved;
      end = v.end;
      counts = v.counts;
      at_most = v.at_most;
      all_there = inl dead;
    }
    | inr (same, all) ↦ record {
      reserved = v.reserved ++ delta.seq ∷ [];
      end = delta.seq;
      counts =
          Counts-snoc base v.end delta.seq v.reserved v.counts
            (next ∙ ap (λ k. k +ℤ pos 1) (sym same));
      at_most = λ n.
          let few = v.at_most n in
          let more = times-++ n v.reserved (delta.seq ∷ []) in omega (arith, few, more);
      all_there = inr (
        refl,
        λ n.
            let here = all n in
            let more = times-++ n v.reserved (delta.seq ∷ []) in omega (arith, here, more),
      );
    }
  ]

  take_delta-Once :
      (l : Line P) (delta : Delta P) (win : Option P) (other : Task P)
      → Once base l (takes delta win) other
      → Once base (take_delta l delta win).2 (take_delta l delta win).0 other
  unfolding take_delta
  take_delta-Once l delta win other v =
      let still = λ (task : Task P) (hand : (n : ℤ) → in_hand n task ≡ 0).
        Once-still l l (takes delta win) task other refl refl (λ d. d) hand v in
      elim (Bool-cases (leb_ℤ delta.seq (pos 0))) [
        | inl low ↦ rw low (still (gives_up "invalid sequence") (λ n. refl))
        | inr positive ↦ elim (advance-cases l.last delta.seq) [
          | inl old ↦ rw (positive, old) (still idle (λ n. refl))
          | inr (inl gap) ↦ rw (positive, gap) (still (gives_up "sequence gap") (λ n. refl))
          | inr (inr (next, sends)) ↦ rw (positive, sends) (Once-taken l delta win other next v)
        ]
      ]

  after_sent-hand : (n : ℤ) (win : Option P) → in_hand n (after_sent win) ≡ 0
  after_sent-hand n none = refl
  after_sent-hand n (some payload) = refl

  -- A number in hand goes out, or is lost with the line.
  Once-put :
      (l : Line P) (delta : Delta P) (win : Option P) (other : Task P)
      → Once base l (puts delta win) other
      → Once base (put_delta l delta win).2 (put_delta l delta win).0 other
  unfolding put_delta
  Once-put l delta win other v = elim (IsDead-cases l.writer) [
    | inr dead ↦ rw (write-dead l.writer (with_delta type_delta delta) dead) (record {
      reserved = v.reserved;
      end = v.end;
      counts = v.counts;
      at_most = v.at_most;
      all_there = inl dead;
    })
    | inl (open_line, up) ↦
        let frame = text (with_delta type_delta delta) in
        let (same, all) : (v.end ≡ l.last)
            × ((n : ℤ)
                → times n (delta_seqs l.writer.wire) + in_hand n (puts delta win) + in_hand n other
                  ≡ times n v.reserved) =
          elim v.all_there [
            | inl dead ↦ absurd (ground (arith, dead, open_line, up))
            | inr r ↦ r
          ] in
        let longer = λ (n : ℤ).
          ap (times n) (delta_seqs-append l.writer.wire (frame ∷ []))
          ∙ times-++ n (delta_seqs l.writer.wire) (delta.seq ∷ []) in
        rw (write-sent l.writer (with_delta type_delta delta) open_line up) (record {
          reserved = v.reserved;
          end = v.end;
          counts = v.counts;
          at_most = λ n. let here = all n in let wire = longer n in omega (arith, here, wire);
          all_there = inr (
            same,
            λ n.
                let here = all n in
                let wire = longer n in
                let hand = after_sent-hand n win in omega (arith, here, wire, hand),
          );
        })
  ]

  -- Each step of a `writeDelta` keeps it, whatever the other goroutine is doing.
  pub go_on-Once :
      (l : Line P) (task other : Task P)
      → Once base l task other
      → Once base (go_on task l).2 (go_on task l).0 other
  unfolding go_on
  go_on-Once l idle other v = v
  go_on-Once l (takes delta win) other v = take_delta-Once l delta win other v
  go_on-Once l (puts delta win) other v = Once-put l delta win other v
  go_on-Once l (gives_up reason) other v =
      Once-closed l (gives_up reason) idle other other close_seq_gap reason v
  go_on-Once l (announces payload) other v =
      let k = Once-written l (announces payload) other (win_update payload) refl v in
      let l' = record l { writer = (write l.writer (win_update payload)).1 } in
      Once-still l' l' (announces payload) idle other refl refl (λ d. d) (λ n. refl) k
