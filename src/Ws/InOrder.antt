-- ===== src/Ws/InOrder.antt =====
-- The deltas that one goroutine writes (internal/engine/a/transport/ws_handler.go) have no gap.
use sys_escape.Prelude.{
  ℕ, ◌≡◌, refl, sym, ap, ◌∙◌, ◌⊎◌, inl, inr, subst, Bool, true, false, List, [], ◌∷◌, ◌++◌, length,
  Option, none, some, String, arith, Bool-cases, if◌then◌else◌,
}
use mathlib.Core.List.{append-nil}
use sys_escape.Prelude.Text.{str_eq}
use sys_escape.Prelude.Int.{ℤ, pos, ltb_ℤ, leb_ℤ, ◌+ℤ◌, eq_of_parts, +ℤ_parts, leb_ℤ→>ℤ, ltb_ℤ→≥ℤ}
use sys_escape.Ws.Messages.{Delta, Envelope, type_delta}
use sys_escape.Ws.Connection.{
  Body, Frame, text, close_frame, ConnWriter, Line, write, close_with, advance, with_delta,
}

-- The number of a delta frame.
abbrev pub delta_seq : {P : Type 0} → Frame P → Option ℤ
delta_seq (close_frame code reason) = none
delta_seq (text env) = if str_eq env.msg_type type_delta then env.seq else none

abbrev pub cons_some : Option ℤ → List ℤ → List ℤ
cons_some none ns = ns
cons_some (some n) ns = n ∷ ns

abbrev pub delta_seqs : {P : Type 0} → List (Frame P) → List ℤ
delta_seqs [] = []
delta_seqs (f ∷ fs) = cons_some (delta_seq f) (delta_seqs fs)

-- The numbers are `base + 1`, `base + 2` and so on up to `last`.
abbrev pub Counts : ℤ → ℤ → List ℤ → Type 0
Counts base last [] = base ≡ last
Counts base last (n ∷ ns) = (n ≡ base +ℤ pos 1) × Counts n last ns

-- Nothing more can go out.
abbrev pub IsDead : {P : Type 0} → ConnWriter P → Type 0
IsDead w = (w.closed ≡ true) ⊎ (w.accepts (length w.wire) ≡ false)

pub record InOrder {P : Type 0} (base : ℤ) (l : Line P) : Type 0 where
  pub on_wire : ℤ
  pub counts : Counts base on_wire (delta_seqs l.writer.wire)
  pub current : (on_wire ≡ l.last) ⊎ IsDead l.writer

cons_some-append :
    (o : Option ℤ) (ms ns ks : List ℤ) → ks ≡ ms ++ ns → cons_some o ks ≡ cons_some o ms ++ ns
cons_some-append none ms ns ks p = p
cons_some-append (some n) ms ns ks p = ap (λ xs. n ∷ xs) p

pub Counts-snoc :
    (base last n : ℤ) (ns : List ℤ)
    → Counts base last ns
    → n ≡ last +ℤ pos 1
    → Counts base n (ns ++ n ∷ [])
Counts-snoc base last n [] h p = (p ∙ ap (λ k. k +ℤ pos 1) (sym h), refl)
Counts-snoc base last n (m ∷ ns) h p = (h.0, Counts-snoc m last n ns h.1 p)

pub advance-cases :
    (last seq : ℤ)
    → (advance last seq ≡ (record { send = false; gap = false }, last))
      ⊎ (advance last seq ≡ (record { send = false; gap = true }, last))
      ⊎ ((seq ≡ last +ℤ pos 1) × (advance last seq ≡ (record { send = true; gap = false }, seq)))
unfolding advance
advance-cases last seq = elim (Bool-cases (leb_ℤ seq last)) [
  | inl old ↦ inl (rw old refl)
  | inr fresh ↦ elim (Bool-cases (ltb_ℤ (last +ℤ pos 1) seq)) [
    | inl gap ↦ inr (inl (rw (fresh, gap) refl))
    | inr next ↦ inr (
        inr (
          eq_of_parts seq (last +ℤ pos 1) (
              omega (
                arith,
                +ℤ_parts last (pos 1),
                leb_ℤ→>ℤ seq last fresh,
                ltb_ℤ→≥ℤ (last +ℤ pos 1) seq next,
              )),
          rw (fresh, next) refl,
        ))
  ]
]

module _ {P : Type 0} where
  pub delta_seqs-append :
      (fs gs : List (Frame P)) → delta_seqs (fs ++ gs) ≡ delta_seqs fs ++ delta_seqs gs
  delta_seqs-append [] gs = refl
  delta_seqs-append (f ∷ fs) gs =
      cons_some-append (delta_seq f) (delta_seqs fs) (delta_seqs gs) _ (delta_seqs-append fs gs)

  -- A frame that is no delta changes nothing.
  other_frame :
      (base last : ℤ) (fs : List (Frame P)) (f : Frame P)
      → delta_seq f ≡ none
      → Counts base last (delta_seqs fs)
      → Counts base last (delta_seqs (fs ++ f ∷ []))
  other_frame base last fs f p h =
      let same : delta_seqs (fs ++ f ∷ []) ≡ delta_seqs fs =
        delta_seqs-append fs (f ∷ [])
        ∙ ap (λ o. delta_seqs fs ++ cons_some o []) p
        ∙ append-nil (delta_seqs fs) in
      subst (Counts base last) (sym same) h

  pub close_with-closed :
      (w : ConnWriter P) (code : ℕ) (reason : String)
      → w.closed ≡ true
      → close_with w code reason ≡ w
  unfolding close_with
  close_with-closed w code reason h = ground arith

  close_with-sent :
      (w : ConnWriter P) (code : ℕ) (reason : String)
      → w.closed ≡ false
      → w.accepts (length w.wire) ≡ true
      → close_with w code reason
        ≡ record w { closed = true; wire = w.wire ++ close_frame code reason ∷ [] }
  unfolding close_with
  close_with-sent w code reason h k = ground arith

  close_with-lost :
      (w : ConnWriter P) (code : ℕ) (reason : String)
      → w.closed ≡ false
      → w.accepts (length w.wire) ≡ false
      → close_with w code reason ≡ record w { closed = true }
  unfolding close_with
  close_with-lost w code reason h k = ground arith

  pub write-sent :
      (w : ConnWriter P) (env : Envelope (Body P))
      → w.closed ≡ false
      → w.accepts (length w.wire) ≡ true
      → write w env ≡ (true, record w { wire = w.wire ++ text env ∷ [] })
  unfolding write
  write-sent w env h k = ground arith

  pub write-dead :
      (w : ConnWriter P) (env : Envelope (Body P)) → IsDead w → write w env ≡ (false, w)
  unfolding write
  write-dead w env h = ground arith

  pub IsDead-cases :
      (w : ConnWriter P) → ((w.closed ≡ false) × (w.accepts (length w.wire) ≡ true)) ⊎ IsDead w
  IsDead-cases w = ground arith

  pub close_with-closes :
      (w : ConnWriter P) (code : ℕ) (reason : String) → (close_with w code reason).closed ≡ true
  unfolding close_with
  close_with-closes w code reason = ground arith

  -- A connection without deltas stays so until one is written.
  pub write-delta_seqs :
      (w : ConnWriter P) (env : Envelope (Body P))
      → delta_seq (text env) ≡ none
      → delta_seqs w.wire ≡ []
      → delta_seqs (write w env).1.wire ≡ []
  write-delta_seqs w env p h = elim (IsDead-cases w) [
    | inl (open_line, up) ↦
        ap (λ (r : Bool × ConnWriter P). delta_seqs r.1.wire) (write-sent w env open_line up)
        ∙ delta_seqs-append w.wire (text env ∷ [])
        ∙ ap (λ ns. ns ++ delta_seqs (text env ∷ [])) h
        ∙ ap (λ o. cons_some o []) p
    | inr dead ↦ ap (λ (r : Bool × ConnWriter P). delta_seqs r.1.wire) (write-dead w env dead) ∙ h
  ]

  pub close_with-delta_seqs :
      (w : ConnWriter P) (code : ℕ) (reason : String)
      → delta_seqs w.wire ≡ []
      → delta_seqs (close_with w code reason).wire ≡ []
  unfolding close_with
  close_with-delta_seqs w code reason h =
      let more : delta_seqs (w.wire ++ close_frame code reason ∷ []) ≡ [] =
        delta_seqs-append w.wire (close_frame code reason ∷ []) ∙ ap (λ ns. ns ++ []) h in
      ground (arith, more, h)

  alive :
      (base : ℤ) (l : Line P)
      → InOrder base l
      → l.writer.closed ≡ false
      → l.writer.accepts (length l.writer.wire) ≡ true
      → Counts base l.last (delta_seqs l.writer.wire)
  alive base l v h k =
      let current : v.on_wire ≡ l.last = ground (arith, v.current) in
      subst (λ n. Counts base n (delta_seqs l.writer.wire)) current v.counts

  pub close_with-InOrder :
      (base : ℤ) (l : Line P) (code : ℕ) (reason : String)
      → InOrder base l
      → InOrder base (record l { writer = close_with l.writer code reason })
  close_with-InOrder base l code reason v = elim (Bool-cases l.writer.closed) [
    | inl closed ↦
        subst (λ (w : ConnWriter P). InOrder base (record l { writer = w }))
          (sym (close_with-closed l.writer code reason closed)) v
    | inr open_line ↦ elim (Bool-cases (l.writer.accepts (length l.writer.wire))) [
      | inl up ↦
          subst (λ (w : ConnWriter P). InOrder base (record l { writer = w }))
            (sym (close_with-sent l.writer code reason open_line up))
            (record {
              on_wire = v.on_wire;
              counts =
                  other_frame base v.on_wire l.writer.wire (close_frame code reason) refl v.counts;
              current = inr (inl refl);
            })
      | inr down ↦
          subst (λ (w : ConnWriter P). InOrder base (record l { writer = w }))
            (sym (close_with-lost l.writer code reason open_line down))
            (record { on_wire = v.on_wire; counts = v.counts; current = inr (inl refl) })
    ]
  ]

  pub write-InOrder :
      (base : ℤ) (l : Line P) (env : Envelope (Body P))
      → delta_seq (text env) ≡ none
      → InOrder base l
      → InOrder base (record l { writer = (write l.writer env).1 })
  write-InOrder base l env p v = elim (IsDead-cases l.writer) [
    | inl (open_line, up) ↦
        subst (λ (r : Bool × ConnWriter P). InOrder base (record l { writer = r.1 }))
          (sym (write-sent l.writer env open_line up))
          (record {
            on_wire = l.last;
            counts =
                other_frame base l.last l.writer.wire (text env) p (alive base l v open_line up);
            current = inl refl;
          })
    | inr dead ↦
        subst (λ (r : Bool × ConnWriter P). InOrder base (record l { writer = r.1 }))
          (sym (write-dead l.writer env dead)) v
  ]

  -- A delta with the next number goes out, and is the next on the wire.
  pub next_delta :
      (base : ℤ) (l : Line P) (delta : Delta P)
      → delta.seq ≡ l.last +ℤ pos 1
      → InOrder base l
      → InOrder base
          (record { writer = (write l.writer (with_delta type_delta delta)).1; last = delta.seq })
  next_delta base l delta p v = elim (IsDead-cases l.writer) [
    | inl (open_line, up) ↦
        subst
          (λ (r : Bool × ConnWriter P). InOrder base (record { writer = r.1; last = delta.seq }))
          (sym (write-sent l.writer (with_delta type_delta delta) open_line up))
          (record {
            on_wire = delta.seq;
            counts =
                subst (Counts base delta.seq)
                  (sym (delta_seqs-append l.writer.wire (text (with_delta type_delta delta) ∷ [])))
                  (Counts-snoc base l.last delta.seq (delta_seqs l.writer.wire)
                    (alive base l v open_line up) p);
            current = inl refl;
          })
    | inr dead ↦
        subst
          (λ (r : Bool × ConnWriter P). InOrder base (record { writer = r.1; last = delta.seq }))
          (sym (write-dead l.writer (with_delta type_delta delta) dead))
          (record { on_wire = v.on_wire; counts = v.counts; current = inr dead })
  ]
