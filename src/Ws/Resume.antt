-- ===== src/Ws/Resume.antt =====
-- What a reconnecting client gets from the buffer of internal/ws/resume_buffer.go.
use sys_escape.Prelude.{
  suc, ◌+◌, ◌≤◌, ◌<◌, ◌≡◌, refl, sym, ap, ◌∙◌, ◌⊎◌, inl, inr, subst, false, List, [], ◌∷◌, ◌++◌,
  length, drop, ◌==◌, Result, ok, Bool-cases, arith, select, select-append, length-append,
  head_of-ok, ◌>>=◌,
}
use mathlib.Core.List.{append_assoc, append-nil}
use sys_escape.Prelude.Int.{
  ℤ, pos, pos_part, neg_part, ltb_ℤ, ◌<ℤ◌, ◌≤ℤ◌, ltb_ℤ→<ℤ, ltb_ℤ→≥ℤ, -ℤ_parts,
}
use sys_escape.Ws.Messages.{Delta}
use sys_escape.Ws.ResumeBuffer.{
  ResumeBuffer, ResumeError, new_resume_buffer, add, start_from, resume_from,
}

-- The sequence numbers rise strictly from above `m`.
abbrev pub IsRising : {P : Type 0} → ℤ → List (Delta P) → Type 0
IsRising m [] = Unit {0}
IsRising m (d ∷ ds) = (m <ℤ d.seq) × IsRising d.seq ds

abbrev pub last_of : {P : Type 0} → ℤ → List (Delta P) → ℤ
last_of m [] = m
last_of m (d ∷ ds) = last_of d.seq ds

-- The deltas after a number.
abbrev pub after : {P : Type 0} → ℤ → List (Delta P) → List (Delta P)
after n = select λ d. ltb_ℤ n d.seq

-- The deltas of a run, added in turn; a refused one ends it.
unfoldable pub add_all :
    {P : Type 0} → ResumeBuffer P → List (Delta P) → Result ResumeError (ResumeBuffer P)
add_all b [] = ok b
add_all b (d ∷ ds) = add b d >>= (λ b'. add_all b' ds)

-- The buffer holds the end of the history.
record Keeps {P : Type 0} (history : List (Delta P)) (b : ResumeBuffer P) : Type 0 where
  lost : List (Delta P)
  split : history ≡ lost ++ b.items
  rising : IsRising (pos 0) history
  last : b.last_seq ≡ last_of (pos 0) history
  room : 1 ≤ b.cap
  bound : length b.items ≤ b.cap
  full : (length b.items ≡ b.cap) ⊎ (lost ≡ [])

List-cases {ℓ} :
    {A : Type ℓ} (xs : List A) → (xs ≡ []) ⊎ ((x : A) × (rest : List A) × (xs ≡ x ∷ rest))
List-cases [] = inl refl
List-cases (x ∷ rest) = inr (x, rest, refl)

module _ {P : Type 0} where
  IsRising-snoc :
      (m : ℤ) (xs : List (Delta P)) (d : Delta P)
      → IsRising m xs
      → last_of m xs <ℤ d.seq
      → IsRising m (xs ++ d ∷ [])
  IsRising-snoc m [] d h k = (k, tt)
  IsRising-snoc m (x ∷ xs) d h k = (h.0, IsRising-snoc x.seq xs d h.1 k)

  last_of-snoc : (m : ℤ) (xs : List (Delta P)) (d : Delta P) → last_of m (xs ++ d ∷ []) ≡ d.seq
  last_of-snoc m [] d = refl
  last_of-snoc m (x ∷ xs) d = last_of-snoc x.seq xs d

  last_of-append :
      (m : ℤ) (xs ys : List (Delta P)) → last_of m (xs ++ ys) ≡ last_of (last_of m xs) ys
  last_of-append m [] ys = refl
  last_of-append m (x ∷ xs) ys = last_of-append x.seq xs ys

  IsRising-suffix :
      (m : ℤ) (xs ys : List (Delta P)) → IsRising m (xs ++ ys) → IsRising (last_of m xs) ys
  IsRising-suffix m [] ys h = h
  IsRising-suffix m (x ∷ xs) ys h = IsRising-suffix x.seq xs ys h.1

  IsRising-prefix : (m : ℤ) (xs ys : List (Delta P)) → IsRising m (xs ++ ys) → IsRising m xs
  IsRising-prefix m [] ys h = tt
  IsRising-prefix m (x ∷ xs) ys h = (h.0, IsRising-prefix x.seq xs ys h.1)

  le-last_of : (m : ℤ) (xs : List (Delta P)) → IsRising m xs → m ≤ℤ last_of m xs
  le-last_of m [] h = omega arith
  le-last_of m (x ∷ xs) h = omega (arith, h.0, le-last_of x.seq xs h.1)

  -- Nothing comes after a number that the deltas do not pass.
  after-low : (n m : ℤ) (xs : List (Delta P)) → IsRising m xs → last_of m xs ≤ℤ n → after n xs ≡ []
  after-low n m [] h k = refl
  after-low n m (x ∷ xs) h k =
      let rest = after-low n x.seq xs h.1 k in ground (arith, rest, le-last_of x.seq xs h.1)

  after-all : (n m : ℤ) (xs : List (Delta P)) → IsRising m xs → n ≤ℤ m → after n xs ≡ xs
  after-all n m [] h k = refl
  after-all n m (x ∷ xs) h k =
      let low : n ≤ℤ x.seq = omega (arith, h.0, k) in
      ground (arith, after-all n x.seq xs h.1 low, h.0)

  drop-length : (xs ys : List (Delta P)) → drop (length xs) (xs ++ ys) ≡ ys
  drop-length [] ys = refl
  drop-length (x ∷ xs) ys = drop-length xs ys

  -- The loop finds the first delta after the number.
  start_from-after :
      (n m : ℤ) (ys xs : List (Delta P))
      → IsRising m xs
      → m ≤ℤ n
      → n <ℤ last_of m xs
      → drop (start_from (length ys) n xs) (ys ++ xs) ≡ after n xs
  unfolding start_from
  start_from-after n m ys [] h k p = absurd (omega arith)
  start_from-after n m ys (x ∷ xs) h k p = elim (Bool-cases (ltb_ℤ n x.seq)) [
    | inl here ↦
        let rest = after-all n x.seq xs h.1 (omega (arith, ltb_ℤ→<ℤ n x.seq here)) in
        rw here (drop-length ys (x ∷ xs) ∙ ap (λ ds. x ∷ ds) (sym rest))
    | inr further ↦
        let next = start_from-after n x.seq (ys ++ x ∷ []) xs h.1 (ltb_ℤ→≥ℤ n x.seq further) p in
        let len : length (ys ++ x ∷ []) ≡ suc (length ys) =
          omega (arith, length-append ys (x ∷ [])) in
        rw further (
          subst (λ zs. drop (start_from (suc (length ys)) n xs) zs ≡ after n xs)
            (append_assoc ys (x ∷ []) xs)
            (subst (λ k. drop (start_from k n xs) ((ys ++ x ∷ []) ++ xs) ≡ after n xs) len next))
  ]

  grown :
      (history items : List (Delta P)) (b : ResumeBuffer P) (d : Delta P) (lost : List (Delta P))
      → Keeps history b
      → b.last_seq <ℤ d.seq
      → history ++ d ∷ [] ≡ lost ++ items
      → length items ≤ b.cap
      → (length items ≡ b.cap) ⊎ (lost ≡ [])
      → Keeps (history ++ d ∷ []) (record b { items = items; last_seq = d.seq })
  grown history items b d lost v h p q f = record {
    lost = lost;
    split = p;
    rising = IsRising-snoc (pos 0) history d v.rising (subst (λ m. m <ℤ d.seq) v.last h);
    last = sym (last_of-snoc (pos 0) history d);
    room = v.room;
    bound = q;
    full = f;
  }

  -- A full buffer passes its first item to the lost ones.
  shifted :
      (lost items : List (Delta P)) (d : Delta P)
      → 1 ≤ length items
      → (lost' : List (Delta P)) × ((lost ++ items) ++ d ∷ [] ≡ lost' ++ (drop 1 items ++ d ∷ []))
        × (length (drop 1 items ++ d ∷ []) ≡ length items)
  shifted lost [] d h = absurd (omega arith)
  shifted lost (x ∷ xs) d h = (
    lost ++ x ∷ [],
    append_assoc lost (x ∷ xs) (d ∷ []) ∙ sym (append_assoc lost (x ∷ []) (xs ++ d ∷ [])),
    omega (arith, length-append xs (d ∷ [])),
  )

  add-full :
      (b b' : ResumeBuffer P) (d : Delta P)
      → length b.items ≡ b.cap
      → add b d ≡ ok b'
      → (b.last_seq <ℤ d.seq)
        × (b' ≡ record b { items = drop 1 b.items ++ d ∷ []; last_seq = d.seq })
  unfolding add
  add-full b b' d f h = ground arith

  add-room :
      (b b' : ResumeBuffer P) (d : Delta P)
      → (length b.items == b.cap) ≡ false
      → add b d ≡ ok b'
      → (b.last_seq <ℤ d.seq) × (b' ≡ record b { items = b.items ++ d ∷ []; last_seq = d.seq })
  unfolding add
  add-room b b' d f h = ground arith

  add-Keeps :
      (history : List (Delta P)) (b b' : ResumeBuffer P) (d : Delta P)
      → Keeps history b
      → add b d ≡ ok b'
      → Keeps (history ++ d ∷ []) b'
  add-Keeps history b b' d v h = elim (Bool-cases (length b.items == b.cap)) [
    | inl full ↦
        let f : length b.items ≡ b.cap = ground arith in
        let (above, same) = add-full b b' d f h in
        let (lost, split, len) = shifted v.lost b.items d (omega (arith, v.room, f)) in
        subst (Keeps (history ++ d ∷ [])) (sym same) (
          grown history (drop 1 b.items ++ d ∷ []) b d lost v above
            (ap (λ xs. xs ++ d ∷ []) v.split ∙ split) (omega (arith, len, f)) (inl (len ∙ f)))
    | inr free ↦
        let (above, same) = add-room b b' d free h in
        let kept : v.lost ≡ [] = ground (arith, v.full) in
        let len = length-append b.items (d ∷ []) in
        let fits : length b.items < b.cap = ground (arith, v.bound) in
        subst (Keeps (history ++ d ∷ [])) (sym same) (
          grown history (b.items ++ d ∷ []) b d [] v above
            (ap (λ xs. xs ++ d ∷ []) (v.split ∙ ap (λ xs. xs ++ b.items) kept))
            (omega (arith, len, fits)) (inr refl))
  ]

  new-Keeps : (capacity : ℤ) → Keeps {P = P} [] (new_resume_buffer capacity)
  unfolding new_resume_buffer
  new-Keeps capacity = record {
    lost = [];
    split = refl;
    rising = tt;
    last = refl;
    room = ground arith;
    bound = omega arith;
    full = inr refl;
  }

  add_all-Keeps :
      (ds history : List (Delta P)) (b b' : ResumeBuffer P)
      → Keeps history b
      → add_all b ds ≡ ok b'
      → Keeps (history ++ ds) b'
  unfolding add_all
  add_all-Keeps [] history b b' v h =
      subst (λ xs. Keeps xs b') (sym (append-nil history)) (subst (Keeps history) (ground arith) v)
  add_all-Keeps (d ∷ ds) history b b' v h =
      let (m, rest, first) = head_of-ok (λ x. add_all x ds) (add b d) h in
      subst (λ xs. Keeps xs b') (append_assoc history (d ∷ []) ds)
        (add_all-Keeps ds (history ++ d ∷ []) m b' (add-Keeps history b m d v first) rest)

  -- The two ways to get deltas from items.
  resume_from-deltas :
      (b : ResumeBuffer P) (first : Delta P) (rest : List (Delta P)) (n : ℤ) (out : List (Delta P))
      → b.items ≡ first ∷ rest
      → resume_from b n ≡ (out, false)
      → ((b.last_seq ≤ℤ n) × (out ≡ []))
        ⊎ ((n <ℤ b.last_seq)
            × (pos_part first.seq + neg_part n ≤ suc (pos_part n + neg_part first.seq))
            × (out ≡ drop (start_from 0 n b.items) b.items))
  unfolding resume_from
  resume_from-deltas b first rest n out p h = ground (arith, -ℤ_parts first.seq (pos 1))

  resume_from-none :
      (b : ResumeBuffer P) (n : ℤ) (out : List (Delta P))
      → b.items ≡ []
      → resume_from b n ≡ (out, false)
      → out ≡ []
  unfolding resume_from
  resume_from-none b n out p h = ground arith

  after-split :
      (history : List (Delta P)) (b : ResumeBuffer P) (first : Delta P) (rest : List (Delta P))
      (n : ℤ)
      → Keeps history b
      → b.items ≡ first ∷ rest
      → n <ℤ b.last_seq
      → pos_part first.seq + neg_part n ≤ suc (pos_part n + neg_part first.seq)
      → drop (start_from 0 n b.items) b.items ≡ after n history
  after-split history b first rest n v p above near =
      let split : history ≡ v.lost ++ first ∷ rest = v.split ∙ ap (λ xs. v.lost ++ xs) p in
      let rising = subst (IsRising (pos 0)) split v.rising in
      let m = last_of (pos 0) v.lost in
      let tail = IsRising-suffix (pos 0) v.lost (first ∷ rest) rising in
      let low : m ≤ℤ n = omega (arith, tail.0, near) in
      let last : b.last_seq ≡ last_of first.seq rest =
        v.last ∙ ap (last_of (pos 0)) split ∙ last_of-append (pos 0) v.lost (first ∷ rest) in
      let nothing =
        after-low n (pos 0) v.lost (IsRising-prefix (pos 0) v.lost (first ∷ rest) rising) low in
      ap (λ xs. drop (start_from 0 n xs) xs) p
      ∙ start_from-after n m [] (first ∷ rest) tail low (subst (λ k. n <ℤ k) last above)
      ∙ ap (λ xs. xs ++ after n (first ∷ rest)) (sym nothing)
      ∙ sym (select-append (λ d. ltb_ℤ n d.seq) v.lost (first ∷ rest))
      ∙ ap (after n) (sym split)

  -- A client that gets deltas and not a snapshot misses nothing: for a buffer that a run's deltas were
  -- added to, in turn and without an error, and any number, if no snapshot is required then the deltas
  -- returned are exactly the deltas of the run, in order, whose number is greater.
  pub resume_from-after :
      (capacity : ℤ) (history : List (Delta P)) (b : ResumeBuffer P) (n : ℤ) (out : List (Delta P))
      → add_all (new_resume_buffer capacity) history ≡ ok b
      → resume_from b n ≡ (out, false)
      → out ≡ after n history
  unfolding resume_from
  resume_from-after capacity history b n out h r =
      let v = add_all-Keeps history [] (new_resume_buffer capacity) b (new-Keeps capacity) h in
      elim (List-cases b.items) [
        | inl empty ↦
            let kept : v.lost ≡ [] = ground (arith, v.full, v.room) in
            let none_added : history ≡ [] = v.split ∙ ap (λ xs. xs ++ b.items) kept ∙ empty in
            resume_from-none b n out empty r ∙ ap (after n) (sym none_added)
        | inr (first, rest, p) ↦ elim (resume_from-deltas b first rest n out p r) [
          | inl (past, none_left) ↦
              none_left
              ∙ sym (after-low n (pos 0) history v.rising (subst (λ m. m ≤ℤ n) v.last past))
          | inr (above, near, found) ↦ found ∙ after-split history b first rest n v p above near
        ]
      ]
