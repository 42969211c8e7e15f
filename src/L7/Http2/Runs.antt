-- ===== src/L7/Http2/Runs.antt =====
-- The loop over frames, run over some bytes and over those bytes and more.
use mathlib.Core.List.{map-append}
use mathlib.Core.Path.{ap₂}
use agentkubenetwork.Base.{
  ℕ, zero, suc, ◌+◌, ◌≤◌, ◌<◌, ◌≡◌, refl, sym, ap, subst, ◌∙◌, List, [], ◌++◌, append_assoc,
  append-nil, map, length, length-drop, drop, drop_within, Option, none, some, Bytes, arith, inl,
  inr,
}
use agentkubenetwork.L7.Types.{ObservationIdentity}
use agentkubenetwork.L7.Http2.{
  DirectionState, Fed, reset_frame_state, and_then, frame_size, frames_from,
}
use agentkubenetwork.L7.Http2.Frames.{bare, Same, SameFed, Same-trans}
use agentkubenetwork.L7.Http2.Turns.{
  Takes, Fails, Waits, turns, frame_round-Waits, frame_round-Fails, frame_round-Takes, first_frame,
  first_frame_buffer, first_frame_max, Takes-append, Fails-append, first_frame-Same,
  frame_size-append,
}

-- Two runs that differ in stamps alone.
record SameRun {D : Type 0} (r q : Fed D) : Type 0 where
  fed : SameFed r q
  buffer : r.0.buffer ≡ q.0.buffer

module _ {D : Type 0} where
  Same-sym : (s t : DirectionState D) → Same s t → Same t s
  Same-sym s t v = record {
    stream = sym v.stream;
    block = sym v.block;
    decoder = sym v.decoder;
    max_bytes = sym v.max_bytes;
    max_block = sym v.max_block;
  }

  run_at : (r r' q q' : Fed D) → r ≡ r' → q ≡ q' → SameRun r' q' → SameRun r q
  run_at r r' q q' e f h = subst (λ x. SameRun r x) (sym f) (subst (λ x. SameRun x q') (sym e) h)

  and_then-SameRun :
      (r q : Fed D) (next next' : DirectionState D → Fed D)
      → SameFed r q
      → r.0.buffer ≡ q.0.buffer
      → (Same r.0 q.0 → SameRun (next r.0) (next' q.0))
      → SameRun (and_then r next) (and_then q next')
  and_then-SameRun (s, bs, none) (t, cs, none) next next' v e later =
      let w = later v.state in
      record {
        fed = record {
          state = w.fed.state;
          blocks =
              map-append bare bs (next s).1
              ∙ ap₂ (◌++◌) v.blocks w.fed.blocks
              ∙ sym (map-append bare cs (next' t).1);
          error = w.fed.error;
        };
        buffer = w.buffer;
      }
  and_then-SameRun (s, bs, some x) (t, cs, some y) next next' v e later = record {
    fed = v;
    buffer = e;
  }
  and_then-SameRun (s, bs, none) (t, cs, some y) next next' v e later = absurd (cc (v.error))
  and_then-SameRun (s, bs, some x) (t, cs, none) next next' v e later = absurd (cc (v.error))

  reset_frame_state-Same :
      (s t : DirectionState D) → Same s t → Same (reset_frame_state s) (reset_frame_state t)
  unfolding reset_frame_state
  reset_frame_state-Same s t v = record {
    stream = refl;
    block = refl;
    decoder = v.decoder;
    max_bytes = v.max_bytes;
    max_block = v.max_block;
  }

  reset_frame_state_buffer : (s : DirectionState D) → (reset_frame_state s).buffer ≡ []
  unfolding reset_frame_state
  reset_frame_state_buffer s = refl

  -- A property of the bound and the waiting bytes passes from one state to the other.
  carry :
      (P : ℕ → Bytes → Type 0) (s t : DirectionState D)
      → s.max_buffered_bytes ≡ t.max_buffered_bytes
      → s.buffer ≡ t.buffer
      → P s.max_buffered_bytes s.buffer
      → P t.max_buffered_bytes t.buffer
  carry P s t e f h = subst (λ b. P t.max_buffered_bytes b) f (subst (λ m. P m s.buffer) e h)

module _ {D : Type 0} (decode : D → Bytes → D × Option (List (Bytes × Bytes))) where
  -- Stamps and fuel do not matter, while the fuel is enough.
  frames_from-SameRun :
      (k n : ℕ) (s t : DirectionState D) (a b : ℕ) (i j : ObservationIdentity)
      → Same s t
      → s.buffer ≡ t.buffer
      → length s.buffer < k
      → length t.buffer < n
      → SameRun (frames_from decode k s a i) (frames_from decode n t b j)
  unfolding frames_from
  frames_from-SameRun zero n s t a b i j v e h g = absurd (omega (arith, h))
  frames_from-SameRun (suc k) zero s t a b i j v e h g = absurd (omega (arith, g))
  frames_from-SameRun (suc k) (suc n) s t a b i j v e h g =
      let next = λ (u : DirectionState D). frames_from decode k u a i in
      let next' = λ (u : DirectionState D). frames_from decode n u b j in
      elim (turns s.max_buffered_bytes s.buffer) [
        | inl w ↦
            run_at _ _ _ _ (frame_round-Waits decode s a i next w)
              (frame_round-Waits decode t b j next' (carry Waits s t v.max_bytes e w))
              (record { fed = record { state = v; blocks = refl; error = refl }; buffer = e })
        | inr (inl f) ↦
            run_at _ _ _ _ (frame_round-Fails decode s a i next f)
              (frame_round-Fails decode t b j next' (carry Fails s t v.max_bytes e f))
              (record {
                fed = record { state = reset_frame_state-Same s t v; blocks = refl; error = refl };
                buffer = reset_frame_state_buffer s ∙ sym (reset_frame_state_buffer t);
              })
        | inr (inr f) ↦
            let left = first_frame_buffer decode s a i in
            let right = first_frame_buffer decode t b j in
            let same : (first_frame decode s a i).0.buffer ≡ (first_frame decode t b j).0.buffer =
              left ∙ ap (λ (x : Bytes). drop (9 + frame_size x) x) e ∙ sym right in
            let shorter = length-drop (9 + frame_size s.buffer) s.buffer in
            run_at _ _ _ _ (frame_round-Takes decode s a i next f)
              (frame_round-Takes decode t b j next' (carry Takes s t v.max_bytes e f))
              (and_then-SameRun (first_frame decode s a i) (first_frame decode t b j) next next'
                (first_frame-Same decode s t [] a b i j v (sym e ∙ sym (append-nil s.buffer)) f)
                same
                (λ w.
                  frames_from-SameRun k n _ _ a b i j w same
                    (omega (arith, h, f.long, ap length left, shorter))
                    (omega
                      (arith, h, g, f.long, ap length left, shorter, ap length same, ap length e))))
      ]

  -- A run over some bytes, and one over those bytes and more that ended without an error: the first
  -- had none, and every run over what it left and the rest makes up for the difference.
  pub record Splits (more : Bytes) (size max : ℕ) (r q : Fed D) : Type 0 where
    pub fine : r.2 ≡ none
    pub bound : r.0.max_buffered_bytes ≡ max
    pub shorter : length r.0.buffer ≤ size
    pub rest :
        (k now : ℕ) (i : ObservationIdentity) (u : DirectionState D)
        → Same r.0 u
        → u.buffer ≡ r.0.buffer ++ more
        → length u.buffer < k
        → ((frames_from decode k u now i).2 ≡ none)
          × Same (frames_from decode k u now i).0 q.0
          × ((frames_from decode k u now i).0.buffer ≡ q.0.buffer)
          × (map bare (r.1 ++ (frames_from decode k u now i).1) ≡ map bare q.1)

  and_then-Splits :
      (more : Bytes) (size max : ℕ) (r q : Fed D) (next next' : DirectionState D → Fed D)
      → SameFed r q
      → (and_then q next').2 ≡ none
      → ((next' q.0).2 ≡ none → Splits more size max (next r.0) (next' q.0))
      → Splits more size max (and_then r next) (and_then q next')
  and_then-Splits more size max (s, bs, none) (t, cs, none) next next' v h later =
      let w = later h in
      record {
        fine = w.fine;
        bound = w.bound;
        shorter = w.shorter;
        rest = λ k now i u same e g.
            let p = w.rest k now i u same e g in
            (
              p.0,
              p.1,
              p.2,
              ap (map bare) (append_assoc bs (next s).1 (frames_from decode k u now i).1)
                  ∙ map-append bare bs ((next s).1 ++ (frames_from decode k u now i).1)
                  ∙ ap₂ (◌++◌) v.blocks p.3
                  ∙ sym (map-append bare cs (next' t).1),
            );
      }
  and_then-Splits more size max (s, bs, r) (t, cs, some y) next next' v h later = absurd (cc h)
  and_then-Splits more size max (s, bs, some x) (t, cs, none) next next' v h later =
      absurd (cc (v.error))

  Splits-at :
      (more : Bytes) (size max : ℕ) (r r' q q' : Fed D)
      → r ≡ r'
      → q ≡ q'
      → Splits more size max r' q'
      → Splits more size max r q
  Splits-at more size max r r' q q' e f h =
      subst (λ x. Splits more size max r x) (sym f)
        (subst (λ x. Splits more size max x q') (sym e) h)

  Splits-le :
      (more : Bytes) (n m max : ℕ) (r q : Fed D)
      → n ≤ m
      → Splits more n max r q
      → Splits more m max r q
  Splits-le more n m max r q h w = record {
    fine = w.fine;
    bound = w.bound;
    shorter = omega (arith, h, w.shorter);
    rest = w.rest;
  }

  pub frames_from-Splits :
      (more : Bytes) (k n : ℕ) (s t : DirectionState D) (a b : ℕ) (i j : ObservationIdentity)
      → Same s t
      → t.buffer ≡ s.buffer ++ more
      → length s.buffer < k
      → length t.buffer < n
      → (frames_from decode n t b j).2 ≡ none
      → Splits more
          (length s.buffer)
          s.max_buffered_bytes
          (frames_from decode k s a i)
          (frames_from decode n t b j)
  unfolding frames_from
  frames_from-Splits more zero n s t a b i j v e h g ends = absurd (omega (arith, h))
  frames_from-Splits more (suc k) zero s t a b i j v e h g ends = absurd (omega (arith, g))
  frames_from-Splits more (suc k) (suc n) s t a b i j v e h g ends =
      let next = λ (u : DirectionState D). frames_from decode k u a i in
      let next' = λ (u : DirectionState D). frames_from decode n u b j in
      let bound = s.max_buffered_bytes in
      elim (turns bound s.buffer) [
        | inl w ↦
            subst
              (λ (x : Fed D).
                Splits more (length s.buffer) bound x (frames_from decode (suc n) t b j))
              (sym (frame_round-Waits decode s a i next w))
              (record {
                fine = refl;
                bound = refl;
                shorter = omega arith;
                rest = λ m now l u same f enough.
                    let c =
                      frames_from-SameRun m (suc n) u t now b l j
                        (Same-trans u s t (Same-sym s u same) v) (f ∙ sym e) enough g in
                    (c.fed.error ∙ ends, c.fed.state, c.buffer, c.fed.blocks);
              })
        | inr (inl f) ↦
            let fails : Fails t.max_buffered_bytes t.buffer =
              carry' Fails v.max_bytes e (Fails-append bound s.buffer more f) in
            absurd (
              cc
                (sym (ap (λ (x : Fed D). x.2) (frame_round-Fails decode t b j next' fails)) ∙ ends))
        | inr (inr f) ↦
            let takes : Takes t.max_buffered_bytes t.buffer =
              carry' Takes v.max_bytes e (Takes-append bound s.buffer more f) in
            let left = first_frame_buffer decode s a i in
            let right = first_frame_buffer decode t b j in
            let same = first_frame-Same decode s t more a b i j v e f in
            let shorter = length-drop (9 + frame_size s.buffer) s.buffer in
            let shorter' = length-drop (9 + frame_size t.buffer) t.buffer in
            let size : frame_size t.buffer ≡ frame_size s.buffer =
              ap frame_size e ∙ frame_size-append s.buffer more f.long in
            let apart : (first_frame decode t b j).0.buffer
                ≡ (first_frame decode s a i).0.buffer ++ more =
              right
              ∙ ap₂ (λ (n : ℕ) (x : Bytes). drop (9 + n) x) size e
              ∙ drop_within (9 + frame_size s.buffer) s.buffer more f.whole
              ∙ ap (λ x. x ++ more) (sym left) in
            let ends' : (and_then (first_frame decode t b j) next').2 ≡ none =
              ap (λ (x : Fed D). x.2) (sym (frame_round-Takes decode t b j next' takes)) ∙ ends in
            Splits-at more (length s.buffer) bound _ _ _ _ (frame_round-Takes decode s a i next f)
              (frame_round-Takes decode t b j next' takes)
              (and_then-Splits more (length s.buffer) bound (first_frame decode s a i)
                (first_frame decode t b j) next next' same ends'
                (λ z.
                  let ih =
                    frames_from-Splits more k n (first_frame decode s a i).0
                      (first_frame decode t b j).0 a b i j same.state apart
                      (omega (arith, h, f.long, ap length left, shorter))
                      (omega (arith, g, takes.long, ap length right, shorter')) z in
                  let size_left = length (first_frame decode s a i).0.buffer in
                  let r = next (first_frame decode s a i).0 in
                  let q = next' (first_frame decode t b j).0 in
                  Splits-le more size_left (length s.buffer) bound r q
                    (omega (arith, ap length left, shorter))
                    (subst (λ m. Splits more size_left m r q) (first_frame_max decode s a i) ih)))
      ]
    where
      carry' :
          (P : ℕ → Bytes → Type 0)
          → s.max_buffered_bytes ≡ t.max_buffered_bytes
          → t.buffer ≡ s.buffer ++ more
          → P s.max_buffered_bytes (s.buffer ++ more)
          → P t.max_buffered_bytes t.buffer
      carry' P e f h =
          subst (λ b. P t.max_buffered_bytes b) (sym f) (subst (λ m. P m (s.buffer ++ more)) e h)
