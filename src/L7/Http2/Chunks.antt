-- ===== src/L7/Http2/Chunks.antt =====
-- Frames do not depend on how the bytes of a direction were cut into fragments.
use agentkubenetwork.Base.{
  ℕ, suc, ◌+◌, ◌≤◌, ◌≡◌, refl, sym, ap, subst, ◌∙◌, List, ◌++◌, append_assoc, map, length,
  length-append, Option, none, Bytes, arith,
}
use agentkubenetwork.L7.Types.{Fragment, ObservationIdentity, identity_from}
use agentkubenetwork.L7.Http2.{DirectionState, Fed, feed_frames, buffered, feed}
use agentkubenetwork.L7.Http2.Frames.{bare, Same}
use agentkubenetwork.L7.Http2.Runs.{Splits, frames_from-Splits}

module _ {D : Type 0} where
  buffered-Same :
      (s t : DirectionState D) (xs ys : Bytes) (a b : ℕ) (i j : ObservationIdentity)
      → Same s t
      → Same (buffered s xs a i) (buffered t ys b j)
  unfolding buffered
  buffered-Same s t xs ys a b i j v = record {
    stream = ground (arith, v.stream);
    block = ground (arith, v.block);
    decoder = ground (arith, v.decoder);
    max_bytes = ground (arith, v.max_bytes);
    max_block = ground (arith, v.max_block);
  }

  buffered_buffer :
      (s : DirectionState D) (xs : Bytes) (a : ℕ) (i : ObservationIdentity)
      → (buffered s xs a i).buffer ≡ s.buffer ++ xs
  unfolding buffered
  buffered_buffer s xs a i = ground arith

  buffered_max :
      (s : DirectionState D) (xs : Bytes) (a : ℕ) (i : ObservationIdentity)
      → (buffered s xs a i).max_buffered_bytes ≡ s.max_buffered_bytes
  unfolding buffered
  buffered_max s xs a i = ground arith

  Same-buffered :
      (s : DirectionState D) (xs : Bytes) (a : ℕ) (i : ObservationIdentity)
      → Same s (buffered s xs a i)
  unfolding buffered
  Same-buffered s xs a i = record {
    stream = ground arith;
    block = ground arith;
    decoder = ground arith;
    max_bytes = ground arith;
    max_block = ground arith;
  }

  Same-refl : (s : DirectionState D) → Same s s
  Same-refl s = record {
    stream = refl;
    block = refl;
    decoder = refl;
    max_bytes = refl;
    max_block = refl;
  }

module _ {D : Type 0} (decode : D → Bytes → D × Option (List (Bytes × Bytes))) where
  feed_within :
      (s : DirectionState D) (xs : Bytes) (now : ℕ) (f : Fragment)
      → length s.buffer + length xs ≤ s.max_buffered_bytes
      → feed decode s xs now f
        ≡ feed_frames decode (buffered s xs now (identity_from f)) now (identity_from f)
  unfolding feed
  feed_within s xs now f h = ground (arith, h)

  feed_within_of :
      (s : DirectionState D) (xs : Bytes) (now : ℕ) (f : Fragment)
      → (feed decode s xs now f).2 ≡ none
      → length s.buffer + length xs ≤ s.max_buffered_bytes
  unfolding feed
  feed_within_of s xs now f h = ground (arith, h)

  -- What two feeds leave, the first of them `r` and the second of `ys`, against one feed `q`.
  abbrev pub Agrees : Fed D → Fed D → Bytes → ℕ → Fragment → Type 0
  Agrees r q ys c h =
      (r.2 ≡ none)
      × ((feed decode r.0 ys c h).2 ≡ none)
      × (map bare (r.1 ++ (feed decode r.0 ys c h).1) ≡ map bare q.1)
      × Same (feed decode r.0 ys c h).0 q.0
      × ((feed decode r.0 ys c h).0.buffer ≡ q.0.buffer)

  feed_rest :
      (ys : Bytes) (size max c : ℕ) (h : Fragment) (r q : Fed D)
      → Splits decode ys size max r q
      → size + length ys ≤ max
      → Agrees r q ys c h
  unfolding feed_frames
  feed_rest ys size max c h r q w room =
      let i = identity_from h in
      let u = buffered r.0 ys c i in
      let fed = feed_within r.0 ys c h (omega (arith, w.shorter, w.bound, room)) in
      let p =
        w.rest (suc (length u.buffer)) c i u (Same-buffered r.0 ys c i) (buffered_buffer r.0 ys c i)
          (omega arith) in
      (
        w.fine,
        ap (λ (x : Fed D). x.2) fed ∙ p.0,
        ap (λ (x : Fed D). map bare (r.1 ++ x.1)) fed ∙ p.3,
        subst (λ (x : Fed D). Same x.0 q.0) (sym fed) p.1,
        ap (λ (x : Fed D). x.0.buffer) fed ∙ p.2,
      )

  -- Bytes that one fragment may carry without an error may come in two, with any stamps: neither fails,
  -- they complete the same header blocks, with the same fields on the same streams in the same order,
  -- and leave the same bytes, unfinished block and decoder.
  pub feed-feed :
      (s : DirectionState D) (xs ys : Bytes) (a b c : ℕ) (f g h : Fragment)
      → (feed decode s (xs ++ ys) a f).2 ≡ none
      → Agrees (feed decode s xs b g) (feed decode s (xs ++ ys) a f) ys c h
  unfolding feed_frames
  feed-feed s xs ys a b c f g h fine =
      let i = identity_from g in
      let j = identity_from f in
      let room = feed_within_of s (xs ++ ys) a f fine in
      let long = length-append xs ys in
      let whole = feed_within s (xs ++ ys) a f room in
      let first = feed_within s xs b g (omega (arith, room, long)) in
      let u = buffered s xs b i in
      let t = buffered s (xs ++ ys) a j in
      let left = buffered_buffer s xs b i in
      let apart : t.buffer ≡ u.buffer ++ ys =
        buffered_buffer s (xs ++ ys) a j
        ∙ sym (append_assoc s.buffer xs ys)
        ∙ ap (λ x. x ++ ys) (sym left) in
      let w =
        frames_from-Splits decode ys (suc (length u.buffer)) (suc (length t.buffer)) u t b a i j
          (buffered-Same s s xs (xs ++ ys) b a i j (Same-refl s)) apart (omega arith) (omega arith)
          (ap (λ (x : Fed D). x.2) (sym whole) ∙ fine) in
      let rest =
        feed_rest ys (length u.buffer) u.max_buffered_bytes c h (feed_frames decode u b i)
          (feed_frames decode t a j) w
          (omega (
            arith,
            room,
            long,
            ap length left,
            length-append s.buffer xs,
            buffered_max s xs b i,
          )) in
      subst (λ (r : Fed D). Agrees r (feed decode s (xs ++ ys) a f) ys c h) (sym first)
        (subst (λ (q : Fed D). Agrees (feed_frames decode u b i) q ys c h) (sym whole) rest)
