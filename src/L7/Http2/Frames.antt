-- ===== src/L7/Http2/Frames.antt =====
-- What a frame does hangs neither on the stamps of the state nor on the bytes that wait behind it.
use agentkubenetwork.Base.{
  ℕ, ◌≡◌, refl, ap, subst, ◌∙◌, ltb, ◌==◌, ◌||◌, not, Bool, true, false, List, ◌++◌, map, length,
  Option, none, some, Bytes, Result, ok, err, arith, if◌then◌else◌,
}
use mathlib.Core.Path.{ap₂}
use agentkubenetwork.L7.Types.{ObservationIdentity}
use agentkubenetwork.L7.Http2.{
  FeedError, HeaderBlock, DirectionState, Fed, reset_header_block, decoded, pass_frame, start_block,
  headers_frame, continuation_frame, take_frame, http2_headers_fragment, bit,
}

-- The block without its stamp.
abbrev pub bare : HeaderBlock → ℕ × List (Bytes × Bytes)
bare b = (b.stream_id, b.fields)

-- Two states of a direction that differ in stamps and waiting bytes alone.
pub record Same {D : Type 0} (s t : DirectionState D) : Type 0 where
  pub stream : s.continuation_stream ≡ t.continuation_stream
  pub block : s.continuation_block ≡ t.continuation_block
  pub decoder : s.decoder ≡ t.decoder
  pub max_bytes : s.max_buffered_bytes ≡ t.max_buffered_bytes
  pub max_block : s.max_header_block_bytes ≡ t.max_header_block_bytes

pub record SameFed {D : Type 0} (r q : Fed D) : Type 0 where
  pub state : Same r.0 q.0
  pub blocks : map bare r.1 ≡ map bare q.1
  pub error : r.2 ≡ q.2

module _ {D : Type 0} where
  decoded-Same :
      (s t : DirectionState D) (stream a b : ℕ) (i j : ObservationIdentity)
      (r : D × Option (List (Bytes × Bytes)))
      → Same s t
      → SameFed (decoded s stream a i r) (decoded t stream b j r)
  unfolding decoded
  decoded-Same s t stream a b i j (d, none) v = record {
    state = record {
      stream = v.stream;
      block = v.block;
      decoder = refl;
      max_bytes = v.max_bytes;
      max_block = v.max_block;
    };
    blocks = refl;
    error = refl;
  }
  decoded-Same s t stream a b i j (d, some fields) v = record {
    state = record {
      stream = v.stream;
      block = v.block;
      decoder = refl;
      max_bytes = v.max_bytes;
      max_block = v.max_block;
    };
    blocks = refl;
    error = refl;
  }

  decoded_at :
      (s t : DirectionState D) (stream a b : ℕ) (i j : ObservationIdentity)
      (r q : D × Option (List (Bytes × Bytes)))
      → r ≡ q
      → Same s t
      → SameFed (decoded s stream a i r) (decoded t stream b j q)
  decoded_at s t stream a b i j r q e v =
      subst (λ x. SameFed (decoded s stream a i r) (decoded t stream b j x)) e
        (decoded-Same s t stream a b i j r v)

  reset-Same :
      (s t : DirectionState D) → Same s t → Same (reset_header_block s) (reset_header_block t)
  unfolding reset_header_block
  reset-Same s t v = record {
    stream = refl;
    block = refl;
    decoder = v.decoder;
    max_bytes = v.max_bytes;
    max_block = v.max_block;
  }

  pub Same-trans : (s t u : DirectionState D) → Same s t → Same t u → Same s u
  Same-trans s t u v w = record {
    stream = v.stream ∙ w.stream;
    block = v.block ∙ w.block;
    decoder = v.decoder ∙ w.decoder;
    max_bytes = v.max_bytes ∙ w.max_bytes;
    max_block = v.max_block ∙ w.max_block;
  }

  -- Two choices by tests that agree.
  if-SameFed :
      (b c : Bool) (x y x' y' : Fed D)
      → b ≡ c
      → SameFed x x'
      → SameFed y y'
      → SameFed (if b then x else y) (if c then x' else y')
  if-SameFed true true x y x' y' e h k = h
  if-SameFed false false x y x' y' e h k = k
  if-SameFed true false x y x' y' e h k = absurd (cc)
  if-SameFed false true x y x' y' e h k = absurd (cc)

  pub pass_frame-Same :
      (s t : DirectionState D) (n m a b : ℕ) (i j : ObservationIdentity)
      → Same s t
      → Same (pass_frame s n a i) (pass_frame t m b j)
  unfolding pass_frame
  pass_frame-Same s t n m a b i j v = record {
    stream = ground (arith, v.stream);
    block = ground (arith, v.block);
    decoder = ground (arith, v.decoder);
    max_bytes = ground (arith, v.max_bytes);
    max_block = ground (arith, v.max_block);
  }

module _ {D : Type 0} (decode : D → Bytes → D × Option (List (Bytes × Bytes))) where
  start_block-Same :
      (s t : DirectionState D) (flags stream a b : ℕ) (i j : ObservationIdentity)
      (r : Result FeedError Bytes)
      → Same s t
      → SameFed (start_block decode s flags stream a i r) (start_block decode t flags stream b j r)
  unfolding start_block
  start_block-Same s t flags stream a b i j (err e) v = record {
    state = v;
    blocks = refl;
    error = refl;
  }
  start_block-Same s t flags stream a b i j (ok block) v =
      if-SameFed (ltb s.max_header_block_bytes (length block))
        (ltb t.max_header_block_bytes (length block)) _ _ _ _
        (ap (λ m. ltb m (length block)) v.max_block)
        (record { state = v; blocks = refl; error = refl })
        (if-SameFed (bit flags 4) (bit flags 4) _ _ _ _ refl
          (decoded_at s t stream a b i j _ _ (ap (λ d. decode d block) v.decoder) v)
          (record {
            state = record {
              stream = refl;
              block = refl;
              decoder = v.decoder;
              max_bytes = v.max_bytes;
              max_block = v.max_block;
            };
            blocks = refl;
            error = refl;
          }))

  headers_frame-Same :
      (s t : DirectionState D) (flags stream : ℕ) (payload : Bytes) (a b : ℕ)
      (i j : ObservationIdentity)
      → Same s t
      → SameFed
          (headers_frame decode s flags stream payload a i)
          (headers_frame decode t flags stream payload b j)
  unfolding headers_frame
  headers_frame-Same s t flags stream payload a b i j v =
      if-SameFed (stream == 0 || not (s.continuation_stream == 0))
        (stream == 0 || not (t.continuation_stream == 0)) _ _ _ _
        (ap (λ c. stream == 0 || not (c == 0)) v.stream)
        (record { state = reset-Same s t v; blocks = refl; error = refl })
        (start_block-Same s t flags stream a b i j (http2_headers_fragment payload flags) v)

  continuation_frame-Same :
      (s t : DirectionState D) (flags stream : ℕ) (payload : Bytes)
      → Same s t
      → SameFed
          (continuation_frame decode s flags stream payload)
          (continuation_frame decode t flags stream payload)
  unfolding continuation_frame
  continuation_frame-Same s t flags stream payload v =
      let reset = reset-Same s t v in
      let whole : s.continuation_block ++ payload ≡ t.continuation_block ++ payload =
        ap (λ b. b ++ payload) v.block in
      if-SameFed (stream == 0 || not (stream == s.continuation_stream))
        (stream == 0 || not (stream == t.continuation_stream)) _ _ _ _
        (ap (λ c. stream == 0 || not (stream == c)) v.stream)
        (record { state = reset; blocks = refl; error = refl })
        (if-SameFed (ltb s.max_header_block_bytes (length (s.continuation_block ++ payload)))
          (ltb t.max_header_block_bytes (length (t.continuation_block ++ payload))) _ _ _ _
          (ap₂ (λ m (c : Bytes). ltb m (length c)) v.max_block whole)
          (record { state = reset; blocks = refl; error = refl })
          (if-SameFed (bit flags 4) (bit flags 4) _ _ _ _ refl
            (decoded_at (reset_header_block s) (reset_header_block t) stream s.continuation_started
              t.continuation_started s.continuation_identity t.continuation_identity _ _
              (ap₂ decode v.decoder whole) reset)
            (record {
              state = record {
                stream = v.stream;
                block = whole;
                decoder = v.decoder;
                max_bytes = v.max_bytes;
                max_block = v.max_block;
              };
              blocks = refl;
              error = refl;
            })))

  take_frame-Same :
      (s t : DirectionState D) (type flags stream : ℕ) (payload : Bytes) (a b : ℕ)
      (i j : ObservationIdentity)
      → Same s t
      → SameFed
          (take_frame decode s type flags stream payload a i)
          (take_frame decode t type flags stream payload b j)
  unfolding take_frame
  take_frame-Same s t type flags stream payload a b i j v =
      if-SameFed (type == 1) (type == 1) _ _ _ _ refl
        (headers_frame-Same s t flags stream payload a b i j v)
        (if-SameFed (type == 9) (type == 9) _ _ _ _ refl
          (continuation_frame-Same s t flags stream payload v)
          (record { state = v; blocks = refl; error = refl }))

  pub take_frame_at :
      (s t : DirectionState D) (type flags stream type' flags' stream' : ℕ)
      (payload payload' : Bytes) (a b : ℕ) (i j : ObservationIdentity)
      → type' ≡ type
      → flags' ≡ flags
      → stream' ≡ stream
      → payload' ≡ payload
      → Same s t
      → SameFed
          (take_frame decode s type flags stream payload a i)
          (take_frame decode t type' flags' stream' payload' b j)
  take_frame_at s t type flags stream type' flags' stream' payload payload' a b i j e f g h v =
      rw (e, f, g, h) (take_frame-Same s t type flags stream payload a b i j v)
