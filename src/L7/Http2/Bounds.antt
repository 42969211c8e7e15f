-- ===== src/L7/Http2/Bounds.antt =====
-- What a direction holds stays within its bounds, and its loop over frames ends.
use agentkubenetwork.Base.{
  ℕ, zero, suc, ◌+◌, ◌≤◌, ◌<◌, ◌≡◌, ◌≢◌, refl, ap, ◌∙◌, ltb, ◌||◌, if_cases, Bool, true, List, [],
  ◌∷◌, ◌++◌, length, length-append, length-drop, drop, Option, none, some, Bytes, Result, ok, err,
  arith,
}
use agentkubenetwork.L7.Types.{Fragment, ObservationIdentity, identity_from}
use agentkubenetwork.L7.Http2.{
  FeedError, stuck, DirectionState, Fed, reset_header_block, reset_frame_state, decoded, pass_frame,
  start_block, headers_frame, continuation_frame, take_frame, and_then, frame_size, frame_round,
  frames_from, feed_frames, buffered, feed, http2_headers_fragment, without_priority, unpad,
}

-- Waiting bytes and an unfinished header block are within their bounds.
pub record Fits {D : Type 0} (s : DirectionState D) : Type 0 where
  pub bytes : length s.buffer ≤ s.max_buffered_bytes
  pub block : length s.continuation_block ≤ s.max_header_block_bytes

-- What a frame leaves: the bytes behind it, the bounds, and no error of the fuel.
pub record Kept {D : Type 0} (s : DirectionState D) (r : Fed D) : Type 0 where
  pub buffer : r.0.buffer ≡ s.buffer
  pub max_bytes : r.0.max_buffered_bytes ≡ s.max_buffered_bytes
  pub max_block : r.0.max_header_block_bytes ≡ s.max_header_block_bytes
  pub block :
      length s.continuation_block ≤ s.max_header_block_bytes
      → length r.0.continuation_block ≤ s.max_header_block_bytes
  pub settled : r.2 ≢ some stuck

-- The fragment of a headers frame does not run out of fuel.
http2_headers_fragment_settled :
    (payload : Bytes) (flags : ℕ) → http2_headers_fragment payload flags ≢ err stuck
unfolding http2_headers_fragment without_priority unpad
http2_headers_fragment_settled [] flags = λ e. ground (arith, e)
http2_headers_fragment_settled (b ∷ bs) flags = λ e. ground (arith, e)

module _ {D : Type 0} where
  decoded-Kept :
      (s : DirectionState D) (stream started : ℕ) (identity : ObservationIdentity)
      (r : D × Option (List (Bytes × Bytes)))
      → Kept s (decoded s stream started identity r)
  unfolding decoded
  decoded-Kept s stream started identity (d, none) = record {
    buffer = refl;
    max_bytes = refl;
    max_block = refl;
    block = λ h. h;
    settled = λ e. cc;
  }
  decoded-Kept s stream started identity (d, some fields) = record {
    buffer = refl;
    max_bytes = refl;
    max_block = refl;
    block = λ h. h;
    settled = λ e. cc;
  }

module _ {D : Type 0} (decode : D → Bytes → D × Option (List (Bytes × Bytes))) where
  start_block-Kept :
      (s : DirectionState D) (flags stream started : ℕ) (identity : ObservationIdentity)
      (r : Result FeedError Bytes)
      → r ≢ err stuck
      → Kept s (start_block decode s flags stream started identity r)
  unfolding start_block
  start_block-Kept s flags stream started identity (err e) h = record {
    buffer = refl;
    max_bytes = refl;
    max_block = refl;
    block = λ h. h;
    settled = λ g. h (ground (arith, g));
  }
  start_block-Kept s flags stream started identity (ok block) h =
      let d = decoded-Kept s stream started identity (decode s.decoder block) in
      record {
        buffer = ground (arith, d.buffer);
        max_bytes = ground (arith, d.max_bytes);
        max_block = ground (arith, d.max_block);
        block = λ h. ground (arith, d.block h);
        settled = λ g. ground (arith, d.settled, g);
      }

  headers_frame-Kept :
      (s : DirectionState D) (flags stream : ℕ) (payload : Bytes) (started : ℕ)
      (identity : ObservationIdentity)
      → Kept s (headers_frame decode s flags stream payload started identity)
  unfolding headers_frame reset_header_block
  headers_frame-Kept s flags stream payload started identity =
      let b =
        start_block-Kept s flags stream started identity (http2_headers_fragment payload flags)
          (http2_headers_fragment_settled payload flags) in
      record {
        buffer = ground (arith, b.buffer);
        max_bytes = ground (arith, b.max_bytes);
        max_block = ground (arith, b.max_block);
        block = λ h. ground (arith, b.block h);
        settled = λ g. ground (arith, b.settled, g);
      }

  continuation_frame-Kept :
      (s : DirectionState D) (flags stream : ℕ) (payload : Bytes)
      → Kept s (continuation_frame decode s flags stream payload)
  unfolding continuation_frame reset_header_block
  continuation_frame-Kept s flags stream payload =
      let d =
        decoded-Kept (reset_header_block s) stream s.continuation_started s.continuation_identity
          (decode s.decoder (s.continuation_block ++ payload)) in
      record {
        buffer = ground (arith, d.buffer);
        max_bytes = ground (arith, d.max_bytes);
        max_block = ground (arith, d.max_block);
        block = λ h. ground (arith, d.block (omega arith));
        settled = λ g. ground (arith, d.settled, g);
      }

  pub take_frame-Kept :
      (s : DirectionState D) (type flags stream : ℕ) (payload : Bytes) (started : ℕ)
      (identity : ObservationIdentity)
      → Kept s (take_frame decode s type flags stream payload started identity)
  unfolding take_frame
  take_frame-Kept s type flags stream payload started identity =
      let h = headers_frame-Kept s flags stream payload started identity in
      let k = continuation_frame-Kept s flags stream payload in
      record {
        buffer = ground (arith, h.buffer, k.buffer);
        max_bytes = ground (arith, h.max_bytes, k.max_bytes);
        max_block = ground (arith, h.max_block, k.max_block);
        block = λ b. ground (arith, h.block b, k.block b);
        settled = λ g. ground (arith, h.settled, k.settled, g);
      }

-- No complete frame waits.
abbrev pub is_drained : Bytes → Bool
is_drained b = ltb (length b) 9 || ltb (length b) (9 + frame_size b)

-- What the loop leaves, for the two bounds of the direction.
pub record Drained {D : Type 0} (max_bytes max_block : ℕ) (r : Fed D) : Type 0 where
  pub same_bytes : r.0.max_buffered_bytes ≡ max_bytes
  pub same_block : r.0.max_header_block_bytes ≡ max_block
  pub fits : Fits r.0
  pub settled : r.2 ≢ some stuck
  pub drained : r.2 ≡ none → is_drained r.0.buffer ≡ true

record Ready {D : Type 0} (max_bytes max_block : ℕ) (s : DirectionState D) : Type 0 where
  same_bytes : s.max_buffered_bytes ≡ max_bytes
  same_block : s.max_header_block_bytes ≡ max_block
  fits : Fits s

module _ {D : Type 0} (decode : D → Bytes → D × Option (List (Bytes × Bytes)))
    (max_bytes max_block : ℕ) where
  -- A frame without an error leaves a state for the rest of the loop; an error ends it.
  and_then-Drained :
      (s : DirectionState D) (r : Fed D) (next : DirectionState D → Fed D)
      → Ready max_bytes max_block s
      → Kept s r
      → ((t : DirectionState D)
          → t.buffer ≡ s.buffer
          → Ready max_bytes max_block t
          → Drained max_bytes max_block (next t))
      → Drained max_bytes max_block (and_then r next)
  and_then-Drained s (t, blocks, some e) next v k later = record {
    same_bytes = k.max_bytes ∙ v.same_bytes;
    same_block = k.max_block ∙ v.same_block;
    fits = record {
      bytes = ground (arith, k.buffer, k.max_bytes, v.fits.bytes);
      block = ground (arith, k.block v.fits.block, k.max_block);
    };
    settled = k.settled;
    drained = λ h. absurd (cc);
  }
  and_then-Drained s (t, blocks, none) next v k later =
      let d = later t k.buffer (record {
        same_bytes = k.max_bytes ∙ v.same_bytes;
        same_block = k.max_block ∙ v.same_block;
        fits = record {
          bytes = ground (arith, k.buffer, k.max_bytes, v.fits.bytes);
          block = ground (arith, k.block v.fits.block, k.max_block);
        };
      }) in
      record {
        same_bytes = d.same_bytes;
        same_block = d.same_block;
        fits = d.fits;
        settled = d.settled;
        drained = d.drained;
      }

  pass_frame-Ready :
      (s : DirectionState D) (size now : ℕ) (identity : ObservationIdentity)
      → Ready max_bytes max_block s
      → Ready max_bytes max_block (pass_frame s size now identity)
        × ((pass_frame s size now identity).buffer ≡ drop (9 + size) s.buffer)
  unfolding pass_frame
  pass_frame-Ready s size now identity v =
      let shorter = length-drop (9 + size) s.buffer in
      (
        record {
          same_bytes = ground (arith, v.same_bytes);
          same_block = ground (arith, v.same_block);
          fits = record {
            bytes = ground (arith, v.fits.bytes, shorter);
            block = ground (arith, v.fits.block);
          };
        },
        ground arith,
      )

  frame_round-Drained :
      (s : DirectionState D) (now : ℕ) (identity : ObservationIdentity)
      (next : DirectionState D → Fed D)
      → Ready max_bytes max_block s
      → ((t : DirectionState D)
          → length t.buffer + 9 ≤ length s.buffer
          → Ready max_bytes max_block t
          → Drained max_bytes max_block (next t))
      → Drained max_bytes max_block (frame_round decode s now identity next)
  unfolding frame_round reset_frame_state
  frame_round-Drained s now identity next v later =
      let P = Drained {D = D} max_bytes max_block in
      let size = frame_size s.buffer in
      let stop : is_drained s.buffer ≡ true → P (s, [], none) = λ e. record {
        same_bytes = v.same_bytes;
        same_block = v.same_block;
        fits = v.fits;
        settled = λ g. cc;
        drained = λ g. e;
      } in
      if_cases P (ltb (length s.buffer) 9) (λ short. stop (ground (arith, short)))
        (λ long.
          if_cases P (ltb s.max_buffered_bytes size)
            (λ big. record {
              same_bytes = v.same_bytes;
              same_block = v.same_block;
              fits = record { bytes = omega arith; block = omega arith };
              settled = λ g. cc;
              drained = λ g. absurd (cc);
            })
            (λ small.
              if_cases P (ltb (length s.buffer) (9 + size)) (λ waits. stop (ground (arith, waits)))
                (λ whole.
                  let passed = pass_frame-Ready s size now identity v in
                  let behind = length-drop (9 + size) s.buffer in
                  and_then-Drained (pass_frame s size now identity) _ next passed.0
                    (take_frame-Kept decode (pass_frame s size now identity) _ _ _ _ _ _)
                    (λ t same w.
                      later t (ground (arith, long, whole, behind, ap length (same ∙ passed.1)))
                        w))))

  frames_from-Drained :
      (fuel : ℕ) (s : DirectionState D) (now : ℕ) (identity : ObservationIdentity)
      → length s.buffer < fuel
      → Ready max_bytes max_block s
      → Drained max_bytes max_block (frames_from decode fuel s now identity)
  unfolding frames_from
  frames_from-Drained zero s now identity h v = absurd (omega (arith, h))
  frames_from-Drained (suc fuel) s now identity h v =
      frame_round-Drained s now identity (λ t. frames_from decode fuel t now identity) v
        (λ t shorter w. frames_from-Drained fuel t now identity (omega (arith, h, shorter)) w)

  feed_frames-Drained :
      (s : DirectionState D) (now : ℕ) (identity : ObservationIdentity)
      → Ready max_bytes max_block s
      → Drained max_bytes max_block (feed_frames decode s now identity)
  unfolding feed_frames
  feed_frames-Drained s now identity v =
      frames_from-Drained (suc (length s.buffer)) s now identity (omega arith) v

module _ {D : Type 0} (decode : D → Bytes → D × Option (List (Bytes × Bytes))) where
  buffered-Ready :
      (s : DirectionState D) (payload : Bytes) (now : ℕ) (identity : ObservationIdentity)
      → Fits s
      → length s.buffer + length payload ≤ s.max_buffered_bytes
      → Ready s.max_buffered_bytes s.max_header_block_bytes (buffered s payload now identity)
  unfolding buffered
  buffered-Ready s payload now identity v h =
      let longer = length-append s.buffer payload in
      record {
        same_bytes = ground arith;
        same_block = ground arith;
        fits = record { bytes = ground (arith, h, longer); block = ground (arith, v.block) };
      }

  -- Whatever is received: the bytes that wait and the unfinished header block stay within their bounds,
  -- the loop over the frames ends, and without an error no complete frame is left waiting.
  pub feed-Drained :
      (s : DirectionState D) (payload : Bytes) (now : ℕ) (f : Fragment)
      → Fits s
      → Drained s.max_buffered_bytes s.max_header_block_bytes (feed decode s payload now f)
  unfolding feed reset_frame_state
  feed-Drained s payload now f v =
      if_cases (Drained s.max_buffered_bytes s.max_header_block_bytes)
        (ltb s.max_buffered_bytes (length s.buffer + length payload))
        (λ over. record {
          same_bytes = refl;
          same_block = refl;
          fits = record { bytes = omega arith; block = omega arith };
          settled = λ g. cc;
          drained = λ g. absurd (cc);
        })
        (λ fits.
          feed_frames-Drained decode s.max_buffered_bytes s.max_header_block_bytes
            (buffered s payload now (identity_from f)) now (identity_from f)
            (buffered-Ready s payload now (identity_from f) v (ground (arith, fits))))
