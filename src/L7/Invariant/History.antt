-- ===== src/L7/Invariant/History.antt =====
-- Every fragment keeps the invariant, and so does every capture.
use agentkubenetwork.Base.{
  ◌<◌, ◌≡◌, ◌≢◌, refl, ◌∙◌, ltb, if_cases, List, [], ◌∷◌, ◌++◌, length, ◌⊎◌, inl, inr, Option, none,
  some, Bytes, arith, ◌%◌, ◌&&◌, leb-false,
}
use agentkubenetwork.Base.Map.{get}
use agentkubenetwork.Base.Keyed.{length-put, All-get}
use agentkubenetwork.L7.Types.{Fragment, Output, TransportKey-discrete, DirectionKey-discrete}
use agentkubenetwork.L7.Http1.{parse_http1_request}
use agentkubenetwork.L7.Http2.{DirectionState, feed, poison, new_direction_state}
use agentkubenetwork.L7.Http2.Bounds.{feed-Drained}
use agentkubenetwork.L7.Fields.{make_transport_key}
use agentkubenetwork.L7.Reports.{fragment_timestamp_ns}
use agentkubenetwork.L7.State.{
  Config, Correlator, new_correlator, is_known, is_full, tracked_connections, expire,
}
use agentkubenetwork.L7.Correlator.{
  direction_key, direction_of, state_or, seen, take_direction, take_http2, is_http2, take_fragment,
  process_fragment,
}
use agentkubenetwork.L7.Invariant.{
  IsBounded, IsSafe, new_correlator-IsSafe, expire-IsSafe, take_http1-IsSafe,
}
use agentkubenetwork.L7.Invariant.Streams.{store-IsSafe, poison-IsBounded, take_fed-IsSafe}

module _ {D : Type 0} (new_decoder : D)
    (decode : D → Bytes → D × Option (List (Bytes × Bytes))) where
  direction_of-IsBounded :
      (c : Correlator D) (f : Fragment) (found : Option (DirectionState D))
      → get DirectionKey-discrete (direction_key f) c.http2_directions ≡ found
      → IsSafe c
      → IsBounded c.max_http2_buffered_bytes c.max_http2_header_block_bytes (
          state_or
            (new_direction_state new_decoder c.max_http2_buffered_bytes
              c.max_http2_header_block_bytes)
            found)
  unfolding new_direction_state
  direction_of-IsBounded c f none e v = record {
    fits = record { bytes = omega arith; block = omega arith };
    same_bytes = refl;
    same_block = refl;
  }
  direction_of-IsBounded c f (some s) e v =
      All-get DirectionKey-discrete _ (direction_key f) s c.http2_directions e v.directions

  take_direction-IsSafe :
      (c : Correlator D) (f : Fragment) (payload : Bytes)
      → IsSafe c
      → IsSafe (take_direction new_decoder decode c f payload).0
  unfolding take_direction
  take_direction-IsSafe c f payload v =
      let P = λ (r : Correlator D × List Output). IsSafe r.0 in
      let now = fragment_timestamp_ns f in
      let t = direction_of new_decoder decode c f in
      let s : DirectionState D = record t { last_seen_ns = now } in
      let b = direction_of-IsBounded c f _ refl v in
      let bounded : IsBounded c.max_http2_buffered_bytes c.max_http2_header_block_bytes s = record {
        fits = record { bytes = b.fits.bytes; block = b.fits.block };
        same_bytes = b.same_bytes;
        same_block = b.same_block;
      } in
      let d = feed-Drained decode s payload now f bounded.fits in
      if_cases P s.poisoned (λ e. store-IsSafe c f s bounded v)
        (λ e.
          if_cases P (ltb 0 f.total_length && ltb (length f.payload % 4294967296) f.total_length)
            (λ g. store-IsSafe c f (poison s) (poison-IsBounded _ _ s bounded) v)
            (λ g.
              take_fed-IsSafe c f (feed decode s payload now f)
                (record {
                  fits = d.fits;
                  same_bytes = d.same_bytes ∙ bounded.same_bytes;
                  same_block = d.same_block ∙ bounded.same_block;
                })
                v))

  seen-IsSafe :
      (c : Correlator D) (f : Fragment)
      → (get TransportKey-discrete (make_transport_key f) c.http2_connections ≢ none)
        ⊎ (tracked_connections c < c.max_tracked_connections)
      → IsSafe c
      → IsSafe (seen new_decoder decode c f)
  seen-IsSafe c f known v =
      let longer =
        length-put TransportKey-discrete (make_transport_key f) (fragment_timestamp_ns f)
          c.http2_connections in
      record {
        apart = v.apart;
        tracked = elim known [
          | inl old ↦ omega (arith, v.tracked, longer.1 old)
          | inr room ↦ omega (arith, room, longer.0)
        ];
        streams = v.streams;
        directions = v.directions;
      }

  take_http2-IsSafe :
      (c : Correlator D) (f : Fragment) → IsSafe c → IsSafe (take_http2 new_decoder decode c f).0
  unfolding take_http2
  take_http2-IsSafe c f v =
      let P = λ (r : Correlator D × List Output). IsSafe r.0 in
      if_cases P (is_known (get TransportKey-discrete (make_transport_key f) c.http2_connections))
        (λ old.
          take_direction-IsSafe (seen new_decoder decode c f) f f.payload
            (seen-IsSafe c f (inl (λ e. ground (arith, old, e))) v))
        (λ new.
          if_cases P (is_full c) (λ e. v)
            (λ room.
              take_direction-IsSafe (seen new_decoder decode c f) f _
                (seen-IsSafe c f (inr (leb-false _ _ room)) v)))

  pub process_fragment-IsSafe :
      (c : Correlator D) (f : Fragment)
      → IsSafe c
      → IsSafe (process_fragment new_decoder decode c f).0
  unfolding process_fragment take_fragment
  process_fragment-IsSafe c f v =
      let P = λ (r : Correlator D × List Output). IsSafe r.0 in
      let d = (expire c f).0 in
      let w = expire-IsSafe c f v in
      if_cases P (is_http2 new_decoder decode d f) (λ e. take_http2-IsSafe d f w)
        (λ e. take_http1-IsSafe d f (parse_http1_request f.payload d.max_path_bytes) w)

  -- The fragments of a capture in turn.
  unfoldable pub run : Correlator D → List Fragment → Correlator D × List Output
  run c [] = (c, [])
  run c (f ∷ fs) =
      let (d, out) = process_fragment new_decoder decode c f in
      let (e, more) = run d fs in (e, out ++ more)

  run-IsSafe : (c : Correlator D) (fs : List Fragment) → IsSafe c → IsSafe (run c fs).0
  unfolding run
  run-IsSafe c [] v = v
  run-IsSafe c (f ∷ fs) v =
      run-IsSafe (process_fragment new_decoder decode c f).0 fs (process_fragment-IsSafe c f v)

  -- After any fragments: no connection both waits for a response and is ambiguous; the waiting HTTP/1
  -- requests and the HTTP/2 connections together, the HTTP/2 streams, the bytes that wait in each
  -- direction and its unfinished header block are within the correlator's bounds.
  pub run-new_correlator-IsSafe :
      (config : Config) (fs : List Fragment) → IsSafe (run (new_correlator config) fs).0
  run-new_correlator-IsSafe config fs =
      run-IsSafe (new_correlator config) fs (new_correlator-IsSafe config)
