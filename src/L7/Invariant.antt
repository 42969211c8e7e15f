-- ===== src/L7/Invariant.antt =====
-- What every correlator of internal/l7 keeps.
pub mod Streams
pub mod History
use agentkubenetwork.Base.{
  ℕ, suc, ◌+◌, ◌≤◌, ◌<◌, ◌≡◌, ◌≢◌, refl, sym, ap, ◌∙◌, ltb, leb, not, Bool, true, false, ite,
  if_cases, List, [], ◌∷◌, ◌++◌, All, length, keep, ◌⊎◌, inl, inr, Option, none, some, Bytes, arith,
  add64, ◌%◌, ◌==◌, ◌&&◌, leb-false,
}
use agentkubenetwork.Base.Map.{get, put, del, get-put, get-del}
use agentkubenetwork.Base.Keyed.{
  length-put, length-put_new, length-del_le, length-keep, get-keep_absent, All-put, All-get,
  All-keep, All-imp,
}
use agentkubenetwork.L7.Types.{
  Fragment, Output, ConnectionKey, TransportKey, DirectionKey, ConnectionKey-discrete,
  TransportKey-discrete, DirectionKey-discrete, StreamKey-discrete, PendingHttp1, PendingHttp2,
  identity_from,
}
use agentkubenetwork.L7.Http1.{
  parse_http1_request, parse_http1_response, contains_pipelined_http1_request,
}
use agentkubenetwork.L7.Http2.{
  HeaderBlock, DirectionState, Fed, FeedError, feed, poison, reset_frame_state, new_direction_state,
}
use agentkubenetwork.L7.Http2.Bounds.{Fits, feed-Drained}
use agentkubenetwork.L7.Fields.{is_empty, http2_identity, make_transport_key}
use agentkubenetwork.L7.Reports.{fragment_timestamp_ns, request_key, response_key}
use agentkubenetwork.L7.State.{
  Config, Correlator, new_correlator, is_known, is_full, tracked_connections, counted, sweep,
  timeouts, expire,
}
use agentkubenetwork.L7.Exchange.{mark_ambiguous, take_request, answer, take_response, take_http1}
use agentkubenetwork.L7.Streams.{
  request_stream, response_stream, open_stream, close_stream, take_identity, take_blocks,
}
use agentkubenetwork.L7.Correlator.{
  direction_key, direction_of, state_or, store, seen, take_fed, take_direction, take_http2,
  is_http2, take_fragment, process_fragment,
}

-- A direction under the correlator's bounds.
pub record IsBounded {D : Type 0} (max_bytes max_block : ℕ) (s : DirectionState D) : Type 0 where
  pub fits : Fits s
  pub same_bytes : s.max_buffered_bytes ≡ max_bytes
  pub same_block : s.max_header_block_bytes ≡ max_block

-- No connection both waits for a response and is ambiguous; the HTTP/1 requests that wait and the HTTP/2
-- connections are together within their bound, and so are the streams, the bytes that wait in each
-- direction, and its unfinished header block.
pub record IsSafe {D : Type 0} (c : Correlator D) : Type 0 where
  pub apart :
      (k : ConnectionKey)
      → get ConnectionKey-discrete k c.http1 ≢ none
      → get ConnectionKey-discrete k c.http1_ambiguous ≡ none
  pub tracked : length c.http1 + length c.http2_connections ≤ c.max_tracked_connections
  pub streams : length c.http2 ≤ c.max_http2_streams
  pub directions :
      All
        (λ e. IsBounded c.max_http2_buffered_bytes c.max_http2_header_block_bytes e.1)
        c.http2_directions

module _ {D : Type 0} where
  pub new_correlator-IsSafe : (config : Config) → IsSafe (new_correlator {D = D} config)
  unfolding new_correlator get
  new_correlator-IsSafe config = record {
    apart = λ k h. refl;
    tracked = omega arith;
    streams = omega arith;
    directions = tt;
  }

  counted-IsSafe : (c : Correlator D) → IsSafe c → IsSafe (counted c)
  counted-IsSafe c v = record {
    apart = v.apart;
    tracked = v.tracked;
    streams = v.streams;
    directions = v.directions;
  }

  sweep-IsSafe : (c : Correlator D) (now : ℕ) → IsSafe c → IsSafe (sweep c now)
  unfolding sweep
  sweep-IsSafe c now v = record {
    apart = λ k h.
        get-keep_absent ConnectionKey-discrete _ k c.http1_ambiguous
          (v.apart k (λ e. h (get-keep_absent ConnectionKey-discrete _ k c.http1 e)));
    tracked = omega (arith, v.tracked, length-keep _ c.http1, length-keep _ c.http2_connections);
    streams = omega (arith, v.streams, length-keep _ c.http2);
    directions = All-keep _ _ c.http2_directions v.directions;
  }

  pub expire-IsSafe : (c : Correlator D) (f : Fragment) → IsSafe c → IsSafe (expire c f).0
  unfolding expire
  expire-IsSafe c f v =
      let P = λ (r : Correlator D × List Output). IsSafe r.0 in
      if_cases P (not (add64 c.processed 1 % c.sweep_every == 0)) (λ e. counted-IsSafe c v)
        (λ e.
          if_cases P (fragment_timestamp_ns f == 0) (λ g. counted-IsSafe c v)
            (λ g. sweep-IsSafe (counted c) (fragment_timestamp_ns f) (counted-IsSafe c v)))

  mark_ambiguous-IsSafe :
      (c : Correlator D) (f : Fragment) → IsSafe c → IsSafe (mark_ambiguous c f).0
  mark_ambiguous-IsSafe c f v =
      let k = request_key f in
      record {
        apart = λ j h.
            get-put ConnectionKey-discrete k j _ c.http1_ambiguous
            ∙ ground (arith, h, get-del ConnectionKey-discrete k j c.http1, v.apart j);
        tracked = omega (arith, v.tracked, length-del_le ConnectionKey-discrete k c.http1);
        streams = v.streams;
        directions = v.directions;
      }

  take_request-IsSafe :
      (c : Correlator D) (f : Fragment) (method path : Bytes)
      → IsSafe c
      → IsSafe (take_request c f method path).0
  unfolding take_request
  take_request-IsSafe c f method path v =
      let P = λ (r : Correlator D × List Output). IsSafe r.0 in
      let k = request_key f in
      if_cases P (is_known (get ConnectionKey-discrete k c.http1_ambiguous)) (λ e. v)
        (λ clear.
          if_cases P (contains_pipelined_http1_request f.payload c.max_path_bytes)
            (λ e. mark_ambiguous-IsSafe c f v)
            (λ e.
              if_cases P (is_known (get ConnectionKey-discrete k c.http1))
                (λ g. mark_ambiguous-IsSafe c f v)
                (λ g.
                  if_cases P (is_full c) (λ h. v)
                    (λ room. record {
                      apart = λ j h. ground (
                        arith,
                        clear,
                        h,
                        v.apart j,
                        get-put ConnectionKey-discrete k j
                            (record {
                              started_ns = fragment_timestamp_ns f;
                              method = method;
                              path = path;
                              identity = identity_from f;
                            })
                            c.http1,
                      );
                      tracked = omega (
                        arith,
                        leb-false _ _ room,
                        (length-put ConnectionKey-discrete k
                            (record {
                              started_ns = fragment_timestamp_ns f;
                              method = method;
                              path = path;
                              identity = identity_from f;
                            })
                            c.http1).0,
                      );
                      streams = v.streams;
                      directions = v.directions;
                    }))))

  answer-IsSafe :
      (c : Correlator D) (f : Fragment) (status : ℕ) (p : Option PendingHttp1)
      → IsSafe c
      → IsSafe (answer c f status p).0
  unfolding answer
  answer-IsSafe c f status none v = v
  answer-IsSafe c f status (some p) v =
      let k = response_key f in
      record {
        apart = λ j h.
            v.apart j (λ e. h (ground (arith, e, get-del ConnectionKey-discrete k j c.http1)));
        tracked = omega (arith, v.tracked, length-del_le ConnectionKey-discrete k c.http1);
        streams = v.streams;
        directions = v.directions;
      }

  take_response-IsSafe :
      (c : Correlator D) (f : Fragment) (status : Option ℕ)
      → IsSafe c
      → IsSafe (take_response c f status).0
  unfolding take_response
  take_response-IsSafe c f none v = v
  take_response-IsSafe c f (some status) v =
      let P = λ (r : Correlator D × List Output). IsSafe r.0 in
      if_cases P (is_known (get ConnectionKey-discrete (response_key f) c.http1_ambiguous)) (λ e. v)
        (λ e.
          if_cases P (ltb status 200 && not (status == 101)) (λ g. v)
            (λ g. answer-IsSafe c f status _ v))

  pub take_http1-IsSafe :
      (c : Correlator D) (f : Fragment) (request : Option (Bytes × Bytes))
      → IsSafe c
      → IsSafe (take_http1 c f request).0
  unfolding take_http1
  take_http1-IsSafe c f (some (method, path)) v = take_request-IsSafe c f method path v
  take_http1-IsSafe c f none v = take_response-IsSafe c f (parse_http1_response f.payload) v
