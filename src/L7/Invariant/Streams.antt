-- ===== src/L7/Invariant/Streams.antt =====
-- The header blocks of a fragment keep the invariant.
use agentkubenetwork.Base.{
  ℕ, ltb, leb, not, if_cases, List, [], ◌∷◌, length, Option, none, some, Bytes, arith, leb-false,
}
use agentkubenetwork.Base.Map.{get}
use agentkubenetwork.Base.Keyed.{length-put, length-del_le, All-put}
use agentkubenetwork.L7.Types.{
  Fragment, Output, DirectionKey-discrete, StreamKey-discrete, PendingHttp2,
}
use agentkubenetwork.L7.Http2.{HeaderBlock, DirectionState, Fed, poison, reset_frame_state}
use agentkubenetwork.L7.Fields.{is_empty, http2_identity}
use agentkubenetwork.L7.State.{Correlator, is_known}
use agentkubenetwork.L7.Streams.{
  request_stream, response_stream, open_stream, close_stream, take_identity, take_blocks,
}
use agentkubenetwork.L7.Correlator.{direction_key, store, take_fed}
use agentkubenetwork.L7.Invariant.{IsBounded, IsSafe}

module _ {D : Type 0} where
  open_stream-IsSafe :
      (c : Correlator D) (f : Fragment) (b : HeaderBlock) (method path : Bytes)
      → IsSafe c
      → IsSafe (open_stream c f b method path).0
  unfolding open_stream
  open_stream-IsSafe c f b method path v =
      let P = λ (r : Correlator D × List Output). IsSafe r.0 in
      let k = request_stream f b in
      if_cases P (is_known (get StreamKey-discrete k c.http2))
        (λ e. record {
          apart = v.apart;
          tracked = v.tracked;
          directions = v.directions;
          streams = omega (arith, v.streams, length-del_le StreamKey-discrete k c.http2);
        })
        (λ e.
          if_cases P (leb c.max_http2_streams (length c.http2)) (λ g. v)
            (λ room. record {
              apart = v.apart;
              tracked = v.tracked;
              directions = v.directions;
              streams = omega (
                arith,
                leb-false _ _ room,
                (length-put StreamKey-discrete k
                    (record {
                      started_ns = b.started_ns;
                      method = method;
                      path = path;
                      identity = b.identity;
                    })
                    c.http2).0,
              );
            }))

  close_stream-IsSafe :
      (c : Correlator D) (f : Fragment) (b : HeaderBlock) (status : ℕ) (p : Option PendingHttp2)
      → IsSafe c
      → IsSafe (close_stream c f b status p).0
  unfolding close_stream
  close_stream-IsSafe c f b status none v = v
  close_stream-IsSafe c f b status (some p) v = record {
    apart = v.apart;
    tracked = v.tracked;
    directions = v.directions;
    streams =
        omega (arith, v.streams, length-del_le StreamKey-discrete (response_stream f b) c.http2);
  }

  take_identity-IsSafe :
      (c : Correlator D) (f : Fragment) (b : HeaderBlock) (r : Option (Bytes × Bytes × ℕ))
      → IsSafe c
      → IsSafe (take_identity c f b r).0
  unfolding take_identity
  take_identity-IsSafe c f b none v = v
  take_identity-IsSafe c f b (some (method, path, status)) v =
      let P = λ (r : Correlator D × List Output). IsSafe r.0 in
      if_cases P (not (is_empty method)) (λ e. open_stream-IsSafe c f b method path v)
        (λ e. if_cases P (ltb status 200) (λ g. v) (λ g. close_stream-IsSafe c f b status _ v))

  take_blocks-IsSafe :
      (c : Correlator D) (f : Fragment) (bs : List HeaderBlock)
      → IsSafe c
      → IsSafe (take_blocks c f bs).0
  unfolding take_blocks
  take_blocks-IsSafe c f [] v = v
  take_blocks-IsSafe c f (b ∷ bs) v =
      take_blocks-IsSafe (take_identity c f b (http2_identity b.fields c.max_path_bytes)).0 f bs
        (take_identity-IsSafe c f b (http2_identity b.fields c.max_path_bytes) v)

  pub store-IsSafe :
      (c : Correlator D) (f : Fragment) (s : DirectionState D)
      → IsBounded c.max_http2_buffered_bytes c.max_http2_header_block_bytes s
      → IsSafe c
      → IsSafe (store c f s)
  store-IsSafe c f s b v = record {
    apart = v.apart;
    tracked = v.tracked;
    streams = v.streams;
    directions =
        All-put DirectionKey-discrete _ (direction_key f) s c.http2_directions b v.directions;
  }

  pub poison-IsBounded :
      (m n : ℕ) (s : DirectionState D) → IsBounded m n s → IsBounded m n (poison s)
  unfolding poison reset_frame_state
  poison-IsBounded m n s b = record {
    fits = record { bytes = omega arith; block = omega arith };
    same_bytes = b.same_bytes;
    same_block = b.same_block;
  }

  pub take_fed-IsSafe :
      (c : Correlator D) (f : Fragment) (r : Fed D)
      → IsBounded c.max_http2_buffered_bytes c.max_http2_header_block_bytes r.0
      → IsSafe c
      → IsSafe (take_fed c f r).0
  unfolding take_fed
  take_fed-IsSafe c f (s, blocks, some e) b v =
      store-IsSafe c f (poison s) (poison-IsBounded _ _ s b) v
  take_fed-IsSafe c f (s, blocks, none) b v =
      take_blocks-IsSafe (store c f s) f blocks (store-IsSafe c f s b v)
