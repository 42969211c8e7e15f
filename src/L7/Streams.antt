-- ===== src/L7/Streams.antt =====
-- internal/l7/correlator.go: `processHTTP2` on the header blocks of a fragment.
use agentkubenetwork.Base.{
  ℕ, ltb, leb, not, if◌then◌else◌, List, [], ◌∷◌, ◌++◌, length, Option, none, some, Bytes,
}
use agentkubenetwork.Base.Map.{get, put, del}
use agentkubenetwork.L7.Types.{
  Fragment, Output, transaction, dropped, state_capacity, invalid_http2, invalid_latency, StreamKey,
  StreamKey-discrete, PendingHttp2,
}
use agentkubenetwork.L7.Http2.{HeaderBlock}
use agentkubenetwork.L7.Fields.{http2_identity, is_empty}
use agentkubenetwork.L7.Reports.{http2, new_drop, request_key, response_key, http2_transaction}
use agentkubenetwork.L7.State.{Correlator, is_known}

abbrev pub request_stream : Fragment → HeaderBlock → StreamKey
request_stream f b = record { connection = request_key f; stream_id = b.stream_id }

abbrev pub response_stream : Fragment → HeaderBlock → StreamKey
response_stream f b = record { connection = response_key f; stream_id = b.stream_id }

module _ {D : Type 0} where
  -- A block with a method: a request, unless its stream has one.
  unfoldable pub open_stream :
      Correlator D → Fragment → HeaderBlock → Bytes → Bytes → Correlator D × List Output
  open_stream c f b method path =
      let k = request_stream f b in
      if is_known (get StreamKey-discrete k c.http2)
      then (
        record c { http2 = del StreamKey-discrete k c.http2 },
        dropped (new_drop f http2 invalid_http2) ∷ [],
      )
      else if leb c.max_http2_streams (length c.http2)
      then (c, dropped (new_drop f http2 state_capacity) ∷ [])
      else (
        record c {
          http2 =
              put StreamKey-discrete k
                (record {
                  started_ns = b.started_ns;
                  method = method;
                  path = path;
                  identity = b.identity;
                })
                c.http2;
        },
        [],
      )

  -- A block with a final status: the response to its stream's request, if one is pending.
  unfoldable pub close_stream :
      Correlator D → Fragment → HeaderBlock → ℕ → Option PendingHttp2 → Correlator D × List Output
  close_stream c f b status none = (c, [])
  close_stream c f b status (some p) = (
    record c { http2 = del StreamKey-discrete (response_stream f b) c.http2 },
    if leb b.started_ns p.started_ns
        then dropped (new_drop f http2 invalid_latency) ∷ []
        else transaction (http2_transaction f b p status) ∷ [],
  )

  unfoldable pub take_identity :
      Correlator D
      → Fragment
      → HeaderBlock
      → Option (Bytes × Bytes × ℕ)
      → Correlator D × List Output
  take_identity c f b none = (c, [])
  take_identity c f b (some (method, path, status)) =
      if not (is_empty method)
      then open_stream c f b method path
      else if ltb status 200
      then (c, [])
      else close_stream c f b status (get StreamKey-discrete (response_stream f b) c.http2)

  unfoldable pub take_blocks :
      Correlator D → Fragment → List HeaderBlock → Correlator D × List Output
  take_blocks c f [] = (c, [])
  take_blocks c f (b ∷ bs) =
      let (d, out) = take_identity c f b (http2_identity b.fields c.max_path_bytes) in
      let (e, more) = take_blocks d f bs in (e, out ++ more)
