-- ===== src/L7/Correlator.antt =====
-- internal/l7/correlator.go: `Process` as a whole.
pub mod Pairing
pub mod Matching
pub mod Overlap
pub mod Keeps
pub mod Waiting
pub mod Expiry
use agentkubenetwork.Base.{
  ◌%◌, ltb, ◌&&◌, Bool, true, if◌then◌else◌, List, [], ◌∷◌, ◌++◌, length, drop, Option, none, some,
  Bytes,
}
use agentkubenetwork.Base.Map.{get, put}
use agentkubenetwork.Base.Text.{codes}
use agentkubenetwork.L7.Types.{
  Fragment, Output, dropped, state_capacity, http2_stream_desync, DirectionKey,
  TransportKey-discrete, DirectionKey-discrete,
}
use agentkubenetwork.L7.Text.{has_prefix}
use agentkubenetwork.L7.Http1.{parse_http1_request}
use agentkubenetwork.L7.Http2.{DirectionState, Fed, feed, poison, new_direction_state}
use agentkubenetwork.L7.Fields.{make_transport_key}
use agentkubenetwork.L7.Reports.{fragment_timestamp_ns, http2, new_drop}
use agentkubenetwork.L7.State.{Correlator, is_known, is_full, expire}
use agentkubenetwork.L7.Exchange.{take_http1}
use agentkubenetwork.L7.Streams.{take_blocks}

-- "PRI * HTTP/2.0\r\n\r\nSM\r\n\r\n"
abbrev pub preface : Bytes
preface = codes "PRI * HTTP/2.0" ++ (13 ∷ 10 ∷ 13 ∷ 10 ∷ codes "SM") ++ (13 ∷ 10 ∷ 13 ∷ 10 ∷ [])

abbrev pub direction_key : Fragment → DirectionKey
direction_key f = record {
  transport = make_transport_key f;
  from = f.source_endpoint;
  to = f.destination_endpoint;
}

module _ {D : Type 0} where
  abbrev pub store : Correlator D → Fragment → DirectionState D → Correlator D
  store c f s = record c {
    http2_directions = put DirectionKey-discrete (direction_key f) s c.http2_directions;
  }

  -- What `feed` returned: an error poisons the direction, else its blocks are taken in order.
  unfoldable pub take_fed : Correlator D → Fragment → Fed D → Correlator D × List Output
  take_fed c f (s, blocks, some e) =
      (store c f (poison s), dropped (new_drop f http2 http2_stream_desync) ∷ [])
  take_fed c f (s, blocks, none) = take_blocks (store c f s) f blocks

  abbrev pub state_or : DirectionState D → Option (DirectionState D) → DirectionState D
  state_or s none = s
  state_or s (some t) = t

-- The decoder of a new direction, and decoding.
module _ {D : Type 0} (new_decoder : D)
    (decode : D → Bytes → D × Option (List (Bytes × Bytes))) where
  abbrev pub direction_of : Correlator D → Fragment → DirectionState D
  direction_of c f =
      state_or
        (new_direction_state new_decoder c.max_http2_buffered_bytes c.max_http2_header_block_bytes)
        (get DirectionKey-discrete (direction_key f) c.http2_directions)

  -- A fragment of a connection that is tracked, with its payload past the preface.
  unfoldable pub take_direction : Correlator D → Fragment → Bytes → Correlator D × List Output
  take_direction c f payload =
      let s = record (direction_of c f) { last_seen_ns = fragment_timestamp_ns f } in
      if s.poisoned
      then (store c f s, [])
      else if ltb 0 f.total_length && ltb (length f.payload % 4294967296) f.total_length
      then (store c f (poison s), dropped (new_drop f http2 http2_stream_desync) ∷ [])
      else take_fed c f (feed decode s payload (fragment_timestamp_ns f) f)

  abbrev pub seen : Correlator D → Fragment → Correlator D
  seen c f = record c {
    http2_connections =
        put TransportKey-discrete (make_transport_key f) (fragment_timestamp_ns f)
          c.http2_connections;
  }

  unfoldable pub take_http2 : Correlator D → Fragment → Correlator D × List Output
  take_http2 c f =
      if is_known (get TransportKey-discrete (make_transport_key f) c.http2_connections)
      then take_direction (seen c f) f f.payload
      else if is_full c
      then (c, dropped (new_drop f http2 state_capacity) ∷ [])
      else take_direction (seen c f) f (drop (length preface) f.payload)

  -- The second result of `processHTTP2`: whether the fragment belongs to HTTP/2.
  abbrev pub is_http2 : Correlator D → Fragment → Bool
  is_http2 c f =
      if is_known (get TransportKey-discrete (make_transport_key f) c.http2_connections)
      then true
      else has_prefix f.payload preface

  -- Past the expiry.
  unfoldable pub take_fragment : Correlator D → Fragment → Correlator D × List Output
  take_fragment c f =
      if is_http2 c f
      then take_http2 c f
      else take_http1 c f (parse_http1_request f.payload c.max_path_bytes)

  unfoldable pub process_fragment : Correlator D → Fragment → Correlator D × List Output
  process_fragment c f =
      let (d, expired) = expire c f in
      let (e, outputs) = take_fragment d f in (e, expired ++ outputs)
