-- ===== src/L7/State.antt =====
-- internal/l7/correlator.go: what the correlator keeps, and its expiry. The order in which Go ranges
-- over a map is not specified; here it is the order of the list that stands for the map.
use agentkubenetwork.Base.{
  ℕ, ◌+◌, ◌%◌, ◌==◌, leb, not, Bool, true, false, if◌then◌else◌, List, [], ◌++◌, map, keep, length,
  Option, none, some, add64,
}
use agentkubenetwork.Base.Int.{ℤ, positive_or}
use agentkubenetwork.L7.Types.{
  Fragment, Output, dropped, response_timeout, ConnectionKey, TransportKey, DirectionKey, StreamKey,
  PendingHttp1, PendingHttp2,
}
use agentkubenetwork.L7.Http2.{DirectionState}
use agentkubenetwork.L7.Reports.{
  fragment_timestamp_ns, http1, http2, new_connection_drop, expired_at,
}

pub record Config : Type 0 where
  pub max_path_bytes : ℤ
  pub max_http2_buffered_bytes : ℤ
  pub max_http2_header_block_bytes : ℤ
  pub state_ttl : ℤ
  pub sweep_every : ℕ
  pub max_tracked_connections : ℤ
  pub max_http2_streams : ℤ

pub record Correlator (D : Type 0) : Type 0 where
  pub max_path_bytes : ℕ
  pub max_http2_buffered_bytes : ℕ
  pub max_http2_header_block_bytes : ℕ
  pub state_ttl_ns : ℕ
  pub sweep_every : ℕ
  pub processed : ℕ
  pub max_tracked_connections : ℕ
  pub max_http2_streams : ℕ
  pub http1 : List (ConnectionKey × PendingHttp1)
  pub http1_ambiguous : List (ConnectionKey × ℕ)
  pub http2_connections : List (TransportKey × ℕ)
  pub http2_directions : List (DirectionKey × DirectionState D)
  pub http2 : List (StreamKey × PendingHttp2)

abbrev pub is_known : {A : Type 0} → Option A → Bool
is_known none = false
is_known (some a) = true

module _ {D : Type 0} where
  unfoldable pub new_correlator : Config → Correlator D
  new_correlator config = record {
    max_path_bytes = positive_or 128 config.max_path_bytes;
    max_http2_buffered_bytes = positive_or 65536 config.max_http2_buffered_bytes;
    max_http2_header_block_bytes = positive_or 16384 config.max_http2_header_block_bytes;
    state_ttl_ns = positive_or 30000000000 config.state_ttl;
    sweep_every = if config.sweep_every == 0 then 256 else config.sweep_every;
    processed = 0;
    max_tracked_connections = positive_or 16384 config.max_tracked_connections;
    max_http2_streams = positive_or 65536 config.max_http2_streams;
    http1 = [];
    http1_ambiguous = [];
    http2_connections = [];
    http2_directions = [];
    http2 = [];
  }

  abbrev pub tracked_connections : Correlator D → ℕ
  tracked_connections c = length c.http1 + length c.http1_ambiguous + length c.http2_connections

  abbrev pub is_full : Correlator D → Bool
  is_full c = leb c.max_tracked_connections (tracked_connections c)

  -- The loops of `expire` that delete.
  unfoldable pub sweep : Correlator D → ℕ → Correlator D
  sweep c now =
      let is_live = λ (started : ℕ). not (expired_at now started c.state_ttl_ns) in
      record c {
        http1 = keep (λ e. is_live e.1.started_ns) c.http1;
        http1_ambiguous = keep (λ e. is_live e.1) c.http1_ambiguous;
        http2 = keep (λ e. is_live e.1.started_ns) c.http2;
        http2_directions = keep (λ e. is_live e.1.last_seen_ns) c.http2_directions;
        http2_connections = keep (λ e. is_live e.1) c.http2_connections;
      }

  -- What the loops of `expire` report.
  unfoldable pub timeouts : Correlator D → ℕ → ℕ → List Output
  timeouts c now observed_at =
      map (λ e. dropped (new_connection_drop observed_at e.0 http1 response_timeout))
        (keep (λ e. expired_at now e.1.started_ns c.state_ttl_ns) c.http1)
      ++ map (λ e. dropped (new_connection_drop observed_at e.0.connection http2 response_timeout))
          (keep (λ e. expired_at now e.1.started_ns c.state_ttl_ns) c.http2)

  abbrev pub counted : Correlator D → Correlator D
  counted c = record c { processed = add64 c.processed 1 }

  unfoldable pub expire : Correlator D → Fragment → Correlator D × List Output
  expire c f =
      let now = fragment_timestamp_ns f in
      if not (add64 c.processed 1 % c.sweep_every == 0)
      then (counted c, [])
      else if now == 0
      then (counted c, [])
      else (sweep (counted c) now, timeouts c now f.observed_at)
