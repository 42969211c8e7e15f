-- ===== src/L7/Reports.antt =====
-- internal/l7/correlator.go: the time of a fragment, and the drops and transactions that are reported.
use agentkubenetwork.Base.{
  ℕ, ◌+◌, ◌-◌, ◌*◌, ◌/◌, ◌%◌, ◌==◌, leb, not, ◌&&◌, Bool, if◌then◌else◌, Bytes, u64,
}
use agentkubenetwork.Base.Text.{codes}
use agentkubenetwork.Flow.Types.{FlowKey}
use agentkubenetwork.L7.Types.{
  Fragment, Transaction, DropReason, Drop, ConnectionKey, PendingHttp1, PendingHttp2,
}
use agentkubenetwork.L7.Http2.{HeaderBlock}

-- `uint64(t.UnixNano())`, which wraps.
abbrev pub unix_nano : ℕ → ℕ
unix_nano t = (t + 4 * u64 - 62135596800000000000) % u64

abbrev pub fragment_timestamp_ns : Fragment → ℕ
fragment_timestamp_ns f =
    if not (f.kernel_timestamp_ns == 0)
    then f.kernel_timestamp_ns
    else if f.observed_at == 0
    then 0
    else unix_nano f.observed_at

abbrev pub http1 : Bytes
http1 = codes "http1"

abbrev pub http2 : Bytes
http2 = codes "http2"

unfoldable pub new_drop : Fragment → Bytes → DropReason → Drop
new_drop f protocol reason = record {
  observed_at = f.observed_at;
  node_name = f.node_name;
  observer_pid = f.observer_pid;
  protocol = protocol;
  source = f.source;
  reason = reason;
  count = 1;
}

unfoldable pub new_connection_drop : ℕ → ConnectionKey → Bytes → DropReason → Drop
new_connection_drop observed_at k protocol reason = record {
  observed_at = observed_at;
  node_name = k.node_name;
  observer_pid = k.observer_pid;
  protocol = protocol;
  source = k.source;
  reason = reason;
  count = 1;
}

abbrev pub expired_at : ℕ → ℕ → ℕ → Bool
expired_at now started ttl = not (started == 0) && (leb started now && leb ttl (now - started))

-- The keys of a fragment from the client, and of one from the server.
abbrev pub request_key : Fragment → ConnectionKey
request_key f = record {
  node_name = f.node_name;
  observer_pid = f.observer_pid;
  source = f.source;
  client = f.source_endpoint;
  server = f.destination_endpoint;
}

abbrev pub response_key : Fragment → ConnectionKey
response_key f = record {
  node_name = f.node_name;
  observer_pid = f.observer_pid;
  source = f.source;
  client = f.destination_endpoint;
  server = f.source_endpoint;
}

abbrev flow_of : Fragment → ConnectionKey → FlowKey
flow_of f k = record {
  node_name = f.node_name;
  protocol = codes "tcp";
  direction = codes "client-to-server";
  source = k.client;
  destination = k.server;
}

unfoldable pub http1_transaction : Fragment → PendingHttp1 → ℕ → Transaction
http1_transaction f p status = record {
  observed_at = f.observed_at;
  flow = flow_of f (response_key f);
  observer_pid = f.observer_pid;
  protocol = http1;
  source = f.source;
  method = p.method;
  path = p.path;
  status_code = status;
  stream_id = 0;
  response_latency_micros = (fragment_timestamp_ns f - p.started_ns) / 1000;
  latency_boundary = codes "request_to_response_status";
  process = p.identity.process;
  source_resolved = p.identity.source;
  destination_resolved = p.identity.destination;
  source_pod = p.identity.source_pod;
  destination_pod = p.identity.destination_pod;
  observer_pod = p.identity.observer_pod;
}

unfoldable pub http2_transaction : Fragment → HeaderBlock → PendingHttp2 → ℕ → Transaction
http2_transaction f b p status = record {
  observed_at = f.observed_at;
  flow = flow_of f (response_key f);
  observer_pid = f.observer_pid;
  protocol = http2;
  source = f.source;
  method = p.method;
  path = p.path;
  status_code = status;
  stream_id = b.stream_id;
  response_latency_micros = (b.started_ns - p.started_ns) / 1000;
  latency_boundary = codes "request_to_response_headers";
  process = p.identity.process;
  source_resolved = p.identity.source;
  destination_resolved = p.identity.destination;
  source_pod = p.identity.source_pod;
  destination_pod = p.identity.destination_pod;
  observer_pod = p.identity.observer_pod;
}
