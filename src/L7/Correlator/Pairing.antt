-- ===== src/L7/Correlator/Pairing.antt =====
-- An HTTP/1 request, a response on its connection, and what is reported of the two.
use agentkubenetwork.Base.{
  ℕ, ◌+◌, ◌-◌, ◌*◌, ◌/◌, ◌≤◌, ◌<◌, ◌≡◌, refl, ap, [], none, some, Bytes, arith,
}
use agentkubenetwork.L7.Types.{Fragment, Transaction, PendingHttp1, identity_from, snapshot_process}
use agentkubenetwork.L7.Http1.{parse_http1_request, parse_http1_response}
use agentkubenetwork.L7.Reports.{
  fragment_timestamp_ns, request_key, response_key, http1_transaction,
}
use agentkubenetwork.Base.Text.{codes}
use agentkubenetwork.Flow.Types.{Process}

-- What is kept of a request.
abbrev pub pending_of : Fragment → Bytes → Bytes → PendingHttp1
pending_of f method path = record {
  started_ns = fragment_timestamp_ns f;
  method = method;
  path = path;
  identity = identity_from f;
}

-- A final response on the connection of a request, captured later.
pub record Closes (f g : Fragment) (max_path_bytes status : ℕ) : Type 0 where
  pub no_request : parse_http1_request g.payload max_path_bytes ≡ none
  pub response : parse_http1_response g.payload ≡ some status
  pub final : 200 ≤ status
  pub to_client : g.destination_endpoint ≡ f.source_endpoint
  pub from_server : g.source_endpoint ≡ f.destination_endpoint
  pub node : g.node_name ≡ f.node_name
  pub observer : g.observer_pid ≡ f.observer_pid
  pub source : g.source ≡ f.source
  pub later : fragment_timestamp_ns f < fragment_timestamp_ns g

-- What is reported of a request and its response: who asked whom and what, by the request; the status
-- and the capture of the response; and the whole microseconds between them.
pub record Matches (f g : Fragment) (asked at : Bytes) (status : ℕ) (t : Transaction) : Type 0 where
  pub observed_at : t.observed_at ≡ g.observed_at
  pub node_name : t.flow.node_name ≡ f.node_name
  pub transport : t.flow.protocol ≡ codes "tcp"
  pub direction : t.flow.direction ≡ codes "client-to-server"
  pub client : t.flow.source ≡ f.source_endpoint
  pub server : t.flow.destination ≡ f.destination_endpoint
  pub observer_pid : t.observer_pid ≡ f.observer_pid
  pub protocol : t.protocol ≡ codes "http1"
  pub source : t.source ≡ f.source
  pub method : t.method ≡ asked
  pub path : t.path ≡ at
  pub status_code : t.status_code ≡ status
  pub stream_id : t.stream_id ≡ 0
  pub no_sooner :
      fragment_timestamp_ns f + t.response_latency_micros * 1000 ≤ fragment_timestamp_ns g
  pub no_later :
      fragment_timestamp_ns g < fragment_timestamp_ns f + (t.response_latency_micros + 1) * 1000
  pub latency_boundary : t.latency_boundary ≡ codes "request_to_response_status"
  pub no_process : f.process ≡ none → t.process ≡ none
  pub process : (p : Process) → f.process ≡ some p → t.process ≡ some (record p { cmdline = [] })
  pub source_resolved : t.source_resolved ≡ f.source_resolved
  pub destination_resolved : t.destination_resolved ≡ f.destination_resolved
  pub source_pod : t.source_pod ≡ f.source_pod
  pub destination_pod : t.destination_pod ≡ f.destination_pod
  pub observer_pod : t.observer_pod ≡ f.observer_pod

pub http1_transaction-Matches :
    (f g : Fragment) (method path : Bytes) (max_path_bytes status : ℕ)
    → Closes f g max_path_bytes status
    → Matches f g method path status (http1_transaction g (pending_of f method path) status)
unfolding http1_transaction identity_from
http1_transaction-Matches f g method path max_path_bytes status e =
    let start : ℕ = fragment_timestamp_ns f in
    let end : ℕ = fragment_timestamp_ns g in
    let between = micros_between start end e.later in
    record {
      observed_at = refl;
      node_name = e.node;
      transport = refl;
      direction = refl;
      client = e.to_client;
      server = e.from_server;
      observer_pid = e.observer;
      protocol = refl;
      source = e.source;
      method = refl;
      path = refl;
      status_code = refl;
      stream_id = refl;
      no_sooner = between.0;
      no_later = between.1;
      latency_boundary = refl;
      no_process = λ h. ap snapshot_process h;
      process = λ p h. ap snapshot_process h;
      source_resolved = refl;
      destination_resolved = refl;
      source_pod = refl;
      destination_pod = refl;
      observer_pod = refl;
    }
  where
    micros_between :
        (a b : ℕ) → a < b → (a + (b - a) / 1000 * 1000 ≤ b) × (b < a + ((b - a) / 1000 + 1) * 1000)
    micros_between a b h = (omega (arith, h), omega (arith, h))

pub Closes-key :
    (f g : Fragment) (max_path_bytes status : ℕ)
    → Closes f g max_path_bytes status
    → response_key g ≡ request_key f
Closes-key f g max_path_bytes status e =
    cc (e.to_client, e.from_server, e.node, e.observer, e.source)
