-- ===== src/L7/Types.antt =====
-- internal/l7: captured fragments, the keys of what is tracked, and what is reported. The constant
-- schema version and outcome of a report are left out.
use agentkubenetwork.Base.{ℕ, Bytes, Option, none, some, ℕ_discrete}
use agentkubenetwork.Flow.Types.{Endpoint, ResolvedEndpoint, Process, Pod, FlowKey}
use agentkubenetwork.Flow.Window.{without_cmdline}

-- One captured segment of a connection, its endpoints in the segment's direction.
pub record Fragment : Type 0 where
  pub observed_at : ℕ
  pub kernel_timestamp_ns : ℕ
  pub node_name : Bytes
  pub observer_pid : ℕ
  pub source : Bytes
  pub source_endpoint : Endpoint
  pub destination_endpoint : Endpoint
  pub total_length : ℕ
  pub payload : Bytes
  pub tcp_sequence : ℕ
  pub process : Option Process
  pub source_resolved : Option ResolvedEndpoint
  pub destination_resolved : Option ResolvedEndpoint
  pub source_pod : Option Pod
  pub destination_pod : Option Pod
  pub observer_pod : Option Pod

pub record Transaction : Type 0 where
  pub observed_at : ℕ
  pub flow : FlowKey
  pub observer_pid : ℕ
  pub protocol : Bytes
  pub source : Bytes
  pub method : Bytes
  pub path : Bytes
  pub status_code : ℕ
  pub stream_id : ℕ
  pub response_latency_micros : ℕ
  pub latency_boundary : Bytes
  pub process : Option Process
  pub source_resolved : Option ResolvedEndpoint
  pub destination_resolved : Option ResolvedEndpoint
  pub source_pod : Option Pod
  pub destination_pod : Option Pod
  pub observer_pod : Option Pod

pub data DropReason : Type 0 where
  overlapping_request protocol_upgrade response_timeout state_capacity : DropReason
  invalid_http2 http2_stream_desync invalid_latency : DropReason

pub record Drop : Type 0 where
  pub observed_at : ℕ
  pub node_name : Bytes
  pub observer_pid : ℕ
  pub protocol : Bytes
  pub source : Bytes
  pub reason : DropReason
  pub count : ℕ

pub data Output : Type 0 where
  transaction : Transaction → Output
  dropped : Drop → Output

pub record ConnectionKey : Type 0 where
  pub node_name : Bytes
  pub observer_pid : ℕ
  pub source : Bytes
  pub client : Endpoint
  pub server : Endpoint

pub record TransportKey : Type 0 where
  pub node_name : Bytes
  pub observer_pid : ℕ
  pub source : Bytes
  pub low : Endpoint
  pub high : Endpoint

pub record DirectionKey : Type 0 where
  pub transport : TransportKey
  pub from : Endpoint
  pub to : Endpoint

pub record StreamKey : Type 0 where
  pub connection : ConnectionKey
  pub stream_id : ℕ

unfoldable pub ConnectionKey-discrete : Discrete ConnectionKey
ConnectionKey-discrete = hlevel ℕ_discrete

unfoldable pub TransportKey-discrete : Discrete TransportKey
TransportKey-discrete = hlevel ℕ_discrete

unfoldable pub DirectionKey-discrete : Discrete DirectionKey
DirectionKey-discrete = hlevel ℕ_discrete

unfoldable pub StreamKey-discrete : Discrete StreamKey
StreamKey-discrete = hlevel ℕ_discrete

-- Who was observed when a request was captured.
pub record ObservationIdentity : Type 0 where
  pub process : Option Process
  pub source : Option ResolvedEndpoint
  pub destination : Option ResolvedEndpoint
  pub source_pod : Option Pod
  pub destination_pod : Option Pod
  pub observer_pod : Option Pod

abbrev pub snapshot_process : Option Process → Option Process
snapshot_process none = none
snapshot_process (some p) = some (without_cmdline p)

unfoldable pub identity_from : Fragment → ObservationIdentity
identity_from f = record {
  process = snapshot_process f.process;
  source = f.source_resolved;
  destination = f.destination_resolved;
  source_pod = f.source_pod;
  destination_pod = f.destination_pod;
  observer_pod = f.observer_pod;
}

abbrev pub no_identity : ObservationIdentity
no_identity = record {
  process = none;
  source = none;
  destination = none;
  source_pod = none;
  destination_pod = none;
  observer_pod = none;
}

pub record PendingHttp1 : Type 0 where
  pub started_ns : ℕ
  pub method : Bytes
  pub path : Bytes
  pub identity : ObservationIdentity

pub record PendingHttp2 : Type 0 where
  pub started_ns : ℕ
  pub method : Bytes
  pub path : Bytes
  pub identity : ObservationIdentity
