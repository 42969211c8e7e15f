-- ===== src/Flow/Types.antt =====
-- internal/flow/window.go, pod.go, stats.go: the records. An instant counts nanoseconds from Go's zero
-- time, so that the zero time is 0; a pointer that may be nil is an `Option`.
use agentkubenetwork.Base.{ℕ, Bool, Bytes, Option, [], ℕ_discrete}

pub record Endpoint : Type 0 where
  pub address : Bytes
  pub port : ℕ

pub record ResolvedEndpoint : Type 0 where
  pub address : Bytes
  pub port : ℕ
  pub via : Bytes

pub record Process : Type 0 where
  pub pid : ℕ
  pub start_time_ticks : ℕ
  pub comm : Bytes
  pub cmdline : Bytes
  pub container_id : Bytes
  pub via : Bytes

pub record FlowKey : Type 0 where
  pub node_name : Bytes
  pub protocol : Bytes
  pub direction : Bytes
  pub source : Endpoint
  pub destination : Endpoint

pub record Pod : Type 0 where
  pub uid : Bytes
  pub namespace : Bytes
  pub name : Bytes

-- Count, sum, minimum and maximum, in microseconds.
pub record Distribution : Type 0 where
  pub count : ℕ
  pub sum_micros : ℕ
  pub min_micros : ℕ
  pub max_micros : ℕ

pub record Observation : Type 0 where
  pub source_pod : Option Pod
  pub destination_pod : Option Pod
  pub observer_pod : Option Pod
  pub observed_at : ℕ
  pub kernel_timestamp_ns : ℕ
  pub flow : FlowKey
  pub source_resolved : Option ResolvedEndpoint
  pub destination_resolved : Option ResolvedEndpoint
  pub process : Option Process
  pub bytes_tx : ℕ
  pub bytes_rx : ℕ
  pub packets_tx : ℕ
  pub packets_rx : ℕ
  pub retransmissions : ℕ
  pub losses : ℕ
  pub rtt : Distribution
  pub jitter : Distribution

pub record Window : Type 0 where
  pub source_pod : Option Pod
  pub destination_pod : Option Pod
  pub observer_pod : Option Pod
  pub partial : Bool
  pub window_start : ℕ
  pub window_end : ℕ
  pub last_observed_at : ℕ
  pub flow : FlowKey
  pub source_resolved : Option ResolvedEndpoint
  pub destination_resolved : Option ResolvedEndpoint
  pub process : Option Process
  pub bytes_tx : ℕ
  pub observation_count : ℕ
  pub bytes_rx : ℕ
  pub packets_tx : ℕ
  pub packets_rx : ℕ
  pub retransmissions : ℕ
  pub losses : ℕ
  pub rtt : Distribution
  pub jitter : Distribution

pub record AggregateKey : Type 0 where
  pub source_pod : Pod
  pub destination_pod : Pod
  pub observer_pod : Pod
  pub start : ℕ
  pub flow : FlowKey
  pub has_source_resolved : Bool
  pub source_resolved : ResolvedEndpoint
  pub has_destination_resolved : Bool
  pub destination_resolved : ResolvedEndpoint
  pub has_process : Bool
  pub process : Process

unfoldable pub Endpoint-discrete : Discrete Endpoint
Endpoint-discrete = hlevel ℕ_discrete

unfoldable pub FlowKey-discrete : Discrete FlowKey
FlowKey-discrete = hlevel ℕ_discrete

unfoldable pub AggregateKey-discrete : Discrete AggregateKey
AggregateKey-discrete = hlevel ℕ_discrete

-- Go's zero values.
abbrev pub no_pod : Pod
no_pod = record { uid = []; namespace = []; name = [] }

abbrev pub no_endpoint : ResolvedEndpoint
no_endpoint = record { address = []; port = 0; via = [] }

abbrev pub no_process : Process
no_process = record {
  pid = 0;
  start_time_ticks = 0;
  comm = [];
  cmdline = [];
  container_id = [];
  via = [];
}

abbrev pub no_samples : Distribution
no_samples = record { count = 0; sum_micros = 0; min_micros = 0; max_micros = 0 }

-- What `Aggregate`, `NewStream` and `Stream.Add` return as errors.
pub data WindowError : Type 0 where
  bad_window_size bad_lateness bad_max_windows : WindowError
  no_observation_time late_observation window_capacity stream_closed : WindowError
