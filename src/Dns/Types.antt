-- ===== src/Dns/Types.antt =====
-- internal/dns/dns.go: captured datagrams, parsed messages, and transactions.
use agentkubenetwork.Base.{ℕ, Bool, Bytes, Option, ℕ_discrete}
use agentkubenetwork.Flow.Types.{Endpoint, ResolvedEndpoint, Process, Pod}

-- One captured datagram, its endpoints in the datagram's direction.
pub record Fragment : Type 0 where
  pub observed_at : ℕ
  pub kernel_timestamp_ns : ℕ
  pub node_name : Bytes
  pub observer_pid : ℕ
  pub process : Option Process
  pub source_resolved : Option ResolvedEndpoint
  pub destination_resolved : Option ResolvedEndpoint
  pub source_pod : Option Pod
  pub destination_pod : Option Pod
  pub observer_pod : Option Pod
  pub source : Endpoint
  pub destination : Endpoint
  pub payload : Bytes

-- The header and first question of a datagram.
pub record Message : Type 0 where
  pub id : ℕ
  pub response : Bool
  pub response_code : ℕ
  pub question_name : Bytes
  pub question_type : ℕ

pub data Outcome : Type 0 where
  response no_response parse_failed incomplete : Outcome

pub data Reason : Type 0 where
  no_reason capture_ended state_capacity : Reason

pub record Transaction : Type 0 where
  pub observed_at : ℕ
  pub node_name : Bytes
  pub observer_pid : ℕ
  pub process : Option Process
  pub client_resolved : Option ResolvedEndpoint
  pub server_resolved : Option ResolvedEndpoint
  pub client_pod : Option Pod
  pub server_pod : Option Pod
  pub observer_pod : Option Pod
  pub protocol : Bytes
  pub client : Endpoint
  pub server : Endpoint
  pub query_name : Bytes
  pub query_type : Bytes
  pub outcome : Outcome
  pub reason : Reason
  pub response_code : Bytes
  pub latency_measured : Bool
  pub latency_micros : ℕ

pub record PendingKey : Type 0 where
  pub client : Endpoint
  pub server : Endpoint
  pub id : ℕ
  pub name : Bytes
  pub query_type : ℕ
  pub observer_pid : ℕ
  pub node_name : Bytes

unfoldable pub PendingKey-discrete : Discrete PendingKey
PendingKey-discrete = hlevel ℕ_discrete

-- A query that waits for its response. (The index into the heap's array is not needed: the heap is
-- modelled by its order.)
pub record PendingQuery : Type 0 where
  pub fragment : Fragment
  pub message : Message
  pub key : PendingKey
  pub sequence : ℕ
