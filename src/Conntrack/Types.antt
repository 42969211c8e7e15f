-- ===== src/Conntrack/Types.antt =====
-- internal/conntrack/conntrack.go: tuples, entries and lookup keys.
use agentkubenetwork.Base.{ℕ, Bytes, ℕ_discrete}
use agentkubenetwork.Flow.Types.{Endpoint}

-- One direction of a conntrack entry.
pub record Tuple : Type 0 where
  pub protocol : ℕ
  pub source : Endpoint
  pub destination : Endpoint

-- The original (pre-NAT) and the reply (post-NAT) tuple.
pub record Entry : Type 0 where
  pub original : Tuple
  pub reply : Tuple

pub record LookupKey : Type 0 where
  pub protocol : ℕ
  pub source_address : Bytes
  pub source_port : ℕ
  pub destination_address : Bytes
  pub destination_port : ℕ

unfoldable pub LookupKey-discrete : Discrete LookupKey
LookupKey-discrete = hlevel ℕ_discrete

unfoldable pub Tuple-discrete : Discrete Tuple
Tuple-discrete = hlevel ℕ_discrete

abbrev pub tuple_key : Tuple → LookupKey
tuple_key t = record {
  protocol = t.protocol;
  source_address = t.source.address;
  source_port = t.source.port;
  destination_address = t.destination.address;
  destination_port = t.destination.port;
}
