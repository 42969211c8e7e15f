-- ===== src/Dns/Transactions.antt =====
-- internal/dns/dns.go: what a fragment becomes in the correlator's hands: the copy that is kept, the key
-- of its exchange, and the transactions that report it. The constant schema version is left out.
use agentkubenetwork.Base.{
  ◌-◌, ◌/◌, ◌%◌, ◌==◌, ltb, leb, not, ◌&&◌, Bool, false, if◌then◌else◌, [], length, get_or, Option,
  none, some, Bytes,
}
use agentkubenetwork.Base.Text.{codes}
use agentkubenetwork.Flow.Types.{Process}
use agentkubenetwork.Flow.Window.{without_cmdline}
use agentkubenetwork.Dns.Types.{
  Fragment, Message, Transaction, response, no_response, parse_failed, incomplete, no_reason,
  capture_ended, PendingKey, PendingQuery,
}
use agentkubenetwork.Dns.Message.{response_code_string, query_type_string}

-- The identity that is kept has no raw datagram and no command line.
abbrev pub snapshot_process : Option Process → Option Process
snapshot_process none = none
snapshot_process (some p) = some (without_cmdline p)

unfoldable pub snapshot_fragment : Fragment → Fragment
snapshot_fragment f = record f { payload = []; process = snapshot_process f.process }

abbrev pub query_key : Fragment → Message → PendingKey
query_key f m = record {
  client = f.source;
  server = f.destination;
  id = m.id;
  name = m.question_name;
  query_type = m.question_type;
  observer_pid = f.observer_pid;
  node_name = f.node_name;
}

abbrev pub response_key : Fragment → Message → PendingKey
response_key f m = record {
  client = f.destination;
  server = f.source;
  id = m.id;
  name = m.question_name;
  query_type = m.question_type;
  observer_pid = f.observer_pid;
  node_name = f.node_name;
}

-- The transaction of a query without a response.
unfoldable pub no_response_of : Fragment → Message → Transaction
no_response_of f m = record {
  observed_at = f.observed_at;
  node_name = f.node_name;
  observer_pid = f.observer_pid;
  process = f.process;
  client_resolved = f.source_resolved;
  server_resolved = f.destination_resolved;
  client_pod = f.source_pod;
  server_pod = f.destination_pod;
  observer_pod = f.observer_pod;
  protocol = codes "udp";
  client = f.source;
  server = f.destination;
  query_name = m.question_name;
  query_type = query_type_string m.question_type;
  outcome = no_response;
  reason = no_reason;
  response_code = [];
  latency_measured = false;
  latency_micros = 0;
}

abbrev pub unanswered : PendingQuery → Transaction
unanswered q = no_response_of q.fragment q.message

abbrev pub at_capture_end : PendingQuery → Transaction
at_capture_end q = record (unanswered q) { outcome = incomplete; reason = capture_ended }

-- What a datagram that cannot be parsed reports: without a header no direction is known; with one,
-- its response bit tells which end is the client.
unfoldable pub oriented : Fragment → Bytes → Fragment
oriented f payload =
    if ltb (length payload) 12
    then record f {
      source_resolved = none;
      destination_resolved = none;
      source_pod = none;
      destination_pod = none;
    }
    else if not (get_or payload 2 0 / 128 % 2 == 0)
    then record f {
      source = f.destination;
      destination = f.source;
      source_resolved = f.destination_resolved;
      destination_resolved = f.source_resolved;
      source_pod = f.destination_pod;
      destination_pod = f.source_pod;
    }
    else f

unfoldable pub parse_failure : Fragment → Transaction
parse_failure f = record {
  observed_at = f.observed_at;
  node_name = f.node_name;
  observer_pid = f.observer_pid;
  process = f.process;
  client_resolved = f.source_resolved;
  server_resolved = f.destination_resolved;
  client_pod = f.source_pod;
  server_pod = f.destination_pod;
  observer_pod = f.observer_pod;
  protocol = codes "udp";
  client = f.source;
  server = f.destination;
  query_name = [];
  query_type = [];
  outcome = parse_failed;
  reason = no_reason;
  response_code = [];
  latency_measured = false;
  latency_micros = 0;
}

unfoldable pub response_of : Fragment → Message → Transaction
response_of f m = record {
  observed_at = f.observed_at;
  node_name = f.node_name;
  observer_pid = f.observer_pid;
  process = f.process;
  client_resolved = f.destination_resolved;
  server_resolved = f.source_resolved;
  client_pod = f.destination_pod;
  server_pod = f.source_pod;
  observer_pod = f.observer_pod;
  protocol = codes "udp";
  client = f.destination;
  server = f.source;
  query_name = m.question_name;
  query_type = query_type_string m.question_type;
  outcome = response;
  reason = no_reason;
  response_code = response_code_string m.response_code;
  latency_measured = false;
  latency_micros = 0;
}

-- The latency is measured only between two ordered timestamps, the first of them not 0.
abbrev pub is_ordered : PendingQuery → Fragment → Bool
is_ordered q f =
    not (q.fragment.kernel_timestamp_ns == 0)
    && leb q.fragment.kernel_timestamp_ns f.kernel_timestamp_ns

unfoldable pub matched : PendingQuery → Fragment → Message → Transaction
matched q f m =
    let t = response_of f m in
    let measured = is_ordered q f in
    record t {
      process = q.fragment.process;
      client_resolved = q.fragment.source_resolved;
      server_resolved = q.fragment.destination_resolved;
      client_pod = q.fragment.source_pod;
      server_pod = q.fragment.destination_pod;
      observer_pod = q.fragment.observer_pod;
      latency_measured = measured;
      latency_micros =
          if measured then (f.kernel_timestamp_ns - q.fragment.kernel_timestamp_ns) / 1000 else 0;
    }
