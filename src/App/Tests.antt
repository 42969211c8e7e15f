-- ===== src/App/Tests.antt =====
-- Concrete runs of internal/app, and its theorems at concrete inputs.
use agentkubenetwork.Base.{
  ◌≤◌, ◌≡◌, refl, false, true, [], ◌∷◌, All, arith, ◌+◌, ◌*◌, ◌==◌, ◌++◌, ltb, map, Option, none,
  Bytes, bytes_discrete, ℕ, List, some, ℕ_discrete, if◌then◌else◌,
}
use agentkubenetwork.Base.Text.{codes}
use agentkubenetwork.Flow.Types.{Endpoint, Process, Observation, FlowKey-discrete}
use agentkubenetwork.App.Resolution.{
  DestinationResolver, LoopEvent, received, ticked, Report, observed, resolved, resolution_record,
  fresh_or, resolve_observation, attach_process, superseded, still_waiting, enqueue, capture_ended,
  retry_item, retry, take_connect, take_event, handle, handle_all,
}
use agentkubenetwork.App.Resolution.Once.{reported, tally, all_received, handle_all_once}
use agentkubenetwork.App.Resolution.Queue.{IsOrderly, handle_all-IsOrderly}
use agentkubenetwork.App.Progress.{
  CaptureProgress, start, accept, consume, finish, earliest, watermark,
}
use agentkubenetwork.App.Progress.Pins.{
  Runs, ends, calls, accepting, consuming, finishing, step, watermark_pins,
}

-- Two events are outstanding.
abbrev reading : CaptureProgress
reading = record { cutoff = 0; ended = false; outstanding = 5 ∷ 7 ∷ [] }

-- The first is consumed, and the capture ends.
abbrev read : CaptureProgress
read = record { cutoff = 12; ended = true; outstanding = 7 ∷ [] }

reading_runs : Runs start 3 reading 9
unfolding step accept
reading_runs =
    calls (accepting 5 false) (omega arith) refl
      (calls (accepting 7 false) (omega arith) refl (ends (omega arith)))

read_runs : Runs reading 9 read 20
unfolding step consume finish
read_runs =
    calls consuming (omega arith) refl
      (calls (finishing 12) (omega arith) refl (ends (omega arith)))

watermark_test : watermark reading 9 ≡ 5
unfolding watermark earliest
watermark_test = refl

watermark_pins_example :
    (watermark reading 9 ≤ watermark read 20)
    × All (λ at. watermark reading 9 ≤ at) read.outstanding
watermark_pins_example = watermark_pins reading_runs read_runs

abbrev endpoint : ℕ → Endpoint
endpoint port = record { address = codes "10.0.0.1"; port = port }

-- A world that counts the calls of the resolver, which answers from the third on.
abbrev resolver : DestinationResolver ℕ
resolver = record {
  resolve = λ n protocol source destination. (n + 1, none);
  resolve_after = some (λ n protocol source destination at.
      (n + 1, if ltb n 2 then none else some (endpoint 9, codes "dnat")));
}

abbrev clock : ℕ → ℕ × ℕ
clock n = (n, n * 100000000)

abbrev lookup : ℕ → ℕ → ℕ × Option Process
lookup n pid = (n, none)

abbrev connection : ℕ → Observation
connection port = record {
  source_pod = none;
  destination_pod = none;
  observer_pod = none;
  observed_at = 5;
  kernel_timestamp_ns = 5;
  flow = record {
    node_name = [];
    protocol = codes "tcp";
    direction = codes "egress";
    source = endpoint port;
    destination = endpoint 80;
  };
  source_resolved = none;
  destination_resolved = none;
  process = none;
  bytes_tx = 0;
  bytes_rx = 0;
  packets_tx = 0;
  packets_rx = 0;
  retransmissions = 0;
  losses = 0;
  rtt = record { count = 0; sum_micros = 0; min_micros = 0; max_micros = 0 };
  jitter = record { count = 0; sum_micros = 0; min_micros = 0; max_micros = 0 };
}

-- The second connection takes the place of the first, which has the same flow.
abbrev events : List LoopEvent
events = received true 7 (connection 4000) ∷ received true 7 (connection 4000) ∷ ticked ∷ []

abbrev reason_of : Report → Bytes
reason_of (observed o) = codes "none"
reason_of (resolved o e) = e.reason

handle_all_test :
    map (λ r. reason_of r) (handle_all (some resolver) (some lookup) clock 0 events []).1
    ≡ codes "tuple_reused" ∷ [] ∷ []
unfolding handle_all handle take_event take_connect enqueue superseded still_waiting retry
    retry_item resolve_observation fresh_or attach_process resolution_record bytes_discrete
    FlowKey-discrete ℕ_discrete
handle_all_test = refl

handle_all_once_example :
    let r = handle_all (some resolver) (some lookup) clock 0 events [] in
    tally (λ o. o.flow.source.port == 4000) reported (r.1 ++ capture_ended r.2)
    ≡ tally (λ o. o.flow.source.port == 4000) (λ (o : Observation). o) (all_received events)
handle_all_once_example =
    handle_all_once (some resolver) (some lookup) clock (λ o. o.flow.source.port == 4000) 0 events

handle_all-IsOrderly_example :
    IsOrderly (handle_all (some resolver) (some lookup) clock 0 events []).2
handle_all-IsOrderly_example = handle_all-IsOrderly (some resolver) (some lookup) clock 0 events
