-- ===== src/Flow/Tests.antt =====
-- Concrete runs of internal/flow, and its theorems at concrete inputs.
use agentkubenetwork.Base.{
  ◌↔◌, ℕ, ◌+◌, ◌/◌, ◌%◌, ◌≡◌, refl, List, [], ◌∷◌, map, none, Result, ok, err, arith, u64,
  if◌then◌else◌, bytes_discrete, ℕ_discrete,
}
use agentkubenetwork.Base.Int.{pos}
use agentkubenetwork.Base.Map.{get, put}
use agentkubenetwork.Base.Group.{has, Distinct}
use agentkubenetwork.Flow.Types.{
  Endpoint, Distribution, FlowKey, Observation, Window, AggregateKey, AggregateKey-discrete,
  WindowError, late_observation, stream_closed,
}
use agentkubenetwork.Flow.Stats.{merge, mean_micros}
use agentkubenetwork.Flow.Stats.Laws.{summary, merge-summary}
use agentkubenetwork.Flow.Window.Keys.{SameIdentity, key_for_iff}
use agentkubenetwork.Flow.Window.{key_for, new_window, add as add_to}
use agentkubenetwork.Flow.Order.{window_less, sort_windows, sum_counts}
use agentkubenetwork.Flow.Aggregate.{aggregate, aggregate_loop, take_in}
use agentkubenetwork.Flow.Aggregate.Spec.{keys, total, aggregate-groups}
use agentkubenetwork.Flow.Stream.{
  Stream, advance, start_stream, new_stream, add, add_at, flush, finish, step, run, Command, adds,
  flushes, finishes,
}
use agentkubenetwork.Flow.Stream.Invariant.{Inv, run-new_stream-Inv}
use agentkubenetwork.Flow.Stream.History.{flush_finality}
use agentkubenetwork.Flow.Stream.Conservation.{held, accepted, run-held}
use agentkubenetwork.Flow.Stream.Batch.{feed, as_complete, feed-finish}
use mathlib.Core.List.{Perm}

abbrev client : Endpoint
client = record { address = 49 ∷ []; port = 40000 }

abbrev server : Endpoint
server = record { address = 50 ∷ []; port = 443 }

abbrev web_flow : FlowKey
web_flow = record {
  node_name = 110 ∷ [];
  protocol = 116 ∷ [];
  direction = 111 ∷ [];
  source = client;
  destination = server;
}

abbrev measured : ℕ → Distribution
measured x = record { count = 1; sum_micros = x; min_micros = x; max_micros = x }

abbrev seen_at : ℕ → Observation
seen_at t = record {
  source_pod = none;
  destination_pod = none;
  observer_pod = none;
  observed_at = t;
  kernel_timestamp_ns = 0;
  flow = web_flow;
  source_resolved = none;
  destination_resolved = none;
  process = none;
  bytes_tx = 10;
  bytes_rx = 20;
  packets_tx = 1;
  packets_rx = 2;
  retransmissions = 0;
  losses = 0;
  rtt = measured t;
  jitter = measured 1;
}

abbrev batch : List Observation
batch = seen_at 7 ∷ seen_at 12 ∷ seen_at 9 ∷ []

abbrev counts : Result WindowError (List Window) → List ℕ
counts (ok ws) = map (λ w. w.observation_count) ws
counts (err e) = []

-- Two windows: two observations in [5, 10), one in [10, 15).
aggregate-batch : counts (aggregate batch (pos 5)) ≡ 2 ∷ 1 ∷ []
unfolding aggregate take_in key_for new_window add_to get put AggregateKey-discrete sort_windows
    window_less bytes_discrete aggregate_loop ℕ_discrete
aggregate-batch = refl

aggregate-groups_example :
    (ks : List AggregateKey) × (ws : List Window) × Distinct AggregateKey-discrete ks
    × ((k : AggregateKey)
        → has AggregateKey-discrete k ks ≡ has AggregateKey-discrete k (keys 5 batch))
    × (aggregate batch (pos 5) ≡ ok ws)
    × Perm ws (map (total 5 batch) ks)
aggregate-groups_example = aggregate-groups 4 batch (omega arith)

merge-summary_example :
    (merge (summary 3 (9 ∷ [])) (summary 4 []) ≡ summary 3 (9 ∷ 4 ∷ []))
    × (mean_micros (merge (summary 3 (9 ∷ [])) (summary 4 [])) ≡ 16 / 3)
merge-summary_example = merge-summary 3 4 (9 ∷ []) [] (omega arith) (omega arith)

-- A stream that holds the window [5, 10) of one observation.
holding : Stream
unfolding run add
holding = (run (start_stream 5 1 4) (adds (seen_at 7) ∷ [])).0

history : List Command
history = adds (seen_at 7) ∷ adds (seen_at 12) ∷ flushes 11 ∷ adds (seen_at 8) ∷ finishes 13 ∷ []

run-new_stream-Inv_example : Inv (run (start_stream 5 1 4) history).0
unfolding new_stream
run-new_stream-Inv_example =
    run-new_stream-Inv (pos 5) (pos 1) (pos 4) (start_stream 5 1 4) history refl

holding-Inv : Inv holding
unfolding new_stream holding
holding-Inv =
    run-new_stream-Inv (pos 5) (pos 1) (pos 4) (start_stream 5 1 4) (adds (seen_at 7) ∷ []) refl

-- The late observation at 8 is refused, so two of the three are counted.
history_accepts : accepted (start_stream 5 1 4) history ≡ 2
unfolding accepted history add add_at flush finish advance key_for new_window add_to get put
    AggregateKey-discrete bytes_discrete ℕ_discrete
history_accepts = refl

run-held_example :
    (sum_counts (run (start_stream 5 1 4) history).1
        + held (run (start_stream 5 1 4) history).0.windows)
      % u64
    ≡ (0 + accepted (start_stream 5 1 4) history) % u64
run-held_example = run-held (start_stream 5 1 4) history

flush_finality_example :
    add (run (flush holding 20).0 (flushes 21 ∷ [])).0 (seen_at 8)
    ≡ err (
        if (run (flush holding 20).0 (flushes 21 ∷ [])).0.finished
        then stream_closed
        else late_observation)
unfolding holding add add_at flush advance key_for new_window add_to get put AggregateKey-discrete
    bytes_discrete step ℕ_discrete
flush_finality_example =
    flush_finality holding 20 (add_to (new_window (key_for (seen_at 7) 5) 5) (seen_at 7))
      (flushes 21 ∷ []) (seen_at 8) holding-Inv (omega arith) refl refl

-- The stream after some observations, if it takes them all.
fed : List Observation → Stream
unfolding feed
fed os = elim (feed (start_stream 5 1 4) os) [ ok t ↦ t | err e ↦ start_stream 5 1 4 ]

feed-finish_example :
    (ws : List Window) × (aggregate batch (pos 5) ≡ ok ws)
    × Perm (map as_complete (finish (fed batch) 13).1) (map as_complete ws)
unfolding fed feed add add_at key_for new_window add_to get put AggregateKey-discrete bytes_discrete
    step ℕ_discrete
feed-finish_example = feed-finish 4 1 4 13 batch (fed batch) refl

key_for_iff_example :
    (key_for (seen_at 7) 5 ≡ key_for (seen_at 9) 5) ↔ SameIdentity (seen_at 7) (seen_at 9) 5
key_for_iff_example = key_for_iff (seen_at 7) (seen_at 9) 5
