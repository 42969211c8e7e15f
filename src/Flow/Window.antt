-- ===== src/Flow/Window.antt =====
-- internal/flow/window.go: the key of an observation's window, the empty window of a key, and how a
-- window takes an observation in.
pub mod Keys
use agentkubenetwork.Base.{
  ℕ, ◌+◌, ◌-◌, ◌%◌, ◌==◌, ltb, ◌||◌, Bool, true, false, if◌then◌else◌, Option, none, some, [], ◌∷◌,
  Bytes, add64,
}
use agentkubenetwork.Flow.Types.{
  Pod, Process, Observation, Window, AggregateKey, no_pod, no_endpoint, no_process, no_samples,
}
use agentkubenetwork.Flow.Stats.{merge}

-- `t.Truncate(d)` for a positive d: down to a multiple of d since the zero time.
abbrev pub truncate : ℕ → ℕ → ℕ
truncate t d = t - t % d

abbrev pub has_value : {A : Type 0} → Option A → Bool
has_value none = false
has_value (some a) = true

abbrev pub value_or : {A : Type 0} → A → Option A → A
value_or d none = d
value_or d (some a) = a

-- Command lines are not part of a window's identity.
abbrev pub without_cmdline : Process → Process
without_cmdline p = record p { cmdline = [] }

abbrev key_process : Option Process → Process
key_process none = no_process
key_process (some p) = without_cmdline p

unfoldable pub key_for : Observation → ℕ → AggregateKey
key_for o window_size = record {
  source_pod = value_or no_pod o.source_pod;
  destination_pod = value_or no_pod o.destination_pod;
  observer_pod = value_or no_pod o.observer_pod;
  start = truncate o.observed_at window_size;
  flow = o.flow;
  has_source_resolved = has_value o.source_resolved;
  source_resolved = value_or no_endpoint o.source_resolved;
  has_destination_resolved = has_value o.destination_resolved;
  destination_resolved = value_or no_endpoint o.destination_resolved;
  has_process = has_value o.process;
  process = key_process o.process;
}

abbrev pub is_empty : Bytes → Bool
is_empty [] = true
is_empty (c ∷ cs) = false

-- A pointer to the pod, unless its UID is empty.
abbrev known_pod : Pod → Option Pod
known_pod p = if is_empty p.uid then none else some p

unfoldable pub new_window : AggregateKey → ℕ → Window
new_window k window_size = record {
  source_pod = known_pod k.source_pod;
  destination_pod = known_pod k.destination_pod;
  observer_pod = known_pod k.observer_pod;
  partial = false;
  window_start = k.start;
  window_end = k.start + window_size;
  last_observed_at = 0;
  flow = k.flow;
  source_resolved = if k.has_source_resolved then some k.source_resolved else none;
  destination_resolved = if k.has_destination_resolved then some k.destination_resolved else none;
  process = if k.has_process then some k.process else none;
  bytes_tx = 0;
  observation_count = 0;
  bytes_rx = 0;
  packets_tx = 0;
  packets_rx = 0;
  retransmissions = 0;
  losses = 0;
  rtt = no_samples;
  jitter = no_samples;
}

unfoldable pub add : Window → Observation → Window
add w o = record w {
  observation_count = add64 w.observation_count 1;
  last_observed_at =
      if (w.last_observed_at == 0) || ltb w.last_observed_at o.observed_at
      then o.observed_at
      else w.last_observed_at;
  bytes_tx = add64 w.bytes_tx o.bytes_tx;
  bytes_rx = add64 w.bytes_rx o.bytes_rx;
  packets_tx = add64 w.packets_tx o.packets_tx;
  packets_rx = add64 w.packets_rx o.packets_rx;
  retransmissions = add64 w.retransmissions o.retransmissions;
  losses = add64 w.losses o.losses;
  rtt = merge w.rtt o.rtt;
  jitter = merge w.jitter o.jitter;
}
