-- ===== src/Bridge/Tests.antt =====
-- The theorems on internal/bridge at concrete inputs.
use agentkubenetwork.Base.{
  ℕ, ◌-◌, ◌*◌, ◌≤◌, ◌<◌, ◌≡◌, ◌≢◌, refl, [], ◌∷◌, true, false, none, some, Bytes, ok, arith,
  bytes_discrete, ℕ_discrete,
}
use agentkubenetwork.Base.Text.{codes}
use agentkubenetwork.Flow.Types.{Window, no_samples}
use agentkubenetwork.Flow.Stats.Laws.{summary}
use agentkubenetwork.Bridge.Validation.{
  Netip, max_safe, valid_rtt, valid_times, valid_process, valid_resolved, printable, endpoint,
  endpoint_of, validate_window, unix_epoch, unix_ms,
}
use agentkubenetwork.Bridge.Validation.Samples.{valid_rtt-summary, validate_window_sound}

-- Every text is an address.
abbrev netip : Netip
netip = record {
  Addr = Bytes;
  parse_addr = some;
  has_zone = λ a. false;
  is_unspecified = λ a. false;
  is_multicast = λ a. false;
}

abbrev window : Window
window = record {
  source_pod = none;
  destination_pod = none;
  observer_pod = none;
  partial = false;
  window_start = 63000000000000000000;
  window_end = 63000000010000000000;
  last_observed_at = 63000000001000000000;
  flow = record {
    node_name = codes "node";
    protocol = codes "tcp";
    direction = codes "outbound";
    source = record { address = codes "10.0.0.1"; port = 40000 };
    destination = record { address = codes "10.0.0.2"; port = 443 };
  };
  source_resolved = none;
  destination_resolved = none;
  process = none;
  bytes_tx = 0;
  observation_count = 2;
  bytes_rx = 0;
  packets_tx = 0;
  packets_rx = 0;
  retransmissions = 0;
  losses = 0;
  rtt = summary 30 (20 ∷ 70 ∷ []);
  jitter = no_samples;
}

valid_rtt-summary_example : valid_rtt (summary 30 (20 ∷ 70 ∷ [])) ≡ true
valid_rtt-summary_example =
    valid_rtt-summary 30 (20 ∷ 70 ∷ []) (omega arith) (omega arith, (omega arith, tt)) (omega arith)
      (omega arith)

accepted : validate_window netip window ≡ ok tt
unfolding validate_window valid_times printable endpoint endpoint_of valid_process valid_resolved
    valid_rtt bytes_discrete ℕ_discrete
accepted = refl

validate_window_sound_example :
    (unix_epoch ≤ window.window_start)
    × (window.window_start < window.window_end)
    × (unix_ms window.window_end - unix_ms window.window_start ≤ 60000)
    × (◌≢◌ {A = ℕ} window.flow.source.port 0)
    × (◌≢◌ {A = ℕ} window.flow.destination.port 0)
    × (window.rtt.count * window.rtt.min_micros ≤ window.rtt.sum_micros)
    × (window.rtt.sum_micros ≤ window.rtt.count * window.rtt.max_micros)
    × (window.rtt.sum_micros ≤ max_safe)
validate_window_sound_example = validate_window_sound netip window accepted
