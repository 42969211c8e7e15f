-- ===== src/Flow/Window/Keys.antt =====
-- When two observations share a window, and where in time it lies.
use agentkubenetwork.Base.{ℕ, ◌≤◌, ◌<◌, ◌≡◌, refl, ap, ◌↔◌, Option, none, some, arith}
use agentkubenetwork.Flow.Types.{Process, ResolvedEndpoint, Observation, AggregateKey, no_pod}
use agentkubenetwork.Flow.Window.{
  key_for, new_window, has_value, value_or, without_cmdline, truncate, key_process,
}
use native.Mathlib.Nat.{mod-lt, mod-le}

abbrev pub option_process : Option Process → Option Process
option_process none = none
option_process (some p) = some (without_cmdline p)

resolved_eq :
    (d : ResolvedEndpoint) (a b : Option ResolvedEndpoint)
    → has_value a ≡ has_value b
    → value_or d a ≡ value_or d b
    → a ≡ b
resolved_eq d none none h e = refl
resolved_eq d none (some b) h e = absurd (cc)
resolved_eq d (some a) none h e = absurd (cc)
resolved_eq d (some a) (some b) h e = ap some e

process_eq :
    (a b : Option Process)
    → has_value a ≡ has_value b
    → key_process a ≡ key_process b
    → option_process a ≡ option_process b
process_eq none none h e = refl
process_eq none (some b) h e = absurd (cc)
process_eq (some a) none h e = absurd (cc)
process_eq (some a) (some b) h e = ap some e

process_eq_of :
    (a b : Option Process)
    → option_process a ≡ option_process b
    → (has_value a ≡ has_value b) × (key_process a ≡ key_process b)
process_eq_of none none e = (refl, refl)
process_eq_of none (some b) e = absurd (cc)
process_eq_of (some a) none e = absurd (cc)
process_eq_of (some a) (some b) e = (refl, ground arith)

-- Two observations.
module _ (o p : Observation) (size : ℕ) where
  -- What must agree for them to share a window: the interval, the flow, both resolved endpoints (an
  -- unknown one only with an unknown one), the observing process up to its command line, and the Pods.
  abbrev pub SameIdentity : Type 0
  SameIdentity =
      (truncate o.observed_at size ≡ truncate p.observed_at size)
      × (o.flow ≡ p.flow)
      × (o.source_resolved ≡ p.source_resolved)
      × (o.destination_resolved ≡ p.destination_resolved)
      × (option_process o.process ≡ option_process p.process)
      × (value_or no_pod o.source_pod ≡ value_or no_pod p.source_pod)
      × (value_or no_pod o.destination_pod ≡ value_or no_pod p.destination_pod)
      × (value_or no_pod o.observer_pod ≡ value_or no_pod p.observer_pod)

  key_for_same : SameIdentity → key_for o size ≡ key_for p size
  unfolding key_for
  key_for_same (t, f, s, d, q, a, b, c) = let r = process_eq_of o.process p.process q in cc

  key_for_identity : key_for o size ≡ key_for p size → SameIdentity
  unfolding key_for
  key_for_identity e = (
    ap (λ k. AggregateKey.start k) e,
    ap (λ k. AggregateKey.flow k) e,
    resolved_eq _ o.source_resolved p.source_resolved
        (ap (λ k. AggregateKey.has_source_resolved k) e)
        (ap (λ k. AggregateKey.source_resolved k) e),
    resolved_eq _ o.destination_resolved p.destination_resolved
        (ap (λ k. AggregateKey.has_destination_resolved k) e)
        (ap (λ k. AggregateKey.destination_resolved k) e),
    process_eq o.process p.process (ap (λ k. AggregateKey.has_process k) e)
        (ap (λ k. AggregateKey.process k) e),
    ap (λ k. AggregateKey.source_pod k) e,
    ap (λ k. AggregateKey.destination_pod k) e,
    ap (λ k. AggregateKey.observer_pod k) e,
  )

  -- Two observations go to the same window exactly when interval, flow, resolved endpoints, observing
  -- process (up to its command line) and Pods agree. An unknown resolved endpoint or process agrees
  -- only with an unknown one; an unknown Pod counts as the Pod whose fields are all empty.
  pub key_for_iff : (key_for o size ≡ key_for p size) ↔ SameIdentity
  key_for_iff = (key_for_identity, key_for_same)

-- For a positive window size every observation lies in its window: from its start on, before its end.
pub key_for_interval :
    (o : Observation) (size : ℕ)
    → 0 < size
    → ((new_window (key_for o size) size).window_start ≤ o.observed_at)
      × (o.observed_at < (new_window (key_for o size) size).window_end)
unfolding key_for new_window
key_for_interval o size h = grind (arith, mod-lt, mod-le)
