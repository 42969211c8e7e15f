-- ===== src/Bridge/Validation/Samples.antt =====
-- internal/bridge/validation.go against the samples behind a distribution, and what it lets through.
use Prim.Native.Nat.{min, max}
use agentkubenetwork.Base.{
  ℕ, zero, suc, ◌+◌, ◌-◌, ◌*◌, ◌≤◌, ◌<◌, ◌≡◌, ◌≢◌, subst, true, List, [], ◌∷◌, All, length, arith,
  ok,
}
use agentkubenetwork.Flow.Types.{Distribution, Window}
use agentkubenetwork.Flow.Stats.Laws.{
  summary, sum_list, least, greatest, least_start, greatest_start,
}
use agentkubenetwork.Bridge.Validation.{
  max_safe, valid_rtt, valid_times, Netip, validate_window, unix_epoch, unix_ms,
}

-- The sum of n + 1 samples between a least and a greatest one that both occur.
record Spread (n l g sum : ℕ) : Type 0 where
  pub ordered : l ≤ g
  pub above : n * l + g ≤ sum
  pub below : sum ≤ n * g + l

times_mono : (n a b : ℕ) → a ≤ b → n * a ≤ n * b
times_mono zero a b h = omega arith
times_mono (suc n) a b h = omega (arith, times_mono n a b h, h)

Spread-add : (n l g sum x : ℕ) → Spread n l g sum → Spread (suc n) (min x l) (max x g) (x + sum)
Spread-add n l g sum x s =
    let low = times_mono n (min x l) l (omega arith) in
    let high = times_mono n g (max x g) (omega arith) in
    record {
      ordered = omega (arith, s.ordered);
      above = omega (arith, s.ordered, s.above, s.below, low);
      below = omega (arith, s.ordered, s.above, s.below, high);
    }

samples-Spread :
    (x : ℕ) (xs : List ℕ) → Spread (length xs) (least x xs) (greatest x xs) (x + sum_list xs)
samples-Spread x [] = record { ordered = omega arith; above = omega arith; below = omega arith }
samples-Spread x (y ∷ ys) =
    rw (least_start x y ys, greatest_start x y ys)
      (Spread-add (length ys) (least y ys) (greatest y ys) (y + sum_list ys) x
        (samples-Spread y ys))

least_positive : (x : ℕ) (xs : List ℕ) → 1 ≤ x → All (λ y. 1 ≤ y) xs → 1 ≤ least x xs
least_positive x [] h a = h
least_positive x (y ∷ ys) h a = least_positive (min x y) ys (omega (arith, h, a.0)) a.1

least_under : (n l g sum : ℕ) → Spread n l g sum → g ≤ sum
least_under n l g sum s = omega (arith, s.above)

-- Every measurement is accepted: at least one and at most 10^9 samples of at least a microsecond each
-- whose sum is at most 2^53 - 1.
pub valid_rtt-summary :
    (x : ℕ) (xs : List ℕ)
    → 1 ≤ x
    → All (λ y. 1 ≤ y) xs
    → length xs < 1000000000
    → x + sum_list xs ≤ max_safe
    → valid_rtt (summary x xs) ≡ true
unfolding valid_rtt
valid_rtt-summary x [] h a n m = ground (arith, h, m)
valid_rtt-summary x (y ∷ ys) h a n m =
    let xs : List ℕ = y ∷ ys in
    let s = samples-Spread x xs in
    ground (arith, h, n, m, s.ordered, s.above, s.below, least_positive x xs h a)

valid_times_sound :
    (from to : ℕ)
    → valid_times from to ≡ true
    → (unix_epoch ≤ from) × (from < to) × (unix_ms to - unix_ms from ≤ 60000)
unfolding valid_times
valid_times_sound from to e = ground (arith, e)

times_split : (n a : ℕ) → 1 ≤ n → n * a ≡ (n - 1) * a + a
times_split zero a h = absurd (omega (arith, h))
times_split (suc n) a h =
    let same : n ≡ suc n - 1 = omega arith in
    subst (λ (k : ℕ). suc n * a ≡ k * a + a) same (omega arith)

valid_rtt_sound :
    (d : Distribution)
    → valid_rtt d ≡ true
    → (d.count * d.min_micros ≤ d.sum_micros)
      × (d.sum_micros ≤ d.count * d.max_micros)
      × (d.sum_micros ≤ max_safe)
unfolding valid_rtt
valid_rtt_sound d e =
    let some : 1 ≤ d.count = ground (arith, e) in
    let low = times_split d.count d.min_micros some in
    let high = times_split d.count d.max_micros some in
    (ground (arith, e, low, high), ground (arith, e, low, high), ground (arith, e))

record Accepted (netip : Netip) (w : Window) : Type 0 where
  pub times : valid_times w.window_start w.window_end ≡ true
  pub source_port : w.flow.source.port ≢ 0
  pub destination_port : w.flow.destination.port ≢ 0
  pub rtt : valid_rtt w.rtt ≡ true

validate_window-Accepted :
    (netip : Netip) (w : Window) → validate_window netip w ≡ ok tt → Accepted netip w
unfolding validate_window
validate_window-Accepted netip w e = record {
  times = ground (arith, e);
  source_port = λ h. ground (arith, e, h);
  destination_port = λ h. ground (arith, e, h);
  rtt = ground (arith, e);
}

-- What a window that is accepted promises: a time from 1970 on of at most a minute, TCP ports, and
-- round-trip times whose sum lies between that of the least and that of the greatest, in 53 bits.
pub validate_window_sound :
    (netip : Netip) (w : Window)
    → validate_window netip w ≡ ok tt
    → (unix_epoch ≤ w.window_start)
      × (w.window_start < w.window_end)
      × (unix_ms w.window_end - unix_ms w.window_start ≤ 60000)
      × (w.flow.source.port ≢ 0)
      × (w.flow.destination.port ≢ 0)
      × (w.rtt.count * w.rtt.min_micros ≤ w.rtt.sum_micros)
      × (w.rtt.sum_micros ≤ w.rtt.count * w.rtt.max_micros)
      × (w.rtt.sum_micros ≤ max_safe)
validate_window_sound netip w e =
    let a = validate_window-Accepted netip w e in
    let t = valid_times_sound w.window_start w.window_end a.times in
    let r = valid_rtt_sound w.rtt a.rtt in
    (t.0, t.1, t.2, a.source_port, a.destination_port, r.0, r.1, r.2)
