-- ===== src/Flow/Stream/Conservation.antt =====
-- What goes into a stream comes out of it: `ObservationCount` over all windows.
use agentkubenetwork.Base.{
  ℕ, ◌+◌, ◌%◌, ◌≡◌, refl, ap, leb, false, List, [], ◌∷◌, ◌++◌, keep, map, length, Option, none,
  some, Result, ok, err, arith, Bool-cases, inl, inr, u64, add64,
}
use agentkubenetwork.Base.Map.{get, put}
use agentkubenetwork.Flow.Types.{
  Observation, Window, AggregateKey, AggregateKey-discrete, WindowError,
}
use agentkubenetwork.Flow.Window.{key_for, new_window, add as add_to}
use agentkubenetwork.Flow.Order.{
  sort_windows, sum_counts, sum_counts-sort_windows, sum_counts-append,
}
use agentkubenetwork.Flow.Aggregate.{Table, windows_of}
use agentkubenetwork.Flow.Stream.{
  Stream, add_at, add, advance, flush, finish, step, run, after, is_open, is_due, mark_partial,
  Command, adds, flushes, finishes,
}
use agentkubenetwork.Flow.Stream.Invariant.{advance_windows, add_cases, finish_open, finish_closed}

-- The observations that a table's windows count.
abbrev pub held : Table → ℕ
held m = sum_counts (windows_of m)

held-put :
    (k : AggregateKey) (v w : Window) (m : Table)
    → get AggregateKey-discrete k m ≡ some w
    → held (put AggregateKey-discrete k v m) + w.observation_count ≡ held m + v.observation_count
unfolding get put
held-put k v w [] e = absurd (cc)
held-put k v w ((j, u) ∷ m) e = ground (arith, held-put k v w m)

held-put_new :
    (k : AggregateKey) (v : Window) (m : Table)
    → get AggregateKey-discrete k m ≡ none
    → held (put AggregateKey-discrete k v m) ≡ held m + v.observation_count
unfolding get put
held-put_new k v [] e = ground arith
held-put_new k v ((j, u) ∷ m) e = ground (arith, held-put_new k v m)

count-add_to :
    (w : Window) (o : Observation) → (add_to w o).observation_count ≡ add64 w.observation_count 1
unfolding add_to
count-add_to w o = refl

-- 1 for a call of `Add` that succeeds.
abbrev pub success : Result WindowError Stream → ℕ
success (ok t) = 1
success (err e) = 0

new_count : (k : AggregateKey) (size : ℕ) → (new_window k size).observation_count ≡ 0
unfolding new_window
new_count k size = refl

add_at-held :
    (s : Stream) (k : AggregateKey) (o : Observation) (found : Option Window)
    → get AggregateKey-discrete k s.windows ≡ found
    → held (after s (add_at s k o found)).windows % u64
      ≡ (held s.windows + success (add_at s k o found)) % u64
unfolding add_at
add_at-held s k o (some w) e =
    omega (arith, held-put k (add_to w o) w s.windows e, count-add_to w o)
add_at-held s k o none e = elim (Bool-cases (leb s.max_windows (length s.windows))) [
  | inl full ↦ rw full (omega arith)
  | inr room ↦
      let w = new_window k s.window_size in
      rw room (
        omega (
          arith,
          held-put_new k (add_to w o) s.windows e,
          count-add_to w o,
          new_count k s.window_size,
        ))
]

-- The calls of `Add` in a history that succeed.
unfoldable pub accepted : Stream → List Command → ℕ
accepted s [] = 0
accepted s (adds o ∷ cs) = success (add s o) + accepted (after s (add s o)) cs
accepted s (flushes now ∷ cs) = accepted (flush s now).0 cs
accepted s (finishes now ∷ cs) = accepted (finish s now).0 cs

keep_split :
    (watermark : ℕ) (m : Table)
    → held (keep (is_due watermark) m) + held (keep (is_open watermark) m) ≡ held m
keep_split watermark [] = omega arith
keep_split watermark (kw ∷ m) = ground (arith, keep_split watermark m)

flush-held :
    (s : Stream) (now : ℕ)
    → sum_counts (flush s now).1 + held (flush s now).0.windows ≡ held s.windows
unfolding flush
flush-held s now = omega (
  arith,
  sum_counts-sort_windows
      (windows_of (keep (is_due (advance s now).watermark) (advance s now).windows)),
  keep_split (advance s now).watermark (advance s now).windows,
  ap held (advance_windows s now),
)

sum_counts-mark_partial : (ws : List Window) → sum_counts (map mark_partial ws) ≡ sum_counts ws
sum_counts-mark_partial [] = refl
sum_counts-mark_partial (w ∷ ws) = omega (arith, sum_counts-mark_partial ws)

pub finish_emits :
    (s : Stream) (now : ℕ)
    → s.finished ≡ false
    → (finish s now).1
      ≡ sort_windows ((flush s now).1 ++ map mark_partial (windows_of (flush s now).0.windows))
unfolding finish
finish_emits s now f = ground arith

finish-held :
    (s : Stream) (now : ℕ)
    → sum_counts (finish s now).1 + held (finish s now).0.windows ≡ held s.windows
finish-held s now = elim (Bool-cases s.finished) [
  | inl f ↦ rw (finish_closed s now f) (omega arith)
  | inr f ↦ omega (
    arith,
    ap sum_counts (finish_emits s now f),
    sum_counts-sort_windows
        ((flush s now).1 ++ map mark_partial (windows_of (flush s now).0.windows)),
    sum_counts-append (flush s now).1 (map mark_partial (windows_of (flush s now).0.windows)),
    sum_counts-mark_partial (windows_of (flush s now).0.windows),
    flush-held s now,
    ap (λ t. held (Stream.windows t)) (finish_open s now f),
  )
]

add-held :
    (s : Stream) (o : Observation)
    → held (after s (add s o)).windows % u64 ≡ (held s.windows + success (add s o)) % u64
add-held s o = elim (add_cases s o) [
  | inl (e, q) ↦ rw q (omega arith)
  | inr (q, _, _, _) ↦ rw q (add_at-held s (key_for o s.window_size) o _ refl)
]

-- Over any history, the observations that the emitted windows count, with those that the held windows
-- count, are those held at first and one for each call of Add that succeeded (in uint64 arithmetic).
-- Nothing that was accepted is dropped or counted twice by a flush or by shutdown.
pub run-held :
    (s : Stream) (cs : List Command)
    → (sum_counts (run s cs).1 + held (run s cs).0.windows) % u64
      ≡ (held s.windows + accepted s cs) % u64
unfolding run accepted step
run-held s [] = omega arith
run-held s (adds o ∷ cs) = omega (arith, add-held s o, run-held (after s (add s o)) cs)
run-held s (flushes now ∷ cs) = omega (
  arith,
  flush-held s now,
  run-held (flush s now).0 cs,
  sum_counts-append (flush s now).1 (run (flush s now).0 cs).1,
)
run-held s (finishes now ∷ cs) = omega (
  arith,
  finish-held s now,
  run-held (finish s now).0 cs,
  sum_counts-append (finish s now).1 (run (finish s now).0 cs).1,
)
