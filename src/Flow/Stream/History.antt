-- ===== src/Flow/Stream/History.antt =====
-- Histories of a stream: the watermark never moves back, and a finalized interval is never opened
-- again.
use agentkubenetwork.Base.{
  ℕ, ◌+◌, ◌≤◌, ◌≡◌, ◌≢◌, refl, sym, subst, leb, true, if◌then◌else◌, List, [], ◌∷◌, keep, length,
  Option, none, some, err, arith, Bool-cases, inl, inr,
}
use agentkubenetwork.Base.Map.{get}
use agentkubenetwork.Flow.Types.{
  Observation, Window, AggregateKey, AggregateKey-discrete, late_observation, stream_closed,
}
use agentkubenetwork.Flow.Window.{key_for}
use agentkubenetwork.Flow.Aggregate.{Table}
use agentkubenetwork.Flow.Stream.{
  Stream, StreamConfig, add_at, add, advance, flush, finish, step, run, after, is_open, Command,
  adds, flushes, finishes,
}
use agentkubenetwork.Base.Keyed.{All-get}
use agentkubenetwork.Flow.Stream.Invariant.{
  Inv, IsPlaced, advance_windows, add_cases, finish_open, finish_closed,
}

-- The stream's configuration stays, and its watermark does not move back.
abbrev pub Later : Stream → Stream → Type 0
Later s t =
    (t.config ≡ s.config)
    × (s.has_watermark ≡ true → (t.has_watermark ≡ true) × (s.watermark ≤ t.watermark))

add_at-Later :
    (s : Stream) (k : AggregateKey) (o : Observation) (found : Option Window)
    → Later s (after s (add_at s k o found))
unfolding add_at
add_at-Later s k o (some w) = (refl, λ h. (h, omega arith))
add_at-Later s k o none = elim (Bool-cases (leb s.max_windows (length s.windows))) [
  | inl full ↦ rw full (refl, λ h. (h, omega arith))
  | inr room ↦ rw room (refl, λ h. (h, omega arith))
]

add-Later : (s : Stream) (o : Observation) → Later s (after s (add s o))
add-Later s o = elim (add_cases s o) [
  | inl (e, q) ↦ subst (λ r. Later s (after s r)) (sym q) (refl, λ h. (h, omega arith))
  | inr (q, _, _, _) ↦
      subst (λ r. Later s (after s r)) (sym q) (add_at-Later s (key_for o s.window_size) o _)
]

flush-Later : (s : Stream) (now : ℕ) → Later s (flush s now).0
unfolding flush advance
flush-Later s now = ground arith

finish-Later : (s : Stream) (now : ℕ) → Later s (finish s now).0
finish-Later s now = elim (Bool-cases s.finished) [
  | inl f ↦ rw (finish_closed s now f) (refl, λ h. (h, omega arith))
  | inr f ↦ rw (finish_open s now f) (flush-Later s now)
]

step-Later : (s : Stream) (c : Command) → Later s (step s c).0
unfolding step
step-Later s (adds o) = add-Later s o
step-Later s (flushes now) = flush-Later s now
step-Later s (finishes now) = finish-Later s now

run-Later : (s : Stream) (cs : List Command) → Later s (run s cs).0
unfolding run
run-Later s [] = (refl, λ h. (h, omega arith))
run-Later s (c ∷ cs) =
    let p = step-Later s c in
    let q = run-Later (step s c).0 cs in
    (cc, λ h. ((q.1 (p.1 h).0).0, omega (arith, (p.1 h).1, (q.1 (p.1 h).0).1)))

add_late :
    (t : Stream) (o : Observation)
    → t.has_watermark ≡ true
    → o.observed_at ≢ 0
    → (key_for o t.window_size).start + t.window_size ≤ t.watermark
    → add t o ≡ err (if t.finished then stream_closed else late_observation)
unfolding add
add_late t o h timed passed = ground arith

closed_interval :
    (s t : Stream) (o : Observation)
    → Later s t
    → s.has_watermark ≡ true
    → o.observed_at ≢ 0
    → (key_for o s.window_size).start + s.window_size ≤ s.watermark
    → add t o ≡ err (if t.finished then stream_closed else late_observation)
closed_interval s t o (c, later) h timed passed = add_late t o (later h).0 timed (
    subst (λ (g : StreamConfig). (key_for o g.window_size).start + g.window_size ≤ t.watermark)
      (sym c) (omega (arith, (later h).1)))

-- Whatever a flush takes away is at or before its watermark.
get-keep_open :
    (watermark : ℕ) (k : AggregateKey) (w : Window) (m : Table)
    → get AggregateKey-discrete k m ≡ some w
    → get AggregateKey-discrete k (keep (is_open watermark) m) ≡ none
    → w.window_end ≤ watermark
unfolding get
get-keep_open watermark k w [] e f = absurd (cc)
get-keep_open watermark k w ((j, v) ∷ m) e f = ground (arith, get-keep_open watermark k w m)

advance_state :
    (s : Stream) (now : ℕ)
    → ((advance s now).has_watermark ≡ true) × ((advance s now).window_size ≡ s.window_size)
unfolding advance
advance_state s now = ground arith

flush_due :
    (s : Stream) (now : ℕ) (k : AggregateKey) (w : Window)
    → Inv s
    → get AggregateKey-discrete k s.windows ≡ some w
    → get AggregateKey-discrete k (flush s now).0.windows ≡ none
    → ((flush s now).0.has_watermark ≡ true)
      × (k.start + (flush s now).0.window_size ≤ (flush s now).0.watermark)
unfolding flush
flush_due s now k w v e gone =
    let p = All-get AggregateKey-discrete (IsPlaced s.window_size) k w s.windows e v.placed in
    (
      (advance_state s now).0,
      omega (
        arith,
        p.1,
        (advance_state s now).1,
        get-keep_open (advance s now).watermark k w s.windows e (
            subst
              (λ (m : Table).
                get AggregateKey-discrete k (keep (is_open (advance s now).watermark) m) ≡ none)
              (advance_windows s now) gone),
      ),
    )

-- A window that a flush has emitted is final: whatever calls follow, a further observation of its key
-- is refused, as late, or as sent to a closed stream.
pub flush_finality :
    (s : Stream) (now : ℕ) (w : Window) (cs : List Command) (o : Observation)
    → Inv s
    → o.observed_at ≢ 0
    → get AggregateKey-discrete (key_for o s.window_size) s.windows ≡ some w
    → get AggregateKey-discrete (key_for o s.window_size) (flush s now).0.windows ≡ none
    → let t = (run (flush s now).0 cs).0 in
      add t o ≡ err (if t.finished then stream_closed else late_observation)
flush_finality s now w cs o v timed held gone =
    let p = flush_due s now (key_for o s.window_size) w v held gone in
    closed_interval (flush s now).0 (run (flush s now).0 cs).0 o (run-Later (flush s now).0 cs) p.0
      timed
      (subst
        (λ (g : StreamConfig).
          (key_for o g.window_size).start + (flush s now).0.window_size ≤ (flush s now).0.watermark)
        (sym (flush-Later s now).0) p.1)
