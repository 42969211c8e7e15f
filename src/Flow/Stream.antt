-- ===== src/Flow/Stream.antt =====
-- internal/flow/stream.go: live aggregation. `flush` finalizes the windows that ended at or before a
-- watermark, and `finish` closes the stream. An instant before Go's zero time counts as it: every
-- window ends after the zero time, so no comparison with a window's end tells the two apart.
pub mod Invariant
pub mod History
pub mod Conservation
pub mod Batch
use agentkubenetwork.Base.{
  ℕ, suc, zero, ◌+◌, ◌-◌, ◌==◌, ltb, leb, not, ◌&&◌, ◌||◌, Bool, true, false, if◌then◌else◌, List,
  [], ◌∷◌, ◌++◌, map, keep, length, Option, none, some, Result, ok, err,
}
use agentkubenetwork.Base.Int.{ℤ, pos, negsuc}
use agentkubenetwork.Base.Map.{get, put}
use agentkubenetwork.Flow.Types.{
  Observation, Window, AggregateKey, AggregateKey-discrete, WindowError, bad_window_size,
  bad_lateness, bad_max_windows, no_observation_time, late_observation, window_capacity,
  stream_closed,
}
use agentkubenetwork.Flow.Window.{key_for, new_window, add as add_to}
use agentkubenetwork.Flow.Order.{sort_windows}
use agentkubenetwork.Flow.Aggregate.{Table, windows_of}

pub record StreamConfig : Type 0 where
  pub window_size : ℕ
  pub allowed_lateness : ℕ
  pub max_windows : ℕ

pub record Stream : Type 0 where
  pub config : StreamConfig
  pub open config use *
  pub windows : Table
  pub watermark : ℕ
  pub has_watermark : Bool
  pub finished : Bool

abbrev pub start_stream : ℕ → ℕ → ℕ → Stream
start_stream size lateness cap = record {
  config = record { window_size = size; allowed_lateness = lateness; max_windows = cap };
  windows = [];
  watermark = 0;
  has_watermark = false;
  finished = false;
}

unfoldable pub new_stream : ℤ → ℤ → ℤ → Result WindowError Stream
new_stream (negsuc n) lateness cap = err bad_window_size
new_stream (pos zero) lateness cap = err bad_window_size
new_stream (pos (suc n)) (negsuc m) cap = err bad_lateness
new_stream (pos (suc n)) (pos m) (negsuc c) = err bad_max_windows
new_stream (pos (suc n)) (pos m) (pos zero) = ok (start_stream (suc n) m 16384)
new_stream (pos (suc n)) (pos m) (pos (suc c)) = ok (start_stream (suc n) m (suc c))

-- The last part of `Add`: the key's window if there is one, else a new one if there is room.
unfoldable pub add_at :
    Stream → AggregateKey → Observation → Option Window → Result WindowError Stream
add_at s k o (some w) =
    ok (record s { windows = put AggregateKey-discrete k (add_to w o) s.windows })
add_at s k o none =
    if leb s.max_windows (length s.windows)
    then err window_capacity
    else ok (record s {
      windows = put AggregateKey-discrete k (add_to (new_window k s.window_size) o) s.windows;
    })

-- `Add`. An error leaves the stream as it was.
unfoldable pub add : Stream → Observation → Result WindowError Stream
unfolding add_at
add s o =
    if s.finished
    then err stream_closed
    else if o.observed_at == 0
    then err no_observation_time
    else let k = key_for o s.window_size in
      if s.has_watermark && not (ltb s.watermark (k.start + s.window_size))
      then err late_observation
      else add_at s k o (get AggregateKey-discrete k s.windows)

-- A window that ended at or before the watermark.
abbrev pub is_due : ℕ → AggregateKey × Window → Bool
is_due watermark kw = not (ltb watermark kw.1.window_end)

abbrev pub is_open : ℕ → AggregateKey × Window → Bool
is_open watermark kw = ltb watermark kw.1.window_end

-- The watermark only moves forward.
unfoldable pub advance : Stream → ℕ → Stream
advance s now =
    let watermark = now - s.allowed_lateness in
    if not s.has_watermark || ltb s.watermark watermark
    then record s { watermark = watermark; has_watermark = true }
    else s

unfoldable pub flush : Stream → ℕ → Stream × List Window
unfolding advance
flush s now =
    let t = advance s now in
    (
      record t { windows = keep (is_open t.watermark) t.windows },
      sort_windows (windows_of (keep (is_due t.watermark) t.windows)),
    )

abbrev pub mark_partial : Window → Window
mark_partial w = record w { partial = true }

unfoldable pub finish : Stream → ℕ → Stream × List Window
finish s now =
    if s.finished
    then (s, [])
    else let (t, windows) = flush s now in
      (
        record t { windows = []; finished = true },
        sort_windows (windows ++ map mark_partial (windows_of t.windows)),
      )

pub data Command : Type 0 where
  adds : Observation → Command
  flushes finishes : ℕ → Command

-- An Add that fails leaves the stream alone.
abbrev pub after : Stream → Result WindowError Stream → Stream
after s (ok t) = t
after s (err e) = s

-- One call: the stream after it and the windows it emits.
unfoldable pub step : Stream → Command → Stream × List Window
step s (adds o) = (after s (add s o), [])
step s (flushes now) = flush s now
step s (finishes now) = finish s now

unfoldable pub run : Stream → List Command → Stream × List Window
run s [] = (s, [])
run s (c ∷ cs) = let (t, emitted) = step s c in let (u, later) = run t cs in (u, emitted ++ later)
