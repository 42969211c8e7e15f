-- ===== src/Flow/Stream/Invariant.antt =====
-- What every stream keeps: one window for each key, no more windows than allowed, each placed on its
-- key's interval and not yet due, and none once the stream is finished.
use agentkubenetwork.Base.{
  ℕ, zero, suc, ◌+◌, ◌-◌, ◌≤◌, ◌<◌, ◌≡◌, ◌≢◌, refl, sym, subst, ap, ◌⊎◌, ltb→lt, ◌==◌, ltb, leb,
  not, ◌&&◌, ◌||◌, Bool, true, false, List, [], ◌∷◌, keep, map, length, All, Option, none, some, ok,
  err, arith, Bool-cases, leb-false, inl, inr,
}
use agentkubenetwork.Base.Map.{get, put}
use agentkubenetwork.Base.Int.{ℤ, pos, negsuc}
use agentkubenetwork.Base.Group.{Distinct, insert_key-Distinct}
use agentkubenetwork.Flow.Types.{
  Observation, Window, AggregateKey, AggregateKey-discrete, WindowError, stream_closed,
  no_observation_time, late_observation,
}
use agentkubenetwork.Flow.Window.{key_for, new_window, add as add_to}
use agentkubenetwork.Flow.Stream.{
  Stream, start_stream, new_stream, add_at, add, advance, flush, finish, step, run, after, is_open,
  Command, adds, flushes, finishes,
}
use agentkubenetwork.Base.Keyed.{
  keys_of-put, length-put, All-put, All-get, keep-Distinct, length-keep, All-keep, All-imp,
  keep_passes,
}

abbrev pub IsPlaced : ℕ → AggregateKey × Window → Type 0
IsPlaced size kw = (kw.1.window_start ≡ kw.0.start) × (kw.1.window_end ≡ kw.0.start + size)

pub record Inv (s : Stream) : Type 0 where
  pub distinct : Distinct AggregateKey-discrete (map (λ kw. kw.0) s.windows)
  pub within : length s.windows ≤ s.max_windows
  pub placed : All (IsPlaced s.window_size) s.windows
  pub not_due : s.has_watermark ≡ true → All (λ kw. s.watermark < kw.1.window_end) s.windows
  pub emptied : s.finished ≡ true → s.windows ≡ []

start_stream-Inv : (size lateness cap : ℕ) → Inv (start_stream size lateness cap)
start_stream-Inv size lateness cap = record {
  distinct = tt;
  within = omega arith;
  placed = tt;
  not_due = λ h. tt;
  emptied = λ h. refl;
}

new_stream-Inv : (size lateness cap : ℤ) (s : Stream) → new_stream size lateness cap ≡ ok s → Inv s
unfolding new_stream
new_stream-Inv (negsuc n) lateness cap s e = absurd (cc)
new_stream-Inv (pos zero) lateness cap s e = absurd (cc)
new_stream-Inv (pos (suc n)) (negsuc m) cap s e = absurd (cc)
new_stream-Inv (pos (suc n)) (pos m) (negsuc c) s e = absurd (cc)
new_stream-Inv (pos (suc n)) (pos m) (pos zero) s e =
    subst Inv (cc) (start_stream-Inv (suc n) m 16384)
new_stream-Inv (pos (suc n)) (pos m) (pos (suc c)) s e =
    subst Inv (cc) (start_stream-Inv (suc n) m (suc c))

-- The writes of `Add`: a window that is placed on an interval not yet due.
put-Inv :
    (s : Stream) (k : AggregateKey) (w : Window)
    → Inv s
    → s.finished ≡ false
    → length (put AggregateKey-discrete k w s.windows) ≤ s.max_windows
    → IsPlaced s.window_size (k, w)
    → (s.has_watermark ≡ true → s.watermark < w.window_end)
    → Inv (record s { windows = put AggregateKey-discrete k w s.windows })
put-Inv s k w v f n p live = record {
  distinct =
      subst (Distinct AggregateKey-discrete) (sym (keys_of-put AggregateKey-discrete k w s.windows))
        (insert_key-Distinct AggregateKey-discrete k _ v.distinct);
  within = n;
  placed = All-put AggregateKey-discrete _ k w s.windows p v.placed;
  not_due = λ h. All-put AggregateKey-discrete _ k w s.windows (live h) (v.not_due h);
  emptied = λ h. absurd (cc);
}

add_at-Inv :
    (s : Stream) (k : AggregateKey) (o : Observation) (found : Option Window)
    → get AggregateKey-discrete k s.windows ≡ found
    → Inv s
    → s.finished ≡ false
    → (s.has_watermark ≡ true → s.watermark < k.start + s.window_size)
    → Inv (after s (add_at s k o found))
unfolding add_at
add_at-Inv s k o none e v f live = elim (Bool-cases (leb s.max_windows (length s.windows))) [
  | inl full ↦ rw full v
  | inr room ↦ rw room (
      put-Inv s k _ v f
        (omega (
          arith,
          (length-put AggregateKey-discrete k (add_to (new_window k s.window_size) o) s.windows).0,
          leb-false _ _ room,
        ))
        (unfold new_window add_to in (refl, refl)) (unfold new_window add_to in live))
]
add_at-Inv s k o (some w) e v f live =
    let p = All-get AggregateKey-discrete (IsPlaced s.window_size) k w s.windows e v.placed in
    put-Inv s k (add_to w o) v f
      (omega (
        arith,
        v.within,
        (length-put AggregateKey-discrete k (add_to w o) s.windows).1 (ground (arith, e)),
      ))
      (unfold add_to in p) (λ h. unfold add_to in omega (arith, live h, p.1))

advance_moves :
    (s : Stream) (now : ℕ)
    → (not s.has_watermark || ltb s.watermark (now - s.allowed_lateness)) ≡ true
    → advance s now ≡ record s { watermark = now - s.allowed_lateness; has_watermark = true }
unfolding advance
advance_moves s now h = ground arith

advance_stays :
    (s : Stream) (now : ℕ)
    → (not s.has_watermark || ltb s.watermark (now - s.allowed_lateness)) ≡ false
    → advance s now ≡ s
unfolding advance
advance_stays s now h = ground arith

pub advance_windows : (s : Stream) (now : ℕ) → (advance s now).windows ≡ s.windows
unfolding advance
advance_windows s now = ground arith

-- What `Add` returns: an error, or the result of its last part, past its three guards.
abbrev pub Reaches : Stream → Observation → Type 0
Reaches s o =
    let k = key_for o s.window_size in
    (add s o ≡ add_at s k o (get AggregateKey-discrete k s.windows))
    × (s.finished ≡ false)
    × (o.observed_at ≢ 0)
    × (s.has_watermark ≡ true → s.watermark < k.start + s.window_size)

pub add_cases :
    (s : Stream) (o : Observation) → ((e : WindowError) × (add s o ≡ err e)) ⊎ Reaches s o
unfolding add
add_cases s o = elim (Bool-cases s.finished) [
  | inl f ↦ inl (stream_closed, ground arith)
  | inr f ↦ elim (Bool-cases (o.observed_at == 0)) [
    | inl z ↦ inl (no_observation_time, ground arith)
    | inr z ↦
        elim (Bool-cases (
          s.has_watermark
          && not (ltb s.watermark ((key_for o s.window_size).start + s.window_size)))) [
            | inl l ↦ inl (late_observation, ground arith)
            | inr l ↦ inr (ground arith, f, ground arith, ground arith)
          ]
  ]
]

add-Inv : (s : Stream) (o : Observation) → Inv s → Inv (after s (add s o))
add-Inv s o v = elim (add_cases s o) [
  | inl (e, q) ↦ subst (λ r. Inv (after s r)) (sym q) v
  | inr (q, f, _, live) ↦
      subst (λ r. Inv (after s r)) (sym q)
        (add_at-Inv s (key_for o s.window_size) o _ refl v f live)
]

-- A flush keeps what is open, and all of that ends after the watermark.
keep_open-Inv :
    (s : Stream) (watermark : ℕ) (b : Bool)
    → Inv s
    → Inv (record s {
      windows = keep (is_open watermark) s.windows;
      watermark = watermark;
      has_watermark = b;
    })
keep_open-Inv s watermark b v = record {
  distinct = keep-Distinct AggregateKey-discrete (is_open watermark) s.windows v.distinct;
  within = omega (arith, v.within, length-keep (is_open watermark) s.windows);
  placed = All-keep (is_open watermark) _ s.windows v.placed;
  not_due = λ h.
      All-imp (λ kw e. ltb→lt watermark kw.1.window_end e) _
        (keep_passes (is_open watermark) s.windows);
  emptied = λ h. rw (v.emptied h);
}

flush-Inv : (s : Stream) (now : ℕ) → Inv s → Inv (flush s now).0
unfolding flush
flush-Inv s now v =
    elim (Bool-cases (not s.has_watermark || ltb s.watermark (now - s.allowed_lateness))) [
      | inl moves ↦
          subst (λ t. Inv (record t { windows = keep (is_open t.watermark) t.windows }))
            (sym (advance_moves s now moves)) (keep_open-Inv s _ true v)
      | inr stays ↦
          subst (λ t. Inv (record t { windows = keep (is_open t.watermark) t.windows }))
            (sym (advance_stays s now stays)) (keep_open-Inv s _ s.has_watermark v)
    ]

pub finish_open :
    (s : Stream) (now : ℕ)
    → s.finished ≡ false
    → (finish s now).0 ≡ record (flush s now).0 { windows = []; finished = true }
unfolding finish
finish_open s now f = ground arith

pub finish_closed : (s : Stream) (now : ℕ) → s.finished ≡ true → finish s now ≡ (s, [])
unfolding finish
finish_closed s now f = ground arith

emptied-Inv : (s : Stream) → Inv (record s { windows = []; finished = true })
emptied-Inv s = record {
  distinct = tt;
  within = omega arith;
  placed = tt;
  not_due = λ h. tt;
  emptied = λ h. refl;
}

finish-Inv : (s : Stream) (now : ℕ) → Inv s → Inv (finish s now).0
finish-Inv s now v = elim (Bool-cases s.finished) [
  | inl f ↦ subst Inv (sym (ap (λ r. r.0) (finish_closed s now f))) v
  | inr f ↦ subst Inv (sym (finish_open s now f)) (emptied-Inv (flush s now).0)
]

pub step-Inv : (s : Stream) (c : Command) → Inv s → Inv (step s c).0
unfolding step
step-Inv s (adds o) v = add-Inv s o v
step-Inv s (flushes now) v = flush-Inv s now v
step-Inv s (finishes now) v = finish-Inv s now v

run-Inv : (s : Stream) (cs : List Command) → Inv s → Inv (run s cs).0
unfolding run
run-Inv s [] v = v
run-Inv s (c ∷ cs) v = run-Inv (step s c).0 cs (step-Inv s c v)

-- After any calls of Add, Flush and Finish on a stream that `NewStream` accepted: the windows have
-- distinct keys and are at most `max_windows`; each spans its key's interval of `window_size`; none
-- that is held has ended at or before the watermark; and a finished stream holds none.
pub run-new_stream-Inv :
    (size lateness cap : ℤ) (s : Stream) (cs : List Command)
    → new_stream size lateness cap ≡ ok s
    → Inv (run s cs).0
run-new_stream-Inv size lateness cap s cs e = run-Inv s cs (new_stream-Inv size lateness cap s e)
