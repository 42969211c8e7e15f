-- ===== src/Flow/Stream/Batch.antt =====
-- The stream against the batch: `Aggregate` is the specification of what a stream emits.
use agentkubenetwork.Base.{
  ℕ, suc, ◌≡◌, refl, sym, ap, subst, ◌∙◌, ltb, leb, false, List, [], ◌∷◌, ◌++◌, keep, map, length,
  Option, none, some, Result, ok, ◌>>=◌, Result-cases, arith, Bool-cases, inl, inr,
}
use agentkubenetwork.Base.Map.{get}
use agentkubenetwork.Base.Int.{pos}
use agentkubenetwork.Flow.Types.{Observation, Window, AggregateKey-discrete, WindowError}
use agentkubenetwork.Flow.Window.{key_for}
use agentkubenetwork.Flow.Order.{sort_windows, sort_windows-perm}
use agentkubenetwork.Flow.Aggregate.{Table, windows_of, aggregate, aggregate_loop, take_in}
use agentkubenetwork.Flow.Stream.{
  Stream, start_stream, add_at, add, advance, flush, finish, is_open, is_due, mark_partial,
}
use agentkubenetwork.Flow.Stream.Invariant.{add_cases, advance_windows}
use agentkubenetwork.Flow.Stream.Conservation.{finish_emits}
use mathlib.Core.List.{Perm, perm_middle, map-append}
use mathlib.Core.List.Perm

-- `Add` for each observation, up to the first error.
unfoldable pub feed : Stream → List Observation → Result WindowError Stream
feed s [] = ok s
feed s (o ∷ os) = add s o >>= λ t. feed t os

add_at-take_in :
    (s t : Stream) (o : Observation) (found : Option Window)
    → get AggregateKey-discrete (key_for o s.window_size) s.windows ≡ found
    → add_at s (key_for o s.window_size) o found ≡ ok t
    → t ≡ record s { windows = take_in s.window_size s.windows o }
unfolding add_at take_in
add_at-take_in s t o (some w) e h = ground (arith, e)
add_at-take_in s t o none e h = elim (Bool-cases (leb s.max_windows (length s.windows))) [
  | inl full ↦ absurd (ground (arith, full))
  | inr room ↦ ground (arith, room, e)
]

-- A stream that accepts all of the observations holds what the batch computes.
feed-aggregate_loop :
    (os : List Observation) (s t : Stream)
    → feed s os ≡ ok t
    → (aggregate_loop s.window_size s.windows os ≡ ok t.windows) × (t.finished ≡ s.finished)
unfolding feed aggregate_loop
feed-aggregate_loop [] s t h = (ground arith, ground arith)
feed-aggregate_loop (o ∷ os) s t h = elim (add_cases s o) [
  | inl (e, q) ↦ absurd (ground (arith, q))
  | inr (q, f, timed, _) ↦ elim (Result-cases (add s o)) [
    | inr (e, q') ↦ absurd (ground (arith, q'))
    | inl (u, q') ↦
        let e : u ≡ record s { windows = take_in s.window_size s.windows o } =
          add_at-take_in s u o _ refl (sym q ∙ q') in
        let ih =
          subst
            (λ (x : Stream).
              (aggregate_loop x.window_size x.windows os ≡ ok t.windows)
              × (t.finished ≡ x.finished))
            e (feed-aggregate_loop os u t (ground (arith, q'))) in
        (ground (arith, timed, ih.0), ih.1)
  ]
]

-- The same window, not marked partial.
abbrev pub as_complete : Window → Window
as_complete w = record w { partial = false }

map-as_complete : (ws : List Window) → map as_complete (map mark_partial ws) ≡ map as_complete ws
map-as_complete [] = refl
map-as_complete (w ∷ ws) = ap (◌∷◌ (as_complete w)) (map-as_complete ws)

keep_due_open-perm :
    (watermark : ℕ) (m : Table)
    → Perm
        (windows_of (keep (is_due watermark) m) ++ windows_of (keep (is_open watermark) m))
        (windows_of m)
keep_due_open-perm watermark [] = Perm.refl _
keep_due_open-perm watermark (kw ∷ m) = elim (Bool-cases (ltb watermark kw.1.window_end)) [
  | inl p ↦ simp p (
      Perm.trans
        (perm_middle (windows_of (keep (is_due watermark) m))
          (windows_of (keep (is_open watermark) m)))
        (Perm.cons kw.1 (keep_due_open-perm watermark m)))
  | inr p ↦ simp p (Perm.cons kw.1 (keep_due_open-perm watermark m))
]

flush-perm :
    (s : Stream) (now : ℕ)
    → Perm ((flush s now).1 ++ windows_of (flush s now).0.windows) (windows_of s.windows)
unfolding flush
flush-perm s now = Perm.trans (Perm.append_right _ (sort_windows-perm _)) (
    subst
      (λ m.
        Perm
          (windows_of (keep (is_due (advance s now).watermark) (advance s now).windows)
            ++ windows_of (keep (is_open (advance s now).watermark) (advance s now).windows))
          (windows_of m))
      (advance_windows s now)
      (keep_due_open-perm (advance s now).watermark (advance s now).windows))

finish-perm :
    (s : Stream) (now : ℕ)
    → s.finished ≡ false
    → Perm (map as_complete (finish s now).1) (map as_complete (windows_of s.windows))
finish-perm s now f = rw (finish_emits s now f) (
    Perm.trans (Perm.map as_complete (sort_windows-perm _)) (
      simp (map-append, map-as_complete)
        (rw (← map-append) (Perm.map as_complete (flush-perm s now)))))

-- Whenever a new stream accepts all of the observations and is then finished, at any time, it emits the
-- windows that `Aggregate` computes for them with the same size, each once, up to order and to the
-- mark of a partial window.
pub feed-finish :
    (size lateness cap now : ℕ) (os : List Observation) (t : Stream)
    → feed (start_stream (suc size) lateness cap) os ≡ ok t
    → (ws : List Window) × (aggregate os (pos (suc size)) ≡ ok ws)
      × Perm (map as_complete (finish t now).1) (map as_complete ws)
unfolding aggregate
feed-finish size lateness cap now os t h =
    let p = feed-aggregate_loop os (start_stream (suc size) lateness cap) t h in
    (
      sort_windows (windows_of t.windows),
      rw p.0,
      Perm.trans (finish-perm t now p.1)
          (Perm.map as_complete (Perm.symm (sort_windows-perm (windows_of t.windows)))),
    )
