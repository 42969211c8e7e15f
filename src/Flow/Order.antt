-- ===== src/Flow/Order.antt =====
-- internal/flow/window.go: `sortWindows` and the comparisons it makes.
use Prim.Native.Nat.{compare, Ordering}
use agentkubenetwork.Base.{
  ◌+◌, ◌++◌, arith, ℕ, ◌==◌, ltb, Bool, true, false, not, if◌then◌else◌, Option, none, some, List,
  [], ◌∷◌, ◌≡◌, refl, Bytes, bytes_discrete, test,
}
use agentkubenetwork.Flow.Types.{Pod, ResolvedEndpoint, Process, Window}
use mathlib.Core.List.{Perm}
use mathlib.Core.List.Perm

-- `cmp.Or` over the results of comparisons: the first that is not equal.
abbrev pub or_else : Ordering → Ordering → Ordering
or_else Ordering.lt r = Ordering.lt
or_else Ordering.eq r = r
or_else Ordering.gt r = Ordering.gt

abbrev pub is_lt : Ordering → Bool
is_lt Ordering.lt = true
is_lt Ordering.eq = false
is_lt Ordering.gt = false

-- `cmp.Compare` of strings: bytewise.
unfoldable pub compare_bytes : Bytes → Bytes → Ordering
compare_bytes [] [] = Ordering.eq
compare_bytes [] (y ∷ ys) = Ordering.lt
compare_bytes (x ∷ xs) [] = Ordering.gt
compare_bytes (x ∷ xs) (y ∷ ys) = or_else (compare x y) (compare_bytes xs ys)

-- nil stands before every value.
abbrev compare_option : {A : Type 0} → (A → A → Ordering) → Option A → Option A → Ordering
compare_option c none none = Ordering.eq
compare_option c none (some b) = Ordering.lt
compare_option c (some a) none = Ordering.gt
compare_option c (some a) (some b) = c a b

unfoldable pub compare_resolved : Option ResolvedEndpoint → Option ResolvedEndpoint → Ordering
compare_resolved = compare_option λ l r.
    or_else (compare_bytes l.address r.address)
      (or_else (compare l.port r.port) (compare_bytes l.via r.via))

unfoldable pub compare_process : Option Process → Option Process → Ordering
compare_process = compare_option λ l r. or_else (compare l.pid r.pid) (
    or_else (compare l.start_time_ticks r.start_time_ticks) (
      or_else (compare_bytes l.container_id r.container_id)
        (or_else (compare_bytes l.via r.via) (compare_bytes l.comm r.comm))))

unfoldable pub compare_pod : Option Pod → Option Pod → Ordering
compare_pod = compare_option λ l r.
    or_else (compare_bytes l.uid r.uid)
      (or_else (compare_bytes l.namespace r.namespace) (compare_bytes l.name r.name))

-- Strings `l != r` and `l < r`.
abbrev differ : Bytes → Bytes → Bool
differ l r = not (test (bytes_discrete l r))

abbrev before : Bytes → Bytes → Bool
before l r = is_lt (compare_bytes l r)

-- The `less` of `sort.Slice`.
unfoldable pub window_less : Window → Window → Bool
unfolding compare_resolved compare_process compare_pod
window_less l r =
    if not (l.window_start == r.window_start)
    then ltb l.window_start r.window_start
    else if differ l.flow.node_name r.flow.node_name
    then before l.flow.node_name r.flow.node_name
    else if differ l.flow.protocol r.flow.protocol
    then before l.flow.protocol r.flow.protocol
    else if differ l.flow.direction r.flow.direction
    then before l.flow.direction r.flow.direction
    else if differ l.flow.source.address r.flow.source.address
    then before l.flow.source.address r.flow.source.address
    else if not (l.flow.source.port == r.flow.source.port)
    then ltb l.flow.source.port r.flow.source.port
    else if differ l.flow.destination.address r.flow.destination.address
    then before l.flow.destination.address r.flow.destination.address
    else is_lt (
        or_else (compare l.flow.destination.port r.flow.destination.port) (
          or_else (compare_resolved l.source_resolved r.source_resolved) (
            or_else (compare_resolved l.destination_resolved r.destination_resolved) (
              or_else (compare_process l.process r.process) (
                or_else (compare_pod l.source_pod r.source_pod) (
                  or_else (compare_pod l.destination_pod r.destination_pod)
                    (compare_pod l.observer_pod r.observer_pod)))))))

-- `sort.Slice` as an insertion sort: Go leaves the order of elements that compare equal open.
insert_window : Window → List Window → List Window
insert_window w [] = w ∷ []
insert_window w (v ∷ vs) = if window_less v w then v ∷ insert_window w vs else w ∷ v ∷ vs

unfoldable pub sort_windows : List Window → List Window
unfolding insert_window
sort_windows [] = []
sort_windows (w ∷ ws) = insert_window w (sort_windows ws)

insert_window-perm : (w : Window) (ws : List Window) → Perm (insert_window w ws) (w ∷ ws)
unfolding insert_window
insert_window-perm w [] = Perm.refl _
insert_window-perm w (v ∷ vs) =
    elim (window_less v w)
      as (λ b. Perm (if b then v ∷ insert_window w vs else w ∷ v ∷ vs) (w ∷ v ∷ vs)) [
        | true ↦ Perm.trans (Perm.cons v (insert_window-perm w vs)) (Perm.swap w v vs)
        | false ↦ Perm.refl _
      ]

pub sort_windows-perm : (ws : List Window) → Perm (sort_windows ws) ws
unfolding sort_windows
sort_windows-perm [] = Perm.refl _
sort_windows-perm (w ∷ ws) =
    Perm.trans (insert_window-perm w (sort_windows ws)) (Perm.cons w (sort_windows-perm ws))

abbrev pub sum_counts : List Window → ℕ
sum_counts [] = 0
sum_counts (w ∷ ws) = w.observation_count + sum_counts ws

sum_counts-insert_window :
    (w : Window) (ws : List Window)
    → sum_counts (insert_window w ws) ≡ w.observation_count + sum_counts ws
unfolding insert_window
sum_counts-insert_window w [] = refl
sum_counts-insert_window w (v ∷ vs) = ground (arith, sum_counts-insert_window w vs)

pub sum_counts-sort_windows : (ws : List Window) → sum_counts (sort_windows ws) ≡ sum_counts ws
unfolding sort_windows
sum_counts-sort_windows [] = refl
sum_counts-sort_windows (w ∷ ws) =
    omega (arith, sum_counts-insert_window w (sort_windows ws), sum_counts-sort_windows ws)

pub sum_counts-append :
    (ws vs : List Window) → sum_counts (ws ++ vs) ≡ sum_counts ws + sum_counts vs
sum_counts-append [] vs = omega arith
sum_counts-append (w ∷ ws) vs = omega (arith, sum_counts-append ws vs)
