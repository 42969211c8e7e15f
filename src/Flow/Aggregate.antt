-- ===== src/Flow/Aggregate.antt =====
-- internal/flow/window.go: `Aggregate`, a finite batch of observations to sorted windows.
pub mod Spec
use agentkubenetwork.Base.{
  ℕ, suc, zero, ◌==◌, if◌then◌else◌, List, [], ◌∷◌, map, Option, none, some, Result, ok, err, ◌>>=◌,
}
use agentkubenetwork.Base.Int.{ℤ, pos, negsuc}
use agentkubenetwork.Base.Map.{get, put}
use agentkubenetwork.Flow.Types.{
  Observation, Window, AggregateKey, AggregateKey-discrete, WindowError, bad_window_size,
  no_observation_time,
}
use agentkubenetwork.Flow.Window.{key_for, new_window, add, value_or}
use agentkubenetwork.Flow.Order.{sort_windows}

-- The windows by key.
abbrev pub Table : Type 0
Table = List (AggregateKey × Window)

-- One round of the loop: the window of the observation's key, new if there is none, takes it in.
unfoldable pub take_in : ℕ → Table → Observation → Table
take_in size m o =
    let k = key_for o size in
    put AggregateKey-discrete k
      (add (value_or (new_window k size) (get AggregateKey-discrete k m)) o) m

unfoldable pub aggregate_loop : ℕ → Table → List Observation → Result WindowError Table
aggregate_loop size m [] = ok m
aggregate_loop size m (o ∷ os) =
    if o.observed_at == 0
    then err no_observation_time
    else aggregate_loop size (take_in size m o) os

abbrev pub windows_of : Table → List Window
windows_of m = map (λ kw. kw.1) m

unfoldable pub aggregate : List Observation → ℤ → Result WindowError (List Window)
aggregate os (negsuc n) = err bad_window_size
aggregate os (pos zero) = err bad_window_size
aggregate os (pos (suc n)) = aggregate_loop (suc n) [] os >>= λ m. ok (sort_windows (windows_of m))
