-- ===== src/Flow/Aggregate/Spec.antt =====
-- `Aggregate` against its specification: one window for each key that occurs, and in it exactly the
-- observations of that key.
use agentkubenetwork.Base.{
  ℕ, suc, ◌≡◌, refl, ◌≢◌, ap, false, ite, List, [], ◌∷◌, ◌++◌, map, keep, All, ok, err, test, arith,
  append-nil, append_assoc,
}
use agentkubenetwork.Base.Int.{pos}
use agentkubenetwork.Base.Map.{get}
use agentkubenetwork.Base.Group.{
  has, Distinct, insert_key, has-insert_key, insert_key-Distinct, distinct_keys,
  distinct_keys-Distinct, has-distinct_keys, tabulate, get-tabulate, put-tabulate,
}
use agentkubenetwork.Flow.Types.{
  Observation, Window, AggregateKey, AggregateKey-discrete, no_observation_time,
}
use agentkubenetwork.Flow.Window.{key_for, new_window, add, value_or}
use agentkubenetwork.Flow.Order.{sort_windows, sort_windows-perm}
use agentkubenetwork.Flow.Aggregate.{take_in, aggregate_loop, aggregate, windows_of, Table}
use mathlib.Core.List.{Perm}

-- All of the observations, in their order, into one window.
pub absorb : Window → List Observation → Window
absorb w [] = w
absorb w (o ∷ os) = absorb (add w o) os

absorb-append :
    (w : Window) (os : List Observation) (o : Observation)
    → absorb w (os ++ o ∷ []) ≡ add (absorb w os) o
unfolding absorb
absorb-append w [] o = refl
absorb-append w (p ∷ os) o = absorb-append (add w p) os o

abbrev pub Timed : List Observation → Type 0
Timed = All (λ o. o.observed_at ≢ 0)

module _ (size : ℕ) where
  abbrev pub of_key : AggregateKey → List Observation → List Observation
  of_key k = keep (λ o. test (AggregateKey-discrete (key_for o size) k))

  abbrev pub keys : List Observation → List AggregateKey
  keys = map (λ o. key_for o size)

  -- The window that a key should have after some observations.
  pub total : List Observation → AggregateKey → Window
  total os k = absorb (new_window k size) (of_key k os)

  of_key-append :
      (k : AggregateKey) (os : List Observation) (o : Observation)
      → of_key k (os ++ o ∷ [])
        ≡ ite (AggregateKey-discrete (key_for o size) k) (of_key k os ++ o ∷ []) (of_key k os)
  of_key-append k [] o = ground arith
  of_key-append k (p ∷ os) o = ground (arith, of_key-append k os o)

  total-append :
      (k : AggregateKey) (os : List Observation) (o : Observation)
      → total (os ++ o ∷ []) k
        ≡ ite (AggregateKey-discrete (key_for o size) k) (add (total os k) o) (total os k)
  unfolding total
  total-append k os o =
      ground (arith, of_key-append k os o, absorb-append (new_window k size) (of_key k os) o)

  -- No observation so far has a key outside of `ks`.
  abbrev Fresh : List AggregateKey → List Observation → Type 0
  Fresh ks seen = (k : AggregateKey) → has AggregateKey-discrete k ks ≡ false → of_key k seen ≡ []

  -- The window that a round updates is the one that the key should have.
  current-total :
      (ks : List AggregateKey) (seen : List Observation) (k : AggregateKey)
      → Fresh ks seen
      → value_or (new_window k size) (get AggregateKey-discrete k (tabulate (total seen) ks))
        ≡ total seen k
  unfolding total absorb
  current-total ks seen k fresh =
      ground (arith, get-tabulate AggregateKey-discrete (total seen) k ks, fresh k)

  total-other :
      (seen : List Observation) (o : Observation) (j : AggregateKey)
      → j ≢ key_for o size
      → total (seen ++ o ∷ []) j ≡ total seen j
  total-other seen o j ne = ground (arith, total-append j seen o)

  take_in-tabulate :
      (ks : List AggregateKey) (seen : List Observation) (o : Observation)
      → Distinct AggregateKey-discrete ks
      → Fresh ks seen
      → take_in size (tabulate (total seen) ks) o
        ≡ tabulate (total (seen ++ o ∷ [])) (insert_key AggregateKey-discrete (key_for o size) ks)
  unfolding take_in
  take_in-tabulate ks seen o distinct fresh =
      rw (current-total ks seen (key_for o size) fresh, ← own)
        (put-tabulate AggregateKey-discrete (total seen) (total (seen ++ o ∷ [])) (key_for o size)
          ks (total-other seen o) distinct)
    where
      own : total (seen ++ o ∷ []) (key_for o size) ≡ add (total seen (key_for o size)) o
      own = ground (arith, total-append (key_for o size) seen o)

  insert_key-Fresh :
      (ks : List AggregateKey) (seen : List Observation) (o : Observation)
      → Fresh ks seen
      → Fresh (insert_key AggregateKey-discrete (key_for o size) ks) (seen ++ o ∷ [])
  insert_key-Fresh ks seen o fresh k absent = ground (
    arith,
    fresh k,
    of_key-append k seen o,
    has-insert_key AggregateKey-discrete (key_for o size) k ks,
  )

  aggregate_loop-tabulate :
      (rest seen : List Observation) (ks : List AggregateKey)
      → Timed rest
      → Distinct AggregateKey-discrete ks
      → Fresh ks seen
      → aggregate_loop size (tabulate (total seen) ks) rest
        ≡ ok (tabulate (total (seen ++ rest)) (distinct_keys AggregateKey-discrete ks (keys rest)))
  unfolding aggregate_loop distinct_keys
  aggregate_loop-tabulate [] seen ks timed distinct fresh = rw append-nil
  aggregate_loop-tabulate (o ∷ rest) seen ks timed distinct fresh = ground (
    arith,
    take_in-tabulate ks seen o distinct fresh,
    append_assoc seen (o ∷ []) rest,
    aggregate_loop-tabulate rest (seen ++ o ∷ [])
        (insert_key AggregateKey-discrete (key_for o size) ks) timed.1
        (insert_key-Distinct AggregateKey-discrete (key_for o size) ks distinct)
        (insert_key-Fresh ks seen o fresh),
  )

  windows_of-tabulate :
      (g : AggregateKey → Window) (ks : List AggregateKey) → windows_of (tabulate g ks) ≡ map g ks
  windows_of-tabulate g [] = refl
  windows_of-tabulate g (k ∷ ks) = ap (◌∷◌ (g k)) (windows_of-tabulate g ks)

-- For a positive window size and observations that all have a time, `Aggregate` succeeds. There are
-- distinct keys, those of the observations, such that the result is, up to order, one window for each
-- key: the key's new window after exactly the observations with this key, in their order.
pub aggregate-groups :
    (size : ℕ) (os : List Observation)
    → Timed os
    → (ks : List AggregateKey) × (ws : List Window) × Distinct AggregateKey-discrete ks
      × ((k : AggregateKey)
          → has AggregateKey-discrete k ks ≡ has AggregateKey-discrete k (keys (suc size) os))
      × (aggregate os (pos (suc size)) ≡ ok ws)
      × Perm ws (map (total (suc size) os) ks)
unfolding aggregate
aggregate-groups size os timed = (
  ks,
  sort_windows (map (total (suc size) os) ks),
  distinct_keys-Distinct AggregateKey-discrete [] (keys (suc size) os) tt,
  λ k. has-distinct_keys AggregateKey-discrete k [] (keys (suc size) os),
  rw (aggregate_loop-tabulate (suc size) os [] [] timed tt (λ k e. refl))
      (ap (λ ws. ok (sort_windows ws)) (windows_of-tabulate (suc size) (total (suc size) os) ks)),
  sort_windows-perm _,
)
  where
    ks : List AggregateKey
    ks = distinct_keys AggregateKey-discrete [] (keys (suc size) os)

aggregate_loop_untimed :
    (size : ℕ) (front back : List Observation) (o : Observation) (m : Table)
    → o.observed_at ≡ 0
    → aggregate_loop size m (front ++ o ∷ back) ≡ err no_observation_time
unfolding aggregate_loop
aggregate_loop_untimed size [] back o m h = ground arith
aggregate_loop_untimed size (p ∷ front) back o m h =
    ground (arith, aggregate_loop_untimed size front back o (take_in size m p) h)

-- One observation with no time, anywhere in the batch, makes the whole batch fail.
pub aggregate_untimed :
    (size : ℕ) (front back : List Observation) (o : Observation)
    → o.observed_at ≡ 0
    → aggregate (front ++ o ∷ back) (pos (suc size)) ≡ err no_observation_time
unfolding aggregate
aggregate_untimed size front back o h = rw (aggregate_loop_untimed (suc size) front back o [] h)
