-- ===== src/Flow/Stats/Laws.antt =====
-- Distributions merge the same way in every order and grouping, and what they hold is what one
-- distribution over all of the samples would hold.
use Prim.Native.Nat.{min, max}
use agentkubenetwork.Base.{
  ℕ, suc, ◌+◌, ◌*◌, ◌≤◌, ◌<◌, ◌/◌, ◌≡◌, refl, List, [], ◌∷◌, ◌++◌, arith, u64, length,
  length-append,
}
use agentkubenetwork.Flow.Types.{Distribution}
use agentkubenetwork.Flow.Stats.{merge, mean_micros}

-- A distribution of at least one sample whose extremes occur in it, and the one of none.
pub record IsMeasured (d : Distribution) : Type 0 where
  pub some_samples : 1 ≤ d.count
  pub ordered : d.min_micros ≤ d.max_micros
  pub above : d.count * d.min_micros ≤ d.sum_micros
  pub below : d.sum_micros ≤ d.count * d.max_micros

abbrev pub sum_list : List ℕ → ℕ
sum_list [] = 0
sum_list (x ∷ xs) = x + sum_list xs

abbrev pub least : ℕ → List ℕ → ℕ
least x [] = x
least x (y ∷ ys) = least (min x y) ys

abbrev pub greatest : ℕ → List ℕ → ℕ
greatest x [] = x
greatest x (y ∷ ys) = greatest (max x y) ys

-- While counts do not wrap to 0, merging is associative.
pub merge_assoc :
    (a b c : Distribution)
    → a.count + b.count + c.count < u64
    → merge (merge a b) c ≡ merge a (merge b c)
unfolding merge
merge_assoc a b c h = ground arith

-- Two distributions of which one has samples merge the same way in both orders.
pub merge_comm : (a b : Distribution) → 1 ≤ a.count + b.count → merge a b ≡ merge b a
unfolding merge
merge_comm a b h = ground arith

-- The distribution of the samples `x` and `xs`.
abbrev pub summary : ℕ → List ℕ → Distribution
summary x xs = record {
  count = suc (length xs);
  sum_micros = x + sum_list xs;
  min_micros = least x xs;
  max_micros = greatest x xs;
}

min_assoc : (x y z : ℕ) → min (min x y) z ≡ min x (min y z)
min_assoc x y z = omega arith

max_assoc : (x y z : ℕ) → max (max x y) z ≡ max x (max y z)
max_assoc x y z = omega arith

pub least_start : (x y : ℕ) (ys : List ℕ) → least (min x y) ys ≡ min x (least y ys)
least_start x y [] = refl
least_start x y (z ∷ ys) = rw (min_assoc x y z) (least_start x (min y z) ys)

pub greatest_start : (x y : ℕ) (ys : List ℕ) → greatest (max x y) ys ≡ max x (greatest y ys)
greatest_start x y [] = refl
greatest_start x y (z ∷ ys) = rw (max_assoc x y z) (greatest_start x (max y z) ys)

least-append : (x y : ℕ) (xs ys : List ℕ) → least x (xs ++ y ∷ ys) ≡ min (least x xs) (least y ys)
least-append x y [] ys = least_start x y ys
least-append x y (z ∷ xs) ys = least-append (min x z) y xs ys

greatest-append :
    (x y : ℕ) (xs ys : List ℕ) → greatest x (xs ++ y ∷ ys) ≡ max (greatest x xs) (greatest y ys)
greatest-append x y [] ys = greatest_start x y ys
greatest-append x y (z ∷ xs) ys = greatest-append (max x z) y xs ys

sum_list-append : (xs ys : List ℕ) → sum_list (xs ++ ys) ≡ sum_list xs + sum_list ys
sum_list-append [] ys = omega arith
sum_list-append (x ∷ xs) ys = omega (arith, sum_list-append xs ys)

-- Merging is exact: while the sum and the number of all samples fit 64 bits, the distributions of two
-- batches merge to the distribution of all of their samples, and its mean is the mean of them all.
pub merge-summary :
    (x y : ℕ) (xs ys : List ℕ)
    → length xs + length ys + 2 < u64
    → x + sum_list xs + (y + sum_list ys) < u64
    → (merge (summary x xs) (summary y ys) ≡ summary x (xs ++ y ∷ ys))
      × (mean_micros (merge (summary x xs) (summary y ys))
          ≡ (x + sum_list xs + (y + sum_list ys)) / (length xs + length ys + 2))
unfolding merge mean_micros
merge-summary x y xs ys n s = (
  ground (
    arith,
    length-append xs (y ∷ ys),
    sum_list-append xs (y ∷ ys),
    least-append x y xs ys,
    greatest-append x y xs ys,
  ),
  ground arith,
)

weighted_below : (m n k l a b c : ℕ) → k * m ≤ a → l * n ≤ b → c ≤ m → c ≤ n → (k + l) * c ≤ a + b
weighted_below m n k l a b c h h' p q = grind arith

weighted_above : (m n k l a b c : ℕ) → a ≤ k * m → b ≤ l * n → m ≤ c → n ≤ c → a + b ≤ (k + l) * c
weighted_above m n k l a b c h h' p q = grind arith

merge_counts :
    (a b : Distribution)
    → 1 ≤ a.count
    → 1 ≤ b.count
    → a.count + b.count < u64
    → a.sum_micros + b.sum_micros < u64
    → merge a b ≡ record {
      count = a.count + b.count;
      sum_micros = a.sum_micros + b.sum_micros;
      min_micros = min a.min_micros b.min_micros;
      max_micros = max a.max_micros b.max_micros;
    }
unfolding merge
merge_counts a b p q n s = ground arith

-- Merging keeps the extremes consistent with the count and the sum, while these do not wrap.
pub merge-IsMeasured :
    (a b : Distribution)
    → IsMeasured a
    → IsMeasured b
    → a.count + b.count < u64
    → a.sum_micros + b.sum_micros < u64
    → IsMeasured (merge a b)
merge-IsMeasured a b p q n s = rw (merge_counts a b p.some_samples q.some_samples n s) (record {
  some_samples = omega arith;
  ordered = omega arith;
  above =
      weighted_below a.min_micros b.min_micros a.count b.count a.sum_micros b.sum_micros _ p.above
        q.above (omega arith) (omega arith);
  below =
      weighted_above a.max_micros b.max_micros a.count b.count a.sum_micros b.sum_micros _ p.below
        q.below (omega arith) (omega arith);
})
