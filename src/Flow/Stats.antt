-- ===== src/Flow/Stats.antt =====
-- internal/flow/stats.go: distributions that merge. uint64 sums wrap.
pub mod Laws
use agentkubenetwork.Base.{ℕ, ◌/◌, ◌==◌, ltb, if◌then◌else◌, add64}
use agentkubenetwork.Flow.Types.{Distribution}

unfoldable pub mean_micros : Distribution → ℕ
mean_micros d = if d.count == 0 then 0 else d.sum_micros / d.count

unfoldable pub merge : Distribution → Distribution → Distribution
merge d other = if d.count == 0 then other else if other.count == 0 then d else record {
  count = add64 d.count other.count;
  sum_micros = add64 d.sum_micros other.sum_micros;
  min_micros = if ltb other.min_micros d.min_micros then other.min_micros else d.min_micros;
  max_micros = if ltb d.max_micros other.max_micros then other.max_micros else d.max_micros;
}
