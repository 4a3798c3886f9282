-- ===== src/Tests/Intervals.antt =====
-- Runs of server.py, merge_intervals and merged_interval_seconds.
use gpu_watch.Prelude.{ℕ, List, [], ◌∷◌, ◌≡◌, refl, arith}
use gpu_watch.Intervals.{
  Interval, merge_intervals, merged_interval_seconds, sorted, insort, merge_from,
}
use gpu_watch.Intervals.Cover.{covers, count_below}
use gpu_watch.Intervals.Union.{merge_intervals-canonical}
use gpu_watch.Intervals.Seconds.{merged_interval_seconds-eq-count}

abbrev busy : List Interval
busy = (50, 60) ∷ (0, 10) ∷ (5, 20) ∷ (30, 30) ∷ (20, 25) ∷ []

busy_merged : merge_intervals busy ≡ (0, 25) ∷ (50, 60) ∷ []
unfolding merge_intervals sorted insort merge_from
busy_merged = refl

busy_seconds : merged_interval_seconds busy ≡ 35
unfolding merged_interval_seconds
busy_seconds = refl

merged_interval_seconds-eq-count_example :
    merged_interval_seconds busy ≡ count_below 60 (λ t. covers t busy)
merged_interval_seconds-eq-count_example = merged_interval_seconds-eq-count 60 busy (omega arith)

-- Splitting an interval and listing a part twice changes nothing.
merge_intervals-canonical_example :
    merge_intervals ((0, 10) ∷ []) ≡ merge_intervals ((4, 10) ∷ (0, 6) ∷ (4, 5) ∷ [])
merge_intervals-canonical_example =
    merge_intervals-canonical ((0, 10) ∷ []) ((4, 10) ∷ (0, 6) ∷ (4, 5) ∷ []) same
  where
    same : (t : ℕ) → covers t ((0, 10) ∷ []) ≡ covers t ((4, 10) ∷ (0, 6) ∷ (4, 5) ∷ [])
    same t = unfold covers in ground arith
