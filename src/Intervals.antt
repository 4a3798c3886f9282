-- ===== src/Intervals.antt =====
-- server.py, merge_intervals and merged_interval_seconds: time intervals `[start, end)`, in whole
-- milliseconds, and their union.
pub mod Cover
pub mod Union
pub mod Seconds
use gpu_watch.Prelude.{
  ℕ, ◌+◌, ◌-◌, Bool, ◌&&◌, ◌||◌, List, [], ◌∷◌, leb, ltb, ◌==◌, if◌then◌else◌, filter, max,
}

abbrev pub Interval : Type 0
Interval = ℕ × ℕ

-- Python compares tuples from the left.
abbrev pub tuple_le : Interval → Interval → Bool
tuple_le (a, b) (c, d) = ltb a c || (a == c && leb b d)

unfoldable pub insort : Interval → List Interval → List Interval
insort x [] = x ∷ []
insort x (y ∷ ys) = if tuple_le x y then x ∷ y ∷ ys else y ∷ insort x ys

-- `sorted(intervals)`
unfoldable pub sorted : List Interval → List Interval
sorted [] = []
sorted (x ∷ xs) = insort x (sorted xs)

abbrev pub is_proper : Interval → Bool
is_proper (start, end) = ltb start end

-- The loop over `ordered[1:]`, from the current interval. What the source appends to `merged` is
-- the result, in the same order.
unfoldable pub merge_from : ℕ → ℕ → List Interval → List Interval
merge_from current_start current_end [] = (current_start, current_end) ∷ []
merge_from current_start current_end ((start, end) ∷ rest) =
    let joined = merge_from current_start (max current_end end) rest in
    let apart = (current_start, current_end) ∷ merge_from start end rest in
    if leb start current_end then joined else apart

abbrev pub merge_ordered : List Interval → List Interval
merge_ordered [] = []
merge_ordered ((start, end) ∷ rest) = merge_from start end rest

unfoldable pub merge_intervals : List Interval → List Interval
unfolding sorted insort merge_from
merge_intervals intervals = merge_ordered (sorted (filter is_proper intervals))

-- `sum(end - start for start, end in intervals)`
unfoldable pub total_seconds : List Interval → ℕ
total_seconds [] = 0
total_seconds ((start, end) ∷ rest) = (end - start) + total_seconds rest

unfoldable pub merged_interval_seconds : List Interval → ℕ
unfolding merge_intervals total_seconds
merged_interval_seconds intervals = total_seconds (merge_intervals intervals)
