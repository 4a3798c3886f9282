-- ===== src/Intervals/Seconds.antt =====
-- What `merged_interval_seconds` measures.
use gpu_watch.Prelude.{
  ℕ, ◌≤◌, List, [], ◌∷◌, leb, ltb, filter, max, ◌≡◌, ◌∙◌, arith, Bool-cases, inl, inr,
}
use gpu_watch.Intervals.{
  Interval, tuple_le, insort, sorted, is_proper, merge_from, merge_ordered, merge_intervals,
  merged_interval_seconds,
}
use gpu_watch.Intervals.Cover.{covers, count_below, count_below-ext, EndsBy, total_seconds-eq-count}
use gpu_watch.Intervals.Union.{covers-merge_intervals, merge_intervals-Separated}

module _ (bound : ℕ) where
  insort-EndsBy :
      (x : Interval) (xs : List Interval)
      → x.1 ≤ bound
      → EndsBy bound xs
      → EndsBy bound (insort x xs)
  unfolding insort
  insort-EndsBy x [] h k = (h, tt)
  insort-EndsBy x (y ∷ xs) h k = elim (Bool-cases (tuple_le x y)) [
    | inl e ↦ rw e (h, k)
    | inr e ↦ rw e (k.0, insort-EndsBy x xs h k.1)
  ]

  sorted-EndsBy :
      (xs : List Interval) → EndsBy bound xs → EndsBy bound (sorted (filter is_proper xs))
  unfolding sorted
  sorted-EndsBy [] h = tt
  sorted-EndsBy ((s, e) ∷ xs) h = elim (Bool-cases (ltb s e)) [
    | inl p ↦ rw p (insort-EndsBy (s, e) (sorted (filter is_proper xs)) h.0 (sorted-EndsBy xs h.1))
    | inr p ↦ rw p (sorted-EndsBy xs h.1)
  ]

  merge_from-EndsBy :
      (start end : ℕ) (xs : List Interval)
      → end ≤ bound
      → EndsBy bound xs
      → EndsBy bound (merge_from start end xs)
  unfolding merge_from
  merge_from-EndsBy start end [] h k = (h, tt)
  merge_from-EndsBy start end ((s, e) ∷ xs) h k = elim (Bool-cases (leb s end)) [
    | inl touch ↦ rw touch (merge_from-EndsBy start (max end e) xs (omega arith) k.1)
    | inr apart ↦ rw apart (h, merge_from-EndsBy s e xs k.0 k.1)
  ]

  merge_ordered-EndsBy : (xs : List Interval) → EndsBy bound xs → EndsBy bound (merge_ordered xs)
  merge_ordered-EndsBy [] k = tt
  merge_ordered-EndsBy ((s, e) ∷ xs) k = merge_from-EndsBy s e xs k.0 k.1

-- The merged seconds are the number of instants that lie in at least one of the intervals: no
-- instant counts twice and none is lost. (`bound` is any time that no interval ends after.)
pub merged_interval_seconds-eq-count :
    (bound : ℕ) (intervals : List Interval)
    → EndsBy bound intervals
    → merged_interval_seconds intervals ≡ count_below bound (λ t. covers t intervals)
unfolding merged_interval_seconds
merged_interval_seconds-eq-count bound intervals h =
    total_seconds-eq-count bound 0 (merge_intervals intervals) (merge_intervals-Separated intervals)
      (ends intervals h)
    ∙ count_below-ext bound _ _ (λ t. covers-merge_intervals t intervals)
  where
    ends : (xs : List Interval) → EndsBy bound xs → EndsBy bound (merge_intervals xs)
    ends xs k = merge_ordered-EndsBy bound (sorted (filter is_proper xs)) (sorted-EndsBy bound xs k)
