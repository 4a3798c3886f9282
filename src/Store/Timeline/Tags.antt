-- ===== src/Store/Timeline/Tags.antt =====
-- What holds of every tag in a table, and of a new one, holds after an interval is recorded.
use gpu_watch.Prelude.{
  ℕ, String, Bool, Option, none, some, List, [], ◌∷◌, ◌==◌, Bool-cases, inl, inr, All, All-append,
}
use gpu_watch.Store.Timeline.{
  IntervalRow, Table, extend_row, insert_row, extends, continue_from, extend_or_insert, latest,
}

module _ {Tag : Type 0} (P : Tag → Type 0) where
  abbrev pub AllTags : List (IntervalRow Tag) → Type 0
  AllTags rows = All (λ row. P row.tag) rows

  extend_row-AllTags :
      (id end_ts : ℕ) (rows : List (IntervalRow Tag))
      → AllTags rows
      → AllTags (extend_row id end_ts rows)
  unfolding extend_row
  extend_row-AllTags id end_ts [] h = tt
  extend_row-AllTags id end_ts (row ∷ rows) h = elim (Bool-cases (row.id == id)) [
    | inl e ↦ rw e (h.0, extend_row-AllTags id end_ts rows h.1)
    | inr e ↦ rw e (h.0, extend_row-AllTags id end_ts rows h.1)
  ]

  insert_row-AllTags :
      (host : String) (gpu_index start_ts end_ts : ℕ) (tag : Tag) (table : Table Tag)
      → P tag
      → AllTags table.rows
      → AllTags (insert_row host gpu_index start_ts end_ts tag table).rows
  unfolding insert_row
  insert_row-AllTags host gpu_index start_ts end_ts tag table p h =
      All-append _ table.rows _ h (p, tt)

  pub extend_or_insert-AllTags :
      (same_tag : Tag → Tag → Bool) (host : String) (gpu_index start_ts end_ts : ℕ) (tag : Tag)
      (table : Table Tag)
      → P tag
      → AllTags table.rows
      → AllTags (extend_or_insert same_tag host gpu_index start_ts end_ts tag table).rows
  unfolding extend_or_insert continue_from
  extend_or_insert-AllTags same_tag host gpu_index start_ts end_ts tag table p h =
      go (latest host gpu_index table.rows)
    where
      go :
          (previous : Option (IntervalRow Tag))
          → AllTags (continue_from same_tag host gpu_index start_ts end_ts tag table previous).rows
      go none = insert_row-AllTags host gpu_index start_ts end_ts tag table p h
      go (some q) = elim (Bool-cases (extends same_tag start_ts tag q)) [
        | inl e ↦ rw e (extend_row-AllTags q.id end_ts table.rows h)
        | inr e ↦ rw e (insert_row-AllTags host gpu_index start_ts end_ts tag table p h)
      ]
