-- ===== src/Store/Timeline/Keep.antt =====
-- What holds of the rows of an interval table and is kept by recording an interval, and by deleting
-- the intervals of a GPU.
use gpu_watch.Prelude.{
  ℕ, ◌-◌, ◌≤◌, ◌<◌, ◌≡◌, refl, sym, ◌∙◌, String, Bool, true, false, Option, none, some, List, [],
  ◌∷◌, ◌==◌, str_eq, ◌&&◌, filter, arith, Bool-cases, inl, inr, All, All-append, All-map, eq_iff,
}
use mathlib.Core.Bool.{false≢true}
use gpu_watch.Store.Timeline.{
  IntervalRow, Table, of_gpu, EndedBy, IsValid, IsChain, Apart, ending_at, latest, extend_row,
  insert_row, extends, continue_from, extend_or_insert,
}
use gpu_watch.Store.Timeline.View.{latest-IsLatest}
use gpu_watch.Store.Timeline.Chain.{only_one, of_gpu-eq, of_gpu-true}

module _ {Tag : Type 0} where
  pub filter-All :
      (P : IntervalRow Tag → Type 0) (test : IntervalRow Tag → Bool) (rows : List (IntervalRow Tag))
      → All P rows
      → All P (filter test rows)
  filter-All P test [] h = tt
  filter-All P test (row ∷ rows) h = elim (Bool-cases (test row)) [
    | inl e ↦ rw e (h.0, filter-All P test rows h.1)
    | inr e ↦ rw e (filter-All P test rows h.1)
  ]

  filter-IsChain :
      (test : IntervalRow Tag → Bool) (rows : List (IntervalRow Tag))
      → IsChain rows
      → IsChain (filter test rows)
  filter-IsChain test [] c = tt
  filter-IsChain test (row ∷ rows) c = elim (Bool-cases (test row)) [
    | inl e ↦ rw e (c.0, filter-All (Apart row) test rows c.1, filter-IsChain test rows c.2)
    | inr e ↦ rw e (filter-IsChain test rows c.2)
  ]

  -- Deleting rows keeps a table valid.
  pub filter-IsValid :
      (test : IntervalRow Tag → Bool) (table : Table Tag)
      → IsValid table
      → IsValid (record table { rows = filter test table.rows })
  filter-IsValid test table v = record {
    chain = filter-IsChain test table.rows v.chain;
    fresh = filter-All (λ row. row.id < table.next_id) test table.rows v.fresh;
  }

  extend_row-All :
      (P : IntervalRow Tag → Type 0) (id end_ts : ℕ) (rows : List (IntervalRow Tag))
      → All P rows
      → All (λ row. row.id ≡ id → P (ending_at end_ts row)) rows
      → All P (extend_row id end_ts rows)
  unfolding extend_row
  extend_row-All P id end_ts [] h k = tt
  extend_row-All P id end_ts (row ∷ rows) h k = elim (Bool-cases (row.id == id)) [
    | inl e ↦ rw e (k.0 (ground arith), extend_row-All P id end_ts rows h.1 k.1)
    | inr e ↦ rw e (h.0, extend_row-All P id end_ts rows h.1 k.1)
  ]

  -- The row that is inserted for an interval.
  abbrev pub new_row : ℕ → String → ℕ → ℕ → ℕ → Tag → IntervalRow Tag
  new_row id host gpu_index start_ts end_ts tag = record {
    id = id;
    host = host;
    gpu_index = gpu_index;
    start_ts = start_ts;
    end_ts = end_ts;
    tag = tag;
    seconds = end_ts - start_ts;
  }

  module _ (P : IntervalRow Tag → Type 0) (same_tag : Tag → Tag → Bool) (host : String)
      (gpu_index start_ts end_ts : ℕ) (tag : Tag) (table : Table Tag) (v : IsValid table)
      (h : All P table.rows)
      (extended : (row : IntervalRow Tag)
        → of_gpu host gpu_index row ≡ true
        → P (ending_at end_ts row))
      (inserted : P (new_row table.next_id host gpu_index start_ts end_ts tag)) where
    continue_from-All :
        (previous : Option (IntervalRow Tag))
        → latest host gpu_index table.rows ≡ previous
        → All P (continue_from same_tag host gpu_index start_ts end_ts tag table previous).rows
    unfolding continue_from insert_row
    continue_from-All none e = All-append P table.rows _ h (inserted, tt)
    continue_from-All (some p) e = elim (Bool-cases (extends same_tag start_ts tag p)) [
      | inr no_match ↦ rw no_match (All-append P table.rows _ h (inserted, tt))
      | inl match ↦
          let found = latest-IsLatest host gpu_index table.rows p e in
          rw match (
            extend_row-All P p.id end_ts table.rows h (
              All-map table.rows (λ row only same_id. extended row (rw (only same_id) found.mine))
                (only_one p table.rows v.chain found.member)))
    ]

    -- What holds of every row, of a new one and of any row of the GPU once it is extended, holds
    -- after an interval is recorded.
    pub extend_or_insert-All :
        All P (extend_or_insert same_tag host gpu_index start_ts end_ts tag table).rows
    unfolding extend_or_insert
    extend_or_insert-All = continue_from-All (latest host gpu_index table.rows) refl

  -- What recording up to `end_ts` for a GPU does to the ends of a table's intervals.
  pub record Advances (host : String) (gpu_index end_ts : ℕ) (before after : Table Tag)
      : Type 0 where
    pub valid : IsValid after
    pub ended : EndedBy host gpu_index end_ts after.rows
    pub others :
        (host' : String) (gpu_index' t : ℕ)
        → (str_eq host' host && gpu_index' == gpu_index) ≡ false
        → EndedBy host' gpu_index' t before.rows
        → EndedBy host' gpu_index' t after.rows
    pub all_ended :
        (now : ℕ)
        → end_ts ≤ now
        → All (λ row. row.end_ts ≤ now) before.rows
        → All (λ row. row.end_ts ≤ now) after.rows

  -- Nothing recorded, up to a time by which all is ended.
  pub unchanged-Advances :
      (host : String) (gpu_index end_ts : ℕ) (table : Table Tag)
      → IsValid table
      → EndedBy host gpu_index end_ts table.rows
      → Advances host gpu_index end_ts table table
  unchanged-Advances host gpu_index end_ts table v l = record {
    valid = v;
    ended = l;
    others = λ host' gpu_index' t different ended. ended;
    all_ended = λ now h ended. ended;
  }

  pub later-EndedBy :
      (host : String) (gpu_index s t : ℕ) (rows : List (IntervalRow Tag))
      → s ≤ t
      → EndedBy host gpu_index s rows
      → EndedBy host gpu_index t rows
  later-EndedBy host gpu_index s t rows h l =
      All-map rows (λ row ended mine. let e = ended mine in omega arith) l

  -- Rows of one GPU are not those of another.
  not_of_gpu :
      (host : String) (gpu_index : ℕ) (host' : String) (gpu_index' : ℕ) (row : IntervalRow Tag)
      → (str_eq host' host && gpu_index' == gpu_index) ≡ false
      → of_gpu host gpu_index row ≡ true
      → of_gpu host' gpu_index' row ≡ false
  unfolding of_gpu
  not_of_gpu host gpu_index host' gpu_index' row different mine =
      ground (arith, eq_iff row.host host, eq_iff row.host host', eq_iff host' host)

  pub extend_or_insert-Advances :
      (same_tag : Tag → Tag → Bool) (host : String) (gpu_index start_ts end_ts : ℕ) (tag : Tag)
      (table : Table Tag)
      → IsValid table
      → IsValid (extend_or_insert same_tag host gpu_index start_ts end_ts tag table)
      → EndedBy host gpu_index end_ts
          (extend_or_insert same_tag host gpu_index start_ts end_ts tag table).rows
      → Advances host gpu_index end_ts table
          (extend_or_insert same_tag host gpu_index start_ts end_ts tag table)
  extend_or_insert-Advances same_tag host gpu_index start_ts end_ts tag table v valid ended =
      record {
        valid = valid;
        ended = ended;
        others = λ host' gpu_index' t different before.
            extend_or_insert-All (λ row. of_gpu host' gpu_index' row ≡ true → row.end_ts ≤ t)
              same_tag host gpu_index start_ts end_ts tag table v before
              (λ row mine theirs. absurd (
                false≢true (
                  sym (
                    not_of_gpu host gpu_index host' gpu_index' (ending_at end_ts row) different
                      (kept_mine row mine))
                  ∙ theirs)))
              (λ theirs. absurd (
                false≢true (
                  sym (
                    not_of_gpu host gpu_index host' gpu_index'
                      (new_row table.next_id host gpu_index start_ts end_ts tag) different
                      (of_gpu-true host gpu_index _ refl refl))
                  ∙ theirs)));
        all_ended = λ now bound before.
            extend_or_insert-All (λ row. row.end_ts ≤ now) same_tag host gpu_index start_ts end_ts
              tag table v before (λ row mine. bound) bound;
      }
    where
      kept_mine :
          (row : IntervalRow Tag)
          → of_gpu host gpu_index row ≡ true
          → of_gpu host gpu_index (ending_at end_ts row) ≡ true
      kept_mine row mine =
          let (a, b) = of_gpu-eq host gpu_index row mine in of_gpu-true host gpu_index _ a b
