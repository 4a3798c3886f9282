-- ===== src/Store/Timeline.antt =====
-- The interval tables of server.py (gpu_usage_interval, gpu_capacity_interval): rows, the choice of a
-- GPU's last row, and the step that both recorders end with.
--
-- Both tables have the columns id, host, gpu_index, start_ts, end_ts and seconds; `tag` stands for
-- the others. Times are whole milliseconds.
pub mod View
pub mod Extend
pub mod Chain
pub mod Tags
pub mod Record
pub mod Keep
use gpu_watch.Prelude.{
  ℕ, suc, ◌+◌, ◌-◌, ◌<◌, ◌≤◌, ◌≡◌, ◌⊎◌, String, Bool, true, ◌&&◌, ◌||◌, Option, none, some, List,
  [], ◌∷◌, ◌++◌, leb, ltb, ◌==◌, str_eq, if◌then◌else◌, All,
}

pub record IntervalRow (Tag : Type 0) : Type 0 where
  pub id : ℕ
  pub host : String
  pub gpu_index : ℕ
  pub start_ts : ℕ
  pub end_ts : ℕ
  pub tag : Tag
  pub seconds : ℕ

-- `next_id` is what `autoincrement` gives next.
pub record Table (Tag : Type 0) : Type 0 where
  pub rows : List (IntervalRow Tag)
  pub next_id : ℕ

-- `abs(a - b)`
abbrev pub distance : ℕ → ℕ → ℕ
distance a b = (a - b) + (b - a)

module _ {Tag : Type 0} where
  -- `where host=? and gpu_index=?`
  unfoldable pub of_gpu : String → ℕ → IntervalRow Tag → Bool
  of_gpu host gpu_index row = str_eq row.host host && row.gpu_index == gpu_index

  -- Whether `row` comes before `best` under `order by end_ts desc, id desc`.
  abbrev pub beats : IntervalRow Tag → IntervalRow Tag → Bool
  beats row best = ltb best.end_ts row.end_ts || (row.end_ts == best.end_ts && ltb best.id row.id)

  abbrev pub better : IntervalRow Tag → Option (IntervalRow Tag) → Option (IntervalRow Tag)
  better row none = some row
  better row (some best) = if beats best row then some best else some row

  -- `order by end_ts desc, id desc limit 1` over the rows of a GPU
  unfoldable pub latest : String → ℕ → List (IntervalRow Tag) → Option (IntervalRow Tag)
  latest host gpu_index [] = none
  latest host gpu_index (row ∷ rows) =
      let best = latest host gpu_index rows in
      if of_gpu host gpu_index row then better row best else best

  -- `set end_ts=?, seconds=?`, with the seconds from the row's own start
  abbrev pub ending_at : ℕ → IntervalRow Tag → IntervalRow Tag
  ending_at end_ts row = record row { end_ts = end_ts; seconds = end_ts - row.start_ts }

  -- `update ... where id=?`
  unfoldable pub extend_row : ℕ → ℕ → List (IntervalRow Tag) → List (IntervalRow Tag)
  extend_row id end_ts [] = []
  extend_row id end_ts (row ∷ rows) =
      (if row.id == id then ending_at end_ts row else row) ∷ extend_row id end_ts rows

  unfoldable pub insert_row : String → ℕ → ℕ → ℕ → Tag → Table Tag → Table Tag
  insert_row host gpu_index start_ts end_ts tag table = record {
    rows =
        table.rows
        ++ record {
          id = table.next_id;
          host = host;
          gpu_index = gpu_index;
          start_ts = start_ts;
          end_ts = end_ts;
          tag = tag;
          seconds = end_ts - start_ts;
        }
          ∷ [];
    next_id = suc table.next_id;
  }

  -- The last row of the GPU, `previous`, is extended to `end_ts` if it has the same tag and ends
  -- within one second of `start_ts`; a new row is inserted if not.
  abbrev pub extends : (Tag → Tag → Bool) → ℕ → Tag → IntervalRow Tag → Bool
  extends same_tag start_ts tag previous =
      same_tag previous.tag tag && leb (distance previous.end_ts start_ts) 1000

  unfoldable pub continue_from :
      (Tag → Tag → Bool)
      → String
      → ℕ
      → ℕ
      → ℕ
      → Tag
      → Table Tag
      → Option (IntervalRow Tag)
      → Table Tag
  continue_from same_tag host gpu_index start_ts end_ts tag table none =
      insert_row host gpu_index start_ts end_ts tag table
  continue_from same_tag host gpu_index start_ts end_ts tag table (some previous) =
      if extends same_tag start_ts tag previous
      then record table { rows = extend_row previous.id end_ts table.rows }
      else insert_row host gpu_index start_ts end_ts tag table

  unfoldable pub extend_or_insert :
      (Tag → Tag → Bool) → String → ℕ → ℕ → ℕ → Tag → Table Tag → Table Tag
  unfolding continue_from
  extend_or_insert same_tag host gpu_index start_ts end_ts tag table =
      continue_from same_tag host gpu_index start_ts end_ts tag table
        (latest host gpu_index table.rows)

  -- What the tables maintain.
  abbrev pub IsProper : IntervalRow Tag → Type 0
  IsProper row = (row.start_ts < row.end_ts) × (row.seconds ≡ row.end_ts - row.start_ts)

  -- Different ids, and no common instant on one GPU.
  abbrev pub Apart : IntervalRow Tag → IntervalRow Tag → Type 0
  Apart r s =
      (r.id < s.id)
      × (of_gpu r.host r.gpu_index s ≡ true → (r.end_ts ≤ s.start_ts) ⊎ (s.end_ts ≤ r.start_ts))

  abbrev pub IsChain : List (IntervalRow Tag) → Type 0
  IsChain [] = Unit
  IsChain (row ∷ rows) = IsProper row × All (Apart row) rows × IsChain rows

  pub record IsValid (table : Table Tag) : Type 0 where
    pub chain : IsChain table.rows
    pub fresh : All (λ row. row.id < table.next_id) table.rows

  -- Every interval of the GPU has ended by `ts`.
  abbrev pub EndedBy : String → ℕ → ℕ → List (IntervalRow Tag) → Type 0
  EndedBy host gpu_index ts rows =
      All (λ row. of_gpu host gpu_index row ≡ true → row.end_ts ≤ ts) rows
