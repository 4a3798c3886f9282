-- ===== src/Store/Usage.antt =====
-- server.py, Store._record_busy_interval: the table gpu_usage_interval.
pub mod Laws
use gpu_watch.Prelude.{
  ℕ, Bool, true, false, ◌&&◌, ◌||◌, Option, none, some, List, [], ◌∷◌, String, leb, ◌==◌, str_eq,
  if◌then◌else◌,
}
use gpu_watch.Text.{text_or, or_none}
use gpu_watch.Store.Users.{normalize_user_text}
use gpu_watch.Store.Timeline.{IntervalRow, Table, of_gpu, extend_or_insert}

-- The users column: `None`, or user names joined by commas.
abbrev pub UsageTable : Type 0
UsageTable = Table (Option String)

-- Equality of nullable texts.
abbrev pub same_text : Option String → Option String → Bool
same_text none none = true
same_text none (some b) = false
same_text (some a) none = false
same_text (some a) (some b) = str_eq a b

-- `(previous["users"] or None) == user_text`
abbrev pub same_users : Option String → Option String → Bool
same_users previous users = same_text (or_none (text_or previous)) users

-- `coalesce(users, '')=coalesce(?, '')`, and times that agree to the millisecond
unfoldable pub is_duplicate :
    String → ℕ → ℕ → ℕ → Option String → IntervalRow (Option String) → Bool
is_duplicate host gpu_index start_ts end_ts users row =
    of_gpu host gpu_index row
    && (row.start_ts == start_ts
        && (row.end_ts == end_ts && str_eq (text_or row.tag) (text_or users)))

unfoldable pub has_duplicate :
    String → ℕ → ℕ → ℕ → Option String → List (IntervalRow (Option String)) → Bool
unfolding is_duplicate
has_duplicate host gpu_index start_ts end_ts users [] = false
has_duplicate host gpu_index start_ts end_ts users (row ∷ rows) =
    is_duplicate host gpu_index start_ts end_ts users row
    || has_duplicate host gpu_index start_ts end_ts users rows

unfoldable pub record_busy_interval : String → ℕ → ℕ → ℕ → Option String → UsageTable → UsageTable
record_busy_interval host gpu_index start_ts end_ts users table =
    let user_text = normalize_user_text users in
    if leb end_ts start_ts
    then table
    else if has_duplicate host gpu_index start_ts end_ts user_text table.rows
    then table
    else extend_or_insert same_users host gpu_index start_ts end_ts user_text table
