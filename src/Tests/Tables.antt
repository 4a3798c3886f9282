-- ===== src/Tests/Tables.antt =====
-- Runs of the interval recorders of server.py.
use gpu_watch.Prelude.{
  ℕ, ◌≤◌, ◌+◌, ◌≡◌, ◌⊎◌, refl, true, false, Option, none, some, String, [], ◌∷◌, arith,
}
use gpu_watch.Prelude.{◌-◌, ne_of_str_eq}
use gpu_watch.Text.{strip, split, is_space}
use gpu_watch.Store.Users.{normalize_user_text, split_user_text}
use gpu_watch.Store.Timeline.{
  IntervalRow, IsValid, EndedBy, latest, of_gpu, extend_or_insert, extend_row,
}
use gpu_watch.Store.Timeline.View.{tag_at}
use gpu_watch.Store.Timeline.Record.{Records, recorded_from, extend_or_insert_ne}
use gpu_watch.Store.Timeline.Tags.{AllTags}
use gpu_watch.Store.Usage.{UsageTable, same_users, record_busy_interval, has_duplicate}
use gpu_watch.Store.Usage.Laws.{IsStored, record_busy_interval-Records}
use gpu_watch.Store.Capacity.{CapacityTable, same_sample, stored_used, record_capacity_interval}
use gpu_watch.Store.Capacity.Laws.{sample_of, record_capacity_interval-Records, stored_used_bounds}

abbrev row : ℕ → ℕ → ℕ → ℕ → Option String → IntervalRow (Option String)
row id gpu_index start_ts end_ts users = record {
  id = id;
  host = "gpu01";
  gpu_index = gpu_index;
  start_ts = start_ts;
  end_ts = end_ts;
  tag = users;
  seconds = end_ts - start_ts;
}

abbrev usage : UsageTable
usage = record { rows = row 1 0 1000 5000 (some "kim") ∷ row 2 1 1000 9000 none ∷ []; next_id = 3 }

usage_extends :
    (record_busy_interval "gpu01" 0 5500 9000 (some "kim,?") usage).rows
    ≡ row 1 0 1000 9000 (some "kim") ∷ row 2 1 1000 9000 none ∷ []
unfolding record_busy_interval has_duplicate of_gpu extend_or_insert latest extend_row
    normalize_user_text split_user_text split strip is_space
usage_extends = refl

other_gpu : of_gpu "gpu01" 0 (row 2 1 1000 9000 none) ≡ false
unfolding of_gpu
other_gpu = refl

usage-IsValid : IsValid usage
usage-IsValid = record {
  chain = (
    (omega arith, refl),
    ((omega arith, λ e. cc (e, other_gpu)), tt),
    ((omega arith, refl), tt, tt),
  );
  fresh = omega arith;
}

usage-IsStored : AllTags IsStored usage.rows
usage-IsStored = ((λ e. ne_of_str_eq "kim" "" refl (cc e)), ((λ e. cc e), tt))

usage-EndedBy : EndedBy "gpu01" 0 5500 usage.rows
usage-EndedBy = ((λ _. omega arith), ((λ e. cc (e, other_gpu)), tt))

record_busy_interval-Records_example :
    Records "gpu01" 0 5500 9000
      (recorded_from same_users 5500
        (normalize_user_text (some "kim"))
        (latest "gpu01" 0 usage.rows))
      (normalize_user_text (some "kim"))
      usage
      (record_busy_interval "gpu01" 0 5500 9000 (some "kim") usage)
    × AllTags IsStored (record_busy_interval "gpu01" 0 5500 9000 (some "kim") usage).rows
record_busy_interval-Records_example =
    record_busy_interval-Records "gpu01" 0 5500 9000 (some "kim") usage (omega arith) usage-IsValid
      usage-IsStored usage-EndedBy

abbrev no_samples : CapacityTable
no_samples = record { rows = []; next_id = 1 }

record_capacity_interval-Records_example :
    Records "gpu01" 0 1000 2000
      (recorded_from same_sample 1000
        (sample_of true (some 24) (some 81920))
        (latest "gpu01" 0 no_samples.rows))
      (sample_of true (some 24) (some 81920))
      no_samples
      (record_capacity_interval "gpu01" 0 1000 2000 true (some 24) (some 81920) no_samples)
record_capacity_interval-Records_example =
    record_capacity_interval-Records "gpu01" 0 1000 2000 true (some 24) (some 81920) no_samples
      (omega arith) (record { chain = tt; fresh = tt }) tt

stored_used_bounds_example :
    (stored : ℕ) × (stored_used (some 24) (some 81920) ≡ some stored)
    × (stored ≤ 81920)
    × (stored ≤ 24 + 8)
    × ((24 ≤ stored + 8) ⊎ (stored ≡ 81920))
stored_used_bounds_example = stored_used_bounds 24 81920

-- A write for GPU 0 leaves GPU 1 as it was.
extend_or_insert_ne_example :
    tag_at "gpu01" 1 2000 (extend_or_insert same_users "gpu01" 0 5500 9000 (some "kim") usage).rows
    ≡ tag_at "gpu01" 1 2000 usage.rows
extend_or_insert_ne_example =
    extend_or_insert_ne "gpu01" 0 "gpu01" 1 (λ h g. absurd (omega arith)) same_users 5500 9000 2000
      (some "kim") usage usage-IsValid
