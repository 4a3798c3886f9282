-- ===== src/Store/Recorder/Tables.antt =====
-- What an observation of a GPU does to the ends of the recorded intervals.
use gpu_watch.Prelude.{
  ℕ, ◌-◌, ◌≤◌, ◌≡◌, String, Bool, Option, some, leb, arith, Bool-cases, inl, inr,
}
use gpu_watch.Processes.{attributable_process_users}
use gpu_watch.Store.Users.{normalize_user_text}
use gpu_watch.Store.Timeline.{EndedBy, IsValid}
use gpu_watch.Store.Timeline.Tags.{AllTags}
use gpu_watch.Store.Timeline.Keep.{
  Advances, unchanged-Advances, later-EndedBy, extend_or_insert-Advances,
}
use gpu_watch.Store.Usage.{UsageTable, same_users, has_duplicate, record_busy_interval}
use gpu_watch.Store.Usage.Laws.{IsStored, record_busy_interval-Records}
use gpu_watch.Store.Capacity.{CapacityTable, same_sample, record_capacity_interval}
use gpu_watch.Store.Capacity.Laws.{sample_of, record_capacity_interval-Records}
use gpu_watch.Store.Gpu.{GpuRow, elapsed_since, within, user_text_of}
use gpu_watch.Store.Recorder.{record_usage, record_capacity}

module _ (host : String) (gpu_index start_ts end_ts : ℕ) where
  record_capacity_interval-Advances :
      (busy : Bool) (used total : Option ℕ) (table : CapacityTable)
      → start_ts ≤ end_ts
      → IsValid table
      → EndedBy host gpu_index start_ts table.rows
      → Advances host gpu_index end_ts table
          (record_capacity_interval host gpu_index start_ts end_ts busy used total table)
  unfolding record_capacity_interval
  record_capacity_interval-Advances busy used total table order v l =
      elim (Bool-cases (leb end_ts start_ts)) [
        | inl e ↦ rw e (
            unchanged-Advances host gpu_index end_ts table v
              (later-EndedBy host gpu_index start_ts end_ts table.rows order l))
        | inr e ↦
            let r =
              record_capacity_interval-Records host gpu_index start_ts end_ts busy used total table
                (ground arith) v l in
            rw e (
              extend_or_insert-Advances same_sample host gpu_index start_ts end_ts
                (sample_of busy used total) table v (rw e at r.valid) (rw e at r.ended))
      ]

  record_busy_interval-Advances :
      (users : Option String) (table : UsageTable)
      → start_ts ≤ end_ts
      → IsValid table
      → AllTags IsStored table.rows
      → EndedBy host gpu_index start_ts table.rows
      → Advances host gpu_index end_ts table
          (record_busy_interval host gpu_index start_ts end_ts users table)
        × AllTags IsStored (record_busy_interval host gpu_index start_ts end_ts users table).rows
  unfolding record_busy_interval
  record_busy_interval-Advances users table order v s l =
      let later = later-EndedBy host gpu_index start_ts end_ts table.rows order l in
      let same = unchanged-Advances host gpu_index end_ts table v later in
      elim (Bool-cases (leb end_ts start_ts)) [
        | inl e ↦ rw e (same, s)
        | inr e ↦
            elim (Bool-cases (
              has_duplicate host gpu_index start_ts end_ts (normalize_user_text users)
                table.rows)) [
                  | inl d ↦ rw (e, d) (same, s)
                  | inr d ↦
                      let (r, stored) =
                        record_busy_interval-Records host gpu_index start_ts end_ts users table
                          (ground arith) v s l in
                      rw (e, d)
                        (
                          extend_or_insert-Advances same_users host gpu_index start_ts end_ts
                              (normalize_user_text users) table v (rw (e, d) at r.valid)
                              (rw (e, d) at r.ended),
                          rw (e, d) at stored,
                        )
                ]
      ]

module _ (host : String) (gpu_index ts last : ℕ) (row : GpuRow) (max_gap : Option ℕ)
    (seen : row.last_seen_ts ≡ some last) (order : last ≤ ts) where
  -- An observation of a GPU whose intervals have ended by the one before keeps both tables in order.
  pub record_capacity-Advances :
      (table : CapacityTable)
      → IsValid table
      → EndedBy host gpu_index last table.rows
      → Advances host gpu_index ts table
          (record_capacity host gpu_index ts row (elapsed_since row.last_seen_ts ts max_gap) table)
  unfolding record_capacity elapsed_since
  record_capacity-Advances table v l = elim (Bool-cases (within max_gap (ts - last))) [
    | inl e ↦
        rw (seen, e)
          (record_capacity_interval-Advances host gpu_index last ts row.busy row.last_memory_used
            row.last_memory_total table order v l)
    | inr e ↦
        rw (seen, e)
          (unchanged-Advances host gpu_index ts table v
            (later-EndedBy host gpu_index last ts table.rows order l))
  ]

  pub record_usage-Advances :
      (table : UsageTable)
      → IsValid table
      → AllTags IsStored table.rows
      → EndedBy host gpu_index last table.rows
      → Advances host gpu_index ts table
          (record_usage host gpu_index ts row (elapsed_since row.last_seen_ts ts max_gap) table)
        × AllTags IsStored
            (record_usage host gpu_index ts row
              (elapsed_since row.last_seen_ts ts max_gap)
              table).rows
  unfolding record_usage elapsed_since
  record_usage-Advances table v s l =
      let same =
        unchanged-Advances host gpu_index ts table v
          (later-EndedBy host gpu_index last ts table.rows order l) in
      elim (Bool-cases (within max_gap (ts - last))) [
        | inr e ↦ rw (seen, e) (same, s)
        | inl e ↦ elim (Bool-cases row.busy) [
          | inr free ↦ rw (seen, e, free) (same, s)
          | inl busy ↦
              rw (seen, e, busy)
                (record_busy_interval-Advances host gpu_index last ts
                  (user_text_of (attributable_process_users row.last_processes)) table order v s l)
        ]
      ]
