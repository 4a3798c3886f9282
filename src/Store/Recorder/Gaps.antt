-- ===== src/Store/Recorder/Gaps.antt =====
-- The time in which a host could not be observed counts for nothing.
use gpu_watch.Prelude.{
  ℕ, ◌-◌, ◌≤◌, ◌<◌, ◌≡◌, refl, String, Bool, false, Option, some, leb, arith, ap,
}
use gpu_watch.Processes.Charge.{total}
use gpu_watch.Store.Usage.{UsageTable}
use gpu_watch.Store.Capacity.{CapacityTable}
use gpu_watch.Store.Host.{HostRow}
use gpu_watch.Store.Gpu.{Gpu, GpuRow, elapsed_since, missed, next_gpu_row}
use gpu_watch.Store.Gpu.Accounting.{next_gpu_row_totals}
use gpu_watch.Store.Recorder.{record_usage, record_capacity}
use gpu_watch.Store.Recorder.Payload.{gpu_is_observed, gap_limit}

any_gap_missed :
    (row : GpuRow) (ts last : ℕ)
    → row.last_seen_ts ≡ some last
    → last < ts
    → elapsed_since row.last_seen_ts ts (some 0) ≡ missed (ts - last)
unfolding elapsed_since
any_gap_missed row ts last seen later =
    let long : leb (ts - last) 0 ≡ false = ground arith in rw (seen, long) refl

-- The first observation after its host was off line or failing adds nothing to what a GPU was
-- observed, busy or used by anyone, and records no interval of it, if the clock has advanced.
pub offline_gap :
    (host : String) (host_row : HostRow) (row : GpuRow) (gpu : Gpu) (busy : Bool) (ts last : ℕ)
    (max_gap : Option ℕ) (usage : UsageTable) (capacity : CapacityTable)
    → gpu_is_observed host_row ≡ false
    → row.last_seen_ts ≡ some last
    → last < ts
    → let limit = gap_limit (some host_row) max_gap in
      let next = next_gpu_row row gpu busy ts limit in
      let elapsed = elapsed_since row.last_seen_ts ts limit in
      (next.observed_seconds ≡ row.observed_seconds)
      × (next.busy_seconds ≡ row.busy_seconds)
      × (total next.user_seconds ≤ total row.user_seconds)
      × (record_usage host gpu.index ts row elapsed usage ≡ usage)
      × (record_capacity host gpu.index ts row elapsed capacity ≡ capacity)
unfolding record_usage record_capacity
offline_gap host host_row row gpu busy ts last max_gap usage capacity down seen later =
    let totals = next_gpu_row_totals row gpu busy ts last (some 0) seen in
    let long : leb (ts - last) 0 ≡ false = ground arith in
    let (observed, used, charged) = rw long at totals in
    let gone = any_gap_missed row ts last seen later in
    rw down (
      ground (arith, observed),
      ground (arith, used),
      ground (arith, charged),
      ap (λ elapsed. record_usage host gpu.index ts row elapsed usage) gone,
      ap (λ elapsed. record_capacity host gpu.index ts row elapsed capacity) gone,
    )
