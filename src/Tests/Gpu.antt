-- ===== src/Tests/Gpu.antt =====
-- Runs of the GPU rows of server.py.
use gpu_watch.Prelude.{
  ◌+◌, ◌≤◌, true, false, none, some, ◌≡◌, refl, List, [], ◌∷◌, if◌then◌else◌, arith,
}
use gpu_watch.Prelude.Dict.{insert, lookup}
use gpu_watch.Text.{clean_text, is_space}
use gpu_watch.Processes.{Process, attributable_process_users, add_user_seconds}
use gpu_watch.Processes.Charge.{total}
use gpu_watch.Store.Gpu.{
  Gpu, GpuRow, missed, is_missed, first_row, parse_user_seconds, next_session, next_gpu_row,
}
use gpu_watch.Store.Usage.{UsageTable}
use gpu_watch.Store.Capacity.{CapacityTable}
use gpu_watch.Store.Host.{HostRow}
use gpu_watch.Store.Gpu.{elapsed_since}
use gpu_watch.Store.Recorder.{record_usage, record_capacity}
use gpu_watch.Store.Recorder.Payload.{gap_limit}
use gpu_watch.Store.Recorder.Gaps.{offline_gap}
use gpu_watch.Store.Gpu.Sessions.{Continues, next_session-Continues}
use gpu_watch.Store.Gpu.Accounting.{
  IsAccounted, first_row-IsAccounted, next_gpu_row-IsAccounted, next_gpu_row_totals,
}

abbrev job : Process
job = record {
  pid = 41;
  user = "kim";
  process_name = "python";
  command_summary = "python";
  used_memory = some 4096;
  started = "2026-10-01 09:00";
  container_name = "";
  container_id = none;
  start_identity = some "1001";
}

abbrev reading : List Process → Gpu
reading processes = record {
  index = 0;
  name = "GPU";
  uuid = "GPU-1";
  utilization = some 90;
  memory_used = some 4100;
  memory_total = some 24576;
  processes = processes;
}

abbrev row : GpuRow
row = first_row "gpu01" (reading (job ∷ [])) true 10000

busy_time_is_charged :
    (next_gpu_row row (reading []) false 40000 (some 60000)).user_seconds ≡ ("kim", 30000) ∷ []
unfolding next_gpu_row first_row attributable_process_users add_user_seconds clean_text is_space
    parse_user_seconds insert lookup
busy_time_is_charged = refl

gap_is_not_charged : (next_gpu_row row (reading []) true 90000 (some 60000)).user_seconds ≡ []
unfolding next_gpu_row first_row attributable_process_users add_user_seconds clean_text is_space
    parse_user_seconds insert lookup
gap_is_not_charged = refl

next_gpu_row-IsAccounted_example :
    IsAccounted (next_gpu_row row (reading []) false 40000 (some 60000)) 40000
next_gpu_row-IsAccounted_example =
    next_gpu_row-IsAccounted row (reading []) false 40000 10000 (some 60000)
      (first_row-IsAccounted "gpu01" (reading (job ∷ [])) true 10000) (omega arith)

next_gpu_row_totals_example :
    ((next_gpu_row row (reading []) false 40000 (some 60000)).observed_seconds
      ≡ row.observed_seconds + 30000)
    × ((next_gpu_row row (reading []) false 40000 (some 60000)).busy_seconds
        ≡ row.busy_seconds + (if row.busy then 30000 else 0))
    × (total (next_gpu_row row (reading []) false 40000 (some 60000)).user_seconds
        ≤ total row.user_seconds + (if row.busy then 30000 else 0))
next_gpu_row_totals_example =
    next_gpu_row_totals row (reading []) false 40000 10000 (some 60000)
      (first_row-IsAccounted "gpu01" (reading (job ∷ [])) true 10000).seen

next_session-Continues_example :
    Continues row true 90000
      (is_missed (missed 80000))
      (next_session row (reading []) true 90000 (missed 80000))
next_session-Continues_example = next_session-Continues row (reading []) true 90000 (missed 80000)

abbrev down : HostRow
down = record {
  label = "GPU 01";
  online = false;
  hostname = none;
  driver_version = none;
  last_seen_ts = some 10000;
  last_error_ts = some 20000;
  last_error = some "timeout";
  consecutive_failures = 2;
}

abbrev usage : UsageTable
usage = record { rows = []; next_id = 1 }

abbrev capacity : CapacityTable
capacity = record { rows = []; next_id = 1 }

offline_gap_example :
    let limit = gap_limit (some down) (some 60000) in
    let next = next_gpu_row row (reading []) true 40000 limit in
    let elapsed = elapsed_since row.last_seen_ts 40000 limit in
    (next.observed_seconds ≡ row.observed_seconds)
    × (next.busy_seconds ≡ row.busy_seconds)
    × (total next.user_seconds ≤ total row.user_seconds)
    × (record_usage "gpu01" 0 40000 row elapsed usage ≡ usage)
    × (record_capacity "gpu01" 0 40000 row elapsed capacity ≡ capacity)
offline_gap_example =
    offline_gap "gpu01" down row (reading []) true 40000 10000 (some 60000) usage capacity refl
      (first_row-IsAccounted "gpu01" (reading (job ∷ [])) true 10000).seen (omega arith)
