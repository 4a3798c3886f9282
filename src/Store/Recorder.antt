-- ===== src/Store/Recorder.antt =====
-- server.py, Store._update_gpu, Store._reconcile_host_gpus, Store._update_disk and
-- Store.apply_host_payload: what one observation of a host does to all the tables of the recorder.
--
-- Every operation takes the time that now_ts() gives it. The count of rows that
-- _reconcile_host_gpus returns is not read by apply_host_payload and is left out.
pub mod Payload
pub mod Tables
pub mod Sound
pub mod Calls
pub mod Runs
pub mod Gaps
pub mod Inventory
pub mod Publishing
use gpu_watch.Prelude.{
  ℕ, Bool, false, not, ◌&&◌, Option, none, some, List, [], ◌∷◌, ◌++◌, String, str_eq, ◌==◌,
  if◌then◌else◌, filter,
}
use gpu_watch.Prelude.Dict.{Dict}
use gpu_watch.Processes.{confirmed_process_users, attributable_process_users}
use gpu_watch.Store.Events.{
  Event, EventKind, busy_start, free_start, user_change, gap, hardware_change, Note, text,
}
use gpu_watch.Store.Timeline.{Table, of_gpu}
use gpu_watch.Store.Usage.{UsageTable, record_busy_interval}
use gpu_watch.Store.Capacity.{CapacityTable, record_capacity_interval}
use gpu_watch.Store.Host.{HostRow}
use gpu_watch.Store.Gpu.{
  Gpu, GpuRow, Elapsed, unseen, counted, missed, Session, user_text_of, uuid_of, first_row,
  gpu_event, elapsed_since, next_session, next_gpu_row, note_of, known_processes, is_some,
}

pub record DiskRow : Type 0 where
  pub updated_ts : ℕ
  pub snapshot : String
  pub last_attempt_ts : ℕ
  pub last_error : Option String

-- The tables host_runtime, gpu_runtime, gpu_usage_interval, gpu_capacity_interval, host_disk and
-- events, the last with its oldest row first.
pub record Recorder : Type 0 where
  pub hosts : Dict HostRow
  pub gpus : List GpuRow
  pub usage : UsageTable
  pub capacity : CapacityTable
  pub disks : Dict DiskRow
  pub events : List Event

-- `where host=? and gpu_index=?` on gpu_runtime
abbrev pub is_row_of : String → ℕ → GpuRow → Bool
is_row_of host gpu_index row = str_eq row.host host && row.gpu_index == gpu_index

unfoldable pub find_row : String → ℕ → List GpuRow → Option GpuRow
find_row host gpu_index [] = none
find_row host gpu_index (row ∷ rows) =
    if is_row_of host gpu_index row then some row else find_row host gpu_index rows

unfoldable pub delete_row : String → ℕ → List GpuRow → List GpuRow
delete_row host gpu_index rows = filter (λ row. not (is_row_of host gpu_index row)) rows

-- `update gpu_runtime set ... where host=? and gpu_index=?`, with the new row
unfoldable pub replace_row : String → ℕ → GpuRow → List GpuRow → List GpuRow
replace_row host gpu_index new [] = []
replace_row host gpu_index new (row ∷ rows) =
    (if is_row_of host gpu_index row then new else row) ∷ replace_row host gpu_index new rows

-- `delete from ... where host=? and gpu_index=?` on an interval table
unfoldable pub delete_intervals : {Tag : Type 0} → String → ℕ → Table Tag → Table Tag
delete_intervals host gpu_index table = record table {
  rows = filter (λ row. not (of_gpu host gpu_index row)) table.rows;
}

-- `row["gpu_uuid"] and incoming_uuid and row["gpu_uuid"] != incoming_uuid`
abbrev pub uuid_changed : Option String → Option String → Bool
uuid_changed none incoming = false
uuid_changed (some stored) none = false
uuid_changed (some stored) (some incoming) = not (str_eq stored "") && not (str_eq stored incoming)

abbrev pub hardware_event : String → ℕ → ℕ → Event
hardware_event host gpu_index ts =
    gpu_event host gpu_index ts hardware_change none
      (text "GPU UUID changed; recent per-index intervals reset")

-- Another card in the slot: its row and its intervals are dropped.
unfoldable pub forget_gpu : String → ℕ → ℕ → Recorder → Recorder
unfolding delete_row delete_intervals
forget_gpu host gpu_index ts state = record state {
  gpus = delete_row host gpu_index state.gpus;
  usage = delete_intervals host gpu_index state.usage;
  capacity = delete_intervals host gpu_index state.capacity;
  events = state.events ++ hardware_event host gpu_index ts ∷ [];
}

-- The state in which the row is read again, if it is still there.
unfoldable pub check_identity : String → Gpu → ℕ → Recorder → Option GpuRow → Recorder
unfolding forget_gpu
check_identity host gpu ts state none = state
check_identity host gpu ts state (some row) =
    if uuid_changed row.gpu_uuid (uuid_of gpu)
    then forget_gpu host gpu.index ts state
    else if is_some row.last_seen_ts
    then state
    else record state { gpus = delete_row host gpu.index state.gpus }

unfoldable pub observe_first : String → Gpu → Bool → ℕ → Recorder → Recorder
observe_first host gpu busy ts state = record state {
  gpus = state.gpus ++ first_row host gpu busy ts ∷ [];
  events =
      state.events
      ++ gpu_event host gpu.index ts (if busy then busy_start else free_start)
          (user_text_of (confirmed_process_users gpu.processes)) (text "initial observation")
        ∷ [];
}

-- The interval since the last observation is recorded with what was seen at its start.
unfoldable pub record_usage : String → ℕ → ℕ → GpuRow → Elapsed → UsageTable → UsageTable
record_usage host gpu_index ts row unseen table = table
record_usage host gpu_index ts row (missed elapsed) table = table
record_usage host gpu_index ts row (counted from elapsed) table =
    if row.busy
    then record_busy_interval host gpu_index from ts
        (user_text_of (attributable_process_users row.last_processes)) table
    else table

unfoldable pub record_capacity : String → ℕ → ℕ → GpuRow → Elapsed → CapacityTable → CapacityTable
record_capacity host gpu_index ts row unseen table = table
record_capacity host gpu_index ts row (missed elapsed) table = table
record_capacity host gpu_index ts row (counted from elapsed) table =
    record_capacity_interval host gpu_index from ts row.busy row.last_memory_used
      row.last_memory_total table

-- `last_user if event in ("busy_start", "user_change", "observation_gap") else user_text`
abbrev pub event_users : EventKind → Option String → Option String → Option String
event_users busy_start last_user user_text = last_user
event_users user_change last_user user_text = last_user
event_users gap last_user user_text = last_user
event_users _ last_user user_text = user_text

unfoldable pub session_events : String → ℕ → ℕ → Session → Option String → Note → List Event
session_events host gpu_index ts session user_text note = elim session.event [
  | none ↦ []
  | some kind ↦
      gpu_event host gpu_index ts kind (event_users kind session.last_user user_text) note ∷ []
]

unfoldable pub observe_again : String → Gpu → Bool → ℕ → Option ℕ → Recorder → GpuRow → Recorder
unfolding replace_row record_usage record_capacity session_events
observe_again host gpu busy ts max_gap state row =
    let elapsed = elapsed_since row.last_seen_ts ts max_gap in
    let user_text = user_text_of (confirmed_process_users (known_processes row gpu busy)) in
    record state {
      gpus = replace_row host gpu.index (next_gpu_row row gpu busy ts max_gap) state.gpus;
      usage = record_usage host gpu.index ts row elapsed state.usage;
      capacity = record_capacity host gpu.index ts row elapsed state.capacity;
      events =
          state.events
          ++ session_events host gpu.index ts (next_session row gpu busy ts elapsed) user_text
              (note_of elapsed);
    }

unfoldable pub observe : String → Gpu → Bool → ℕ → Option ℕ → Recorder → Option GpuRow → Recorder
unfolding observe_first observe_again
observe host gpu busy ts max_gap state none = observe_first host gpu busy ts state
observe host gpu busy ts max_gap state (some row) = observe_again host gpu busy ts max_gap state row

unfoldable pub update_gpu : String → Gpu → Bool → ℕ → Option ℕ → Recorder → Recorder
unfolding check_identity find_row observe
update_gpu host gpu busy ts max_gap state =
    let checked = check_identity host gpu ts state (find_row host gpu.index state.gpus) in
    observe host gpu busy ts max_gap checked (find_row host gpu.index checked.gpus)
