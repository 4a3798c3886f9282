-- ===== src/Collector/Readings.antt =====
-- server.py, Collector.handle_payload: the readings of the GPUs, the inventory they must make up, and
-- the dictionaries in which sanitised readings are passed on.
use gpu_watch.Prelude.{
  ℕ, zero, suc, Bool, false, not, ◌&&◌, ◌||◌, Option, none, some, List, [], ◌∷◌, ◌++◌, String, ltb,
  leb, ◌==◌, if◌then◌else◌, map,
}
use gpu_watch.Prelude.Signed.{pos}
use gpu_watch.Json.{
  Json, null, int, str, array, object, Items, nil, cons, Fields, end, field, Python,
}
use gpu_watch.Redaction.{Regex}
use gpu_watch.Processes.{Process, is_empty}
use gpu_watch.Store.Gpu.{Gpu}
use gpu_watch.Store.Recorder.Payload.{PayloadError, has_index, same_indices}
use gpu_watch.Snapshots.Gpu.{sanitize_gpu_snapshot}

-- The ValueErrors of handle_payload, and that of apply_host_payload passed on.
pub data HandleError : Type 0 where
  invalid_payload over_limit unexpected_inventory invalid_error_map invalid_reading : HandleError
  invalid_memory repeated_index wrong_indices invalid_disk : HandleError
  refused : PayloadError → HandleError

pub data Checked (A : Type 0) : Type 0 where
  raised : HandleError → Checked A
  done : A → Checked A

-- `memory_used is None or ... or memory_used > memory_total`, turned round
abbrev pub is_memory_known : Option ℕ → Option ℕ → Bool
is_memory_known none total = false
is_memory_known (some used) none = false
is_memory_known (some used) (some total) = ltb 0 total && leb used total

abbrev pub add_reading : Gpu → Checked (List Gpu) → Checked (List Gpu)
add_reading gpu (raised error) = raised error
add_reading gpu (done gpus) = done (gpu ∷ gpus)

-- The checks of one reading, and what the loop makes of the others.
unfoldable pub check_reading : List ℕ → Gpu → Checked (List Gpu) → Checked (List Gpu)
unfolding has_index
check_reading seen gpu rest =
    if not (is_memory_known gpu.memory_used gpu.memory_total)
    then raised invalid_memory
    else if has_index gpu.index seen
    then raised repeated_index
    else add_reading gpu rest

unfoldable pub normalize_sanitized :
    Option Gpu → List ℕ → (List ℕ → Checked (List Gpu)) → Checked (List Gpu)
unfolding check_reading
normalize_sanitized none seen others = raised invalid_reading
normalize_sanitized (some gpu) seen others = check_reading seen gpu (others (gpu.index ∷ seen))

-- `set(range(n))`
unfoldable pub range : ℕ → List ℕ
range zero = []
range (suc n) = range n ++ n ∷ []

abbrev pub own_index : Gpu → ℕ
own_index gpu = gpu.index

-- The inventory, if no GPU is in error; `count` is the number of readings.
unfoldable pub expected_inventory : ℕ → ℕ → List Gpu → Checked (List Gpu)
unfolding range
expected_inventory count expected gpus =
    if is_empty gpus || not (count == expected)
    then raised unexpected_inventory
    else if not (same_indices (map own_index gpus) (range expected))
    then raised wrong_indices
    else done gpus

abbrev pub int_or_null : Option ℕ → Json
int_or_null none = null
int_or_null (some n) = int (pos n)

abbrev pub field_if : String → Option String → Fields → Fields
field_if name none fields = fields
field_if name (some value) fields = field name (str value) fields

-- The dictionary of a sanitised process.
unfoldable pub process_json : Process → Json
process_json process = object (
    field "pid" (int (pos process.pid)) (
      field "user" (str process.user) (
        field "process_name" (str process.process_name) (
          field "command_summary" (str process.command_summary) (
            field "used_memory" (int_or_null process.used_memory) (
              field "started" (str process.started) (
                field "container_name" (str process.container_name) (
                  field_if "container_id" process.container_id
                    (field_if "start_identity" process.start_identity end)))))))))

unfoldable pub processes_json : List Process → Items
unfolding process_json
processes_json [] = nil
processes_json (process ∷ processes) = cons (process_json process) (processes_json processes)

-- The dictionary of a sanitised reading.
unfoldable pub gpu_fields : Gpu → Fields
unfolding processes_json
gpu_fields gpu = field "index" (int (pos gpu.index)) (
    field "name" (str gpu.name) (
      field "uuid" (str gpu.uuid) (
        field "utilization" (int_or_null gpu.utilization) (
          field "memory_used" (int_or_null gpu.memory_used) (
            field "memory_total" (int_or_null gpu.memory_total)
              (field "processes" (array (processes_json gpu.processes)) end))))))

unfoldable pub gpu_json : Gpu → Json
unfolding gpu_fields
gpu_json gpu = object (gpu_fields gpu)

abbrev pub number_or_zero : Option ℕ → ℕ
number_or_zero none = 0
number_or_zero (some n) = n

-- `bool(processes) or mem >= ... or util >= ...`, with the thresholds of the configuration
unfoldable pub is_busy : ℕ → ℕ → Gpu → Bool
is_busy memory_threshold utilization_threshold gpu =
    not (is_empty gpu.processes)
    || (leb memory_threshold (number_or_zero gpu.memory_used)
        || leb utilization_threshold (number_or_zero gpu.utilization))

module _ (py : Python) (re : Regex) where
  -- The loop over the readings; `seen` holds the indices so far.
  unfoldable pub normalize : List ℕ → List Json → Checked (List Gpu)
  unfolding normalize_sanitized sanitize_gpu_snapshot
  normalize seen [] = done []
  normalize seen (raw ∷ raws) =
      normalize_sanitized (sanitize_gpu_snapshot py re raw) seen (λ seen'. normalize seen' raws)

  -- `gpu_states` as apply_host_payload sanitises them again.
  unfoldable pub resanitized : ℕ → ℕ → List Gpu → List (Option Gpu × Bool)
  unfolding gpu_json is_busy sanitize_gpu_snapshot
  resanitized memory_threshold utilization_threshold [] = []
  resanitized memory_threshold utilization_threshold (gpu ∷ gpus) =
      (
        sanitize_gpu_snapshot py re (gpu_json gpu),
        is_busy memory_threshold utilization_threshold gpu,
      )
      ∷ resanitized memory_threshold utilization_threshold gpus
