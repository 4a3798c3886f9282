-- ===== src/Collector/Handling.antt =====
-- server.py, Collector.handle_payload and Collector.consume_gpu_result.
--
-- Times of the schedule are milliseconds of the monotonic clock, which is read once in a call. The
-- error of a failed host is given to the store as it writes it, redacted once more. A payload is the
-- object that a probe's answer is.
use Prim.Native.Nat.{◌^◌}
use gpu_watch.Prelude.{
  ℕ, ◌+◌, ◌-◌, ◌*◌, min, Bool, true, false, not, ◌||◌, Option, none, some, List, [], ◌∷◌, ◌++◌,
  String, ltb, leb, ◌==◌, str_eq, if◌then◌else◌, length, filter,
}
use gpu_watch.Prelude.Dict.{Dict, insert, get_or}
use gpu_watch.Json.{
  Json, str, array, object, Fields, Python, find_field, get, items_of, is_truthy, str_of, text_of,
}
use gpu_watch.Redaction.{Regex, safe_probe_error}
use gpu_watch.Store.Gpu.{Gpu}
use gpu_watch.Store.Recorder.{Recorder}
use gpu_watch.Store.Recorder.Payload.{
  Outcome, rejected, accepted, HostPayload, mark, apply_host_payload,
}
use gpu_watch.Snapshots.Disk.{DiskSnapshot, sanitize_disk_snapshot}
use gpu_watch.Collector.ErrorMap.{max_gpus_per_host, sanitize_gpu_errors}
use gpu_watch.Collector.Readings.{
  HandleError, invalid_payload, over_limit, unexpected_inventory, invalid_error_map, invalid_disk,
  refused, Checked, raised, done, normalize, expected_inventory, range, resanitized,
}

-- A host of the configuration; `expected_gpu_count` is `none` if it is no number.
pub record HostConfig : Type 0 where
  pub name : String
  pub label : String
  pub expected_gpu_count : Option ℕ

pub record Config : Type 0 where
  pub poll_interval : ℕ
  pub busy_memory_threshold : ℕ
  pub busy_utilization_threshold : ℕ
  pub usage_gap : ℕ

-- `audits` are the hosts and failures of the lines `gpu_probe_failed`.
pub record Collector : Type 0 where
  pub host_failures : Dict ℕ
  pub host_next_probe_at : Dict ℕ
  pub store : Recorder
  pub audits : List (String × ℕ)

-- `d.pop(key, None)`
unfoldable pub remove {ℓ} : {V : Type ℓ} → String → Dict V → Dict V
remove key d = filter (λ entry. not (str_eq entry.0 key)) d

-- `min(60.0, poll_interval * 2 ** min(5, failures - 3))`
unfoldable pub backoff : ℕ → ℕ → ℕ
backoff poll_interval failures = min 60000 (poll_interval * 2 ^ min 5 (failures - 3))

-- What a probe's future gives: the payload, or the text of its exception.
pub data Probe : Type 0 where
  answered : Fields → Probe
  crashed : String → Probe

-- What is used of Python's library, of the JSON of a snapshot, and of the texts of exceptions.
pub record Tools : Type 0 where
  pub python : Python
  pub regex : Regex
  pub dump : DiskSnapshot → String
  pub message : HandleError → String

module _ (tools : Tools) (config : Config) (host : HostConfig) where
  -- `payload.get("error") or "unknown error"`, as a text
  unfoldable pub error_of : Json → String
  unfolding str_of
  error_of value = if is_truthy value then str_of tools.python value else "unknown error"

  abbrev pub safe_error : String → String
  safe_error error = safe_probe_error tools.regex error 300

  -- `safe_probe_error(error) if error else None`
  abbrev pub stored_error : String → Option String
  stored_error error = if str_eq error "" then none else some (safe_error error)

  -- The branch of a payload that is not ok.
  unfoldable pub fail : String → ℕ → ℕ → Collector → Collector
  unfolding backoff mark
  fail error now ts c =
      let failures = get_or host.name 0 c.host_failures + 1 in
      record {
        host_failures = insert host.name failures c.host_failures;
        host_next_probe_at =
            if leb 3 failures
            then insert host.name (now + backoff config.poll_interval failures) c.host_next_probe_at
            else c.host_next_probe_at;
        store =
            mark host.name host.label false ts none none (stored_error (safe_error error)) c.store;
        audits =
            if failures == 1 || failures == 3
            then c.audits ++ (host.name, failures) ∷ []
            else c.audits;
      }

  -- The arguments of apply_host_payload.
  unfoldable pub host_payload : Fields → ℕ → Option String → List Gpu → ℕ → HostPayload
  unfolding resanitized text_of get range
  host_payload payload expected disk gpus ts = record {
    host = host.name;
    label = host.label;
    gpu_states =
        resanitized tools.python tools.regex config.busy_memory_threshold
          config.busy_utilization_threshold gpus;
    hostname = some (text_of tools.python (get "hostname" payload));
    driver_version = some (text_of tools.python (get "driver_version" payload));
    disk = disk;
    max_gap = some (if is_truthy (get "_collection_retried" payload) then 0 else config.usage_gap);
    expected = some (range expected);
    gpu_errors = some [];
    ts = ts;
  }

  unfoldable pub accept_published : Collector → Outcome Recorder → Checked Collector
  unfolding remove
  accept_published c (rejected error) = raised (refused error)
  accept_published c (accepted store) = done record c {
    host_failures = remove host.name c.host_failures;
    host_next_probe_at = remove host.name c.host_next_probe_at;
    store = store;
  }

  unfoldable pub publish_readings :
      Fields → ℕ → Option String → List Gpu → ℕ → Collector → Checked Collector
  unfolding host_payload accept_published apply_host_payload
  publish_readings payload expected disk gpus ts c =
      accept_published c (apply_host_payload (host_payload payload expected disk gpus ts) c.store)

  -- The disk must be an object, if the payload has one.
  unfoldable pub with_disk : Fields → ℕ → List Gpu → ℕ → Collector → Option Json → Checked Collector
  unfolding publish_readings sanitize_disk_snapshot
  with_disk payload expected gpus ts c none = publish_readings payload expected none gpus ts c
  with_disk payload expected gpus ts c (some (object disk)) =
      publish_readings payload expected
        (some (tools.dump (sanitize_disk_snapshot tools.python tools.regex (object disk)))) gpus ts
        c
  with_disk payload expected gpus ts c (some _) = raised invalid_disk

  unfoldable pub with_readings : Fields → ℕ → ℕ → Collector → Checked (List Gpu) → Checked Collector
  unfolding with_disk find_field
  with_readings payload expected ts c (raised error) = raised error
  with_readings payload expected ts c (done gpus) =
      with_disk payload expected gpus ts c (find_field "disk" payload)

  unfoldable pub checked_inventory : ℕ → ℕ → Checked (List Gpu) → Checked (List Gpu)
  unfolding expected_inventory
  checked_inventory count expected (raised error) = raised error
  checked_inventory count expected (done gpus) = expected_inventory count expected gpus

  unfoldable pub with_errors :
      Fields → List Json → ℕ → ℕ → ℕ → Collector → Option (List (ℕ × String)) → Checked Collector
  unfolding fail error_of with_readings checked_inventory normalize
  with_errors payload raws expected now ts c none = raised invalid_error_map
  with_errors payload raws expected now ts c (some ((index, error) ∷ errors)) =
      done (fail (error_of (str error)) now ts c)
  with_errors payload raws expected now ts c (some []) =
      with_readings payload expected ts c
        (checked_inventory (length raws) expected (normalize tools.python tools.regex [] raws))

  unfoldable pub with_expected :
      Fields → List Json → ℕ → ℕ → Collector → Option ℕ → Checked Collector
  unfolding with_errors sanitize_gpu_errors get
  with_expected payload raws now ts c none = raised unexpected_inventory
  with_expected payload raws now ts c (some expected) =
      with_errors payload raws expected now ts c
        (sanitize_gpu_errors tools.python tools.regex (get "gpu_errors" payload))

  unfoldable pub with_gpus : Fields → ℕ → ℕ → Collector → Json → Checked Collector
  unfolding with_expected items_of
  with_gpus payload now ts c (array values) =
      let raws = items_of values in
      if ltb max_gpus_per_host (length raws)
      then raised over_limit
      else with_expected payload raws now ts c host.expected_gpu_count
  with_gpus payload now ts c _ = raised invalid_payload

  unfoldable pub handle_payload : Fields → ℕ → ℕ → Collector → Checked Collector
  unfolding with_gpus fail error_of get
  handle_payload payload now ts c =
      if is_truthy (get "ok" payload)
      then with_gpus payload now ts c (get "gpus" payload)
      else done (fail (error_of (get "error" payload)) now ts c)

  -- An exception takes the path of a failed probe.
  unfoldable pub or_fail : ℕ → ℕ → Collector → Checked Collector → Collector
  unfolding fail error_of
  or_fail now ts c (raised error) =
      fail (error_of (str (safe_error (tools.message error)))) now ts c
  or_fail now ts c (done c') = c'

  unfoldable pub consume_gpu_result : Bool → Probe → ℕ → ℕ → Collector → Collector
  unfolding or_fail handle_payload fail error_of
  consume_gpu_result true probe now ts c = c
  consume_gpu_result false (answered payload) now ts c =
      or_fail now ts c (handle_payload payload now ts c)
  consume_gpu_result false (crashed error) now ts c =
      fail (error_of (str (safe_error error))) now ts c
