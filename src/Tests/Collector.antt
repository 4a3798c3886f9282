-- ===== src/Tests/Collector.antt =====
-- Runs of the redaction, of the sanitised snapshots, and of the collector.
use gpu_watch.Prelude.{
  ℕ, ◌≤◌, ◌+◌, ◌≡◌, ◌⊎◌, refl, true, false, Option, none, some, List, [], ◌∷◌, String, str_eq, map,
  arith, length, if◌then◌else◌,
}
use gpu_watch.Prelude.Signed.{pos, negsuc}
use gpu_watch.Prelude.Dict.{lookup, insert}
use gpu_watch.Text.{size, strip, take_text, lower}
use gpu_watch.Json.{
  Json, bool, int, float, str, array, object, nil, cons, Fields, end, field, finite, Python,
}
use gpu_watch.Redaction.{
  Regex, redact_sensitive_text, sensitive_ends, diagnostic_line, is_sensitive, assignment_label,
}
use gpu_watch.Store.Recorder.{Recorder}
use gpu_watch.Snapshots.Tokens.{basename}
use gpu_watch.Snapshots.Process.{sanitize_process, safe_label, safe_command_summary, is_script_name}
use gpu_watch.Snapshots.Gpu.{sanitize_gpu_snapshot}
use gpu_watch.Snapshots.Disk.{sanitize_disk_snapshot}
use gpu_watch.Snapshots.Labels.{safe_label-clean}
use gpu_watch.Snapshots.Bounds.{Each, IsSafe, sanitize_process-IsSafe}
use gpu_watch.Snapshots.Readings.{IsInRange, sanitize_gpu_snapshot-IsInRange}
use gpu_watch.Snapshots.Spaces.{IsBounded, sanitize_disk_snapshot-IsBounded}
use gpu_watch.Collector.ErrorMap.{sanitize_gpu_errors}
use gpu_watch.Collector.Readings.{Checked, raised, done, invalid_memory, normalize}
use gpu_watch.Collector.Inventory.{WhenDone}
use gpu_watch.Collector.Handling.{
  HostConfig, Config, Collector, Tools, backoff, fail, handle_payload,
}
use gpu_watch.Collector.Tick.{Future, Scheduler, collect_tick}
use gpu_watch.Collector.Workers.{collect_tick-le-workers}
use gpu_watch.Collector.Outcomes.{HasOutcome, handle_payload-HasOutcome}
use gpu_watch.Collector.Delays.{Delayed, failures_in, fail_all, lines, fail-delays, fail_all-counts}

-- Enough of Python for the values below.
abbrev python : Python
python = record {
  read_int = λ s. if str_eq s "0" then some (pos 0) else none;
  read_float = λ s. if str_eq s "12.5" then some (finite (pos 12)) else none;
  float_of = λ z. some (finite z);
  show_int = λ z. "0";
  show = λ value. "[]";
}

-- The patterns on the texts below.
abbrev regex : Regex
regex = record {
  find_labels = λ pattern text.
      if str_eq pattern assignment_label
      then (if str_eq text "run token=abc" then ("token", 10) ∷ [] else [])
      else [];
  sub = λ pattern replacement text. text;
  search = λ pattern text. false;
}

key_is_sensitive : is_sensitive "X-Api-KEY" ≡ true
unfolding is_sensitive
key_is_sensitive = refl

-- The first letter of "key" is the sign for kelvin.
kelvin_is_lowered : is_sensitive "api_Key" ≡ true
unfolding is_sensitive
kelvin_is_lowered = refl

key_is_harmless : is_sensitive "monkey" ≡ false
unfolding is_sensitive
key_is_harmless = refl

secret_is_cut : redact_sensitive_text regex "run\ntoken=abc" 300 ≡ "run token=[redacted]"
unfolding redact_sensitive_text take_text strip lower
secret_is_cut = refl

base_of_path : basename "/usr/bin/python3" ≡ "python3"
unfolding basename
base_of_path = refl

script_is_named : is_script_name "Train_v2.PY" ≡ true
unfolding is_script_name
script_is_named = refl

argument_is_dropped :
    safe_command_summary python regex (str "python3 /home/x/a.py") "python3" ≡ "python3"
unfolding safe_command_summary
argument_is_dropped = refl

script_is_kept : safe_command_summary python regex (str "python3 a.py") "python3" ≡ "python3 a.py"
unfolding safe_command_summary
script_is_kept = refl

abbrev process : Json
process = object (
    field "pid" (int (pos 41)) (
      field "user" (str "ann") (
        field "process_name" (str "/usr/bin/python3")
          (field "command_summary" (str "python3 a.py") (field "used_memory" (float "12.5") end)))))

safe_label-clean_example :
    (safe_label python regex (str "run token=abc") 64 "process" false ≡ "process")
    ⊎ ((size (safe_label python regex (str "run token=abc") 64 "process" false) ≤ 64)
        × (sensitive_ends regex (
              diagnostic_line regex
                (64 + 10)
                (safe_label python regex (str "run token=abc") 64 "process" false))
            ≡ []))
safe_label-clean_example = safe_label-clean python regex (str "run token=abc") 64 "process" false

sanitize_process-IsSafe_example : Each IsSafe (sanitize_process python regex process)
sanitize_process-IsSafe_example = sanitize_process-IsSafe python regex process

abbrev gpu : ℕ → ℕ → Json
gpu i used = object (
    field "index" (int (pos i)) (
      field "name" (str "A100") (
        field "utilization" (int (pos 40)) (
          field "memory_used" (int (pos used)) (
            field "memory_total" (int (pos 80000))
              (field "processes" (array (cons process nil)) end))))))

sanitize_gpu_snapshot-IsInRange_example :
    Each IsInRange (sanitize_gpu_snapshot python regex (gpu 0 500))
sanitize_gpu_snapshot-IsInRange_example = sanitize_gpu_snapshot-IsInRange python regex (gpu 0 500)

abbrev disk : Json
disk = object (
    field "users"
      (array (
        cons (object (field "user" (str "ann") (field "bytes" (int (pos 9)) end)))
          (cons (object (field "user" (str "bob") (field "bytes" (int (negsuc 0)) end))) nil)))
      end)

disk_users_kept :
    map (λ user. user.user) (sanitize_disk_snapshot python regex disk).users ≡ "ann" ∷ []
unfolding sanitize_disk_snapshot
disk_users_kept = refl

short_numbers : (n : ℕ) → n ≤ 32 → size (python.show_int (pos n)) ≤ 2
unfolding size
short_numbers n h = omega arith

sanitize_disk_snapshot-IsBounded_example : IsBounded (sanitize_disk_snapshot python regex disk)
sanitize_disk_snapshot-IsBounded_example =
    sanitize_disk_snapshot-IsBounded python regex disk short_numbers

errors_read :
    sanitize_gpu_errors python regex (object (field "0" (str "ECC") end)) ≡ some ((0, "ECC") ∷ [])
unfolding sanitize_gpu_errors take_text
errors_read = refl

abbrev tools : Tools
tools = record {
  python = python;
  regex = regex;
  dump = λ snapshot. "{}";
  message = λ error. "ValueError";
}

abbrev config : Config
config = record {
  poll_interval = 5000;
  busy_memory_threshold = 1000;
  busy_utilization_threshold = 10;
  usage_gap = 30000;
}

abbrev host : HostConfig
host = record { name = "node1"; label = "Node 1"; expected_gpu_count = some 2 }

abbrev empty_store : Recorder
empty_store = record {
  hosts = [];
  gpus = [];
  usage = record { rows = []; next_id = 1 };
  capacity = record { rows = []; next_id = 1 };
  disks = [];
  events = [];
}

abbrev collector : Collector
collector = record {
  host_failures = ("node1", 2) ∷ [];
  host_next_probe_at = [];
  store = empty_store;
  audits = [];
}

abbrev payload : Fields
payload = field "ok" (bool true) (field "gpus" (array (cons (gpu 1 500) (cons (gpu 0 7) nil))) end)

abbrev failures_after : Checked Collector → Option ℕ
failures_after (raised error) = none
failures_after (done after) = some (failures_in tools config host after)

published_clears_failures :
    failures_after (handle_payload tools config host payload 1000 2000 collector) ≡ some 0
unfolding handle_payload lookup
published_clears_failures = refl

memory_is_required :
    normalize python regex [] (gpu 0 500 ∷ gpu 1 90000 ∷ []) ≡ raised invalid_memory
unfolding normalize
memory_is_required = refl

third_failure_waits : backoff 5000 3 ≡ 5000
unfolding backoff
third_failure_waits = refl

later_failures_wait_a_minute : backoff 5000 9 ≡ 60000
unfolding backoff
later_failures_wait_a_minute = refl

handle_payload-HasOutcome_example :
    WhenDone
      (HasOutcome tools config host payload 1000 2000 collector)
      (handle_payload tools config host payload 1000 2000 collector)
handle_payload-HasOutcome_example =
    handle_payload-HasOutcome tools (λ n h. refl) config host payload 1000 2000 collector

fail-delays_example :
    ((fail tools config host "exit 255" 1000 2000 collector).store.gpus ≡ [])
    × ((fail tools config host "exit 255" 1000 2000 collector).store.usage ≡ empty_store.usage)
    × ((fail tools config host "exit 255" 1000 2000 collector).store.capacity
        ≡ empty_store.capacity)
    × ((fail tools config host "exit 255" 1000 2000 collector).store.disks ≡ [])
    × Delayed 1000 5000
        (failures_in tools config host collector + 1)
        (lookup "node1" collector.host_next_probe_at)
        (lookup "node1" (fail tools config host "exit 255" 1000 2000 collector).host_next_probe_at)
fail-delays_example = fail-delays tools config host "exit 255" 1000 2000 collector

abbrev three_failures : List (String × ℕ × ℕ)
three_failures = ("exit 255", 1000, 2000) ∷ ("exit 255", 6000, 7000) ∷ ("timeout", 9000, 9500) ∷ []

abbrev fresh : Collector
fresh = record collector { host_failures = [] }

no_failures : failures_in tools config host fresh ≡ 0
unfolding lookup
no_failures = refl

fail_all-counts_example :
    (failures_in tools config host (fail_all tools config host three_failures fresh) ≡ 3)
    × (length (fail_all tools config host three_failures fresh).audits ≡ 0 + lines 3)
    × (length (fail_all tools config host three_failures fresh).audits ≤ 2)
fail_all-counts_example = fail_all-counts tools config host three_failures fresh no_failures

abbrev scheduler : Scheduler
scheduler = record {
  collector = fresh;
  gpu_futures = ("node1", record { host = host; started = 0 }) ∷ [];
}

abbrev second_host : HostConfig
second_host = record { name = "node2"; label = "Node 2"; expected_gpu_count = some 1 }

abbrev names_of : List (String × Future) → List String
names_of [] = []
names_of ((name, future) ∷ futures) = name ∷ names_of futures

one_worker_waits :
    names_of
      (collect_tick tools config false 100 200 1 (host ∷ second_host ∷ []) [] scheduler).gpu_futures
    ≡ "node1" ∷ []
unfolding collect_tick lookup insert
one_worker_waits = refl

second_worker_starts :
    names_of
      (collect_tick tools config false 100 200 2 (host ∷ second_host ∷ []) [] scheduler).gpu_futures
    ≡ "node1" ∷ "node2" ∷ []
unfolding collect_tick lookup insert
second_worker_starts = refl

collect_tick-le-workers_example :
    length
      (collect_tick tools config false 100 200 2 (host ∷ second_host ∷ []) [] scheduler).gpu_futures
    ≤ 2
collect_tick-le-workers_example =
    collect_tick-le-workers tools config false 100 200 2 (host ∷ second_host ∷ []) [] scheduler
      (omega arith)
