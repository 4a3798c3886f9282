-- ===== src/Lib.antt =====
-- Verification of GPU Watch, an agentless dashboard for the GPU servers of a lab: server.py and the
-- modules of gpu_watch/. A collector probes every host over SSH; its readings are sanitised and
-- published to a SQLite store in one transaction a host; the HTTP API reads the store, and its
-- mutations pass a rate limiter and passphrase checks.
--
-- Which file models what:
--   Limiter: gpu_watch/security.py, SlidingWindowRateLimiter (prune, sweep, allow, check, record_hit);
--   Limiter/Spec is its contract for one key.
--   Collection: gpu_watch/collection.py, retry_reason, and gpu_watch/health.py, the cause of
--   observation_event_details.
--   Text: clean_text of server.py (and _text of gpu_watch/processes.py), with Python's strip, lower,
--   split and substring test.
--   Intervals: merge_intervals and merged_interval_seconds of server.py.
--   Processes: the attribution of GPU time to users in server.py (same_process_cohort,
--   attributable_process_users, carry_verified_process_owners, add_user_seconds).
--   Store/Timeline: what the two interval tables have in common; Store/Usage and Store/Capacity:
--   _record_busy_interval and _record_capacity_interval; Store/Users: normalize_user_text.
--   Store/Host: _mark_host, the host rows and their events.
--   Store/Gpu: the row of a GPU and what an observation makes of it, in _update_gpu.
--   Store/Recorder: all the tables, and _update_gpu on them; Store/Recorder/Payload:
--   apply_host_payload, _reconcile_host_gpus and _update_disk.
--   Quota: gpu_watch/api_quota.py, ApiQuota, without its file.
--   Board: the announcements of server.py; Board/Content: the checks of a request, Board/Notices: the
--   table and both transactions of each operation, Board/Listing: what readers see.
--   Json: the values of json.loads, and int, float, str, bool and get of them. Redaction:
--   redact_sensitive_text of gpu_watch/security.py and safe_probe_error of server.py.
--   Snapshots: gpu_watch/processes.py, what is kept of a probe's processes (Snapshots/Process), GPUs
--   (Snapshots/Gpu) and disks (Snapshots/Disk).
--   Collector: the class Collector of server.py: sanitize_gpu_errors (Collector/ErrorMap), the readings
--   of handle_payload (Collector/Readings), and handle_payload and consume_gpu_result
--   (Collector/Handling), which end in apply_host_payload of the store; Collector/Tick:
--   the GPU probes of collect_tick.
--   Passphrase: gpu_watch/auth.py, the format of a stored hash and its checks.
--   Guards: the checks of a request in gpu_watch/security.py (addresses, host, origin, proxy);
--   Guards/Requests: the guards of server.py's Handler, over Limiter and Passphrase.
--   Prelude: tests, lists, and Python's dict with text keys. Tests: runs and examples.
--
-- Conventions. Times are whole milliseconds on one clock, and a test with a tolerance in seconds is
-- written in milliseconds; floating-point rounding is not modelled. A division of an interval among
-- users is rounded down to a millisecond. A SQLite table is the list of its rows in the order of their
-- insertion, or a dictionary by its primary key; JSON columns hold the value that was written.
-- Locks and transactions make each operation atomic, so concurrent calls are a sequence of calls.
-- Text comparisons that the code makes on lowered texts read ASCII letters only, but for the keys of
-- labels, which are lowered in full.
-- Python's int, float and str on values, and its library re on the patterns of the sources, are
-- parameters; a float is the text that repr gives it.
-- All loops are recursions on lists, so no fuel is needed.
--
-- Not modelled: subprocesses, sockets, SSH, threads and signals; the probe script that runs on a host;
-- the SQL of migrations, snapshots and maintenance; static files.
pub mod Prelude
pub mod Intervals
pub mod Limiter
pub mod Text
pub mod Processes
pub mod Collection
pub mod Store
pub mod Quota
pub mod Board
pub mod Json
pub mod Redaction
pub mod Snapshots
pub mod Collector
pub mod Passphrase
pub mod Guards
mod Tests
