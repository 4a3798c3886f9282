-- ===== src/Snapshots/Gpu.antt =====
-- gpu_watch/processes.py, _bounded_int and sanitize_gpu_snapshot. Every minimum is 0 but that of the
-- temperature, which the recorder does not read and which is left out.
use gpu_watch.Prelude.{ℕ, Option, none, some, String, leb, str_eq, if◌then◌else◌}
use gpu_watch.Prelude.Signed.{pos, negsuc}
use gpu_watch.Json.{
  Json, null, bool, int, float, str, array, object, Fields, Number, finite, infinite, Python, get,
  number_of,
}
use gpu_watch.Redaction.{Regex}
use gpu_watch.Store.Gpu.{Gpu}
use gpu_watch.Snapshots.Process.{gpu_numeric_limit, bounded_text, sanitize_processes}

-- `result if minimum <= result <= maximum else None`, for a minimum of 0
unfoldable pub bounded : Option Number → ℕ → Option ℕ
bounded none maximum = none
bounded (some infinite) maximum = none
bounded (some (finite (negsuc n))) maximum = none
bounded (some (finite (pos n))) maximum = if leb n maximum then some n else none

module _ (py : Python) where
  unfoldable pub bounded_int : Json → ℕ → Option ℕ
  unfolding bounded number_of
  bounded_int (bool b) maximum = none
  bounded_int null maximum = bounded (number_of py null) maximum
  bounded_int (int z) maximum = bounded (number_of py (int z)) maximum
  bounded_int (float s) maximum = bounded (number_of py (float s)) maximum
  bounded_int (str s) maximum = bounded (number_of py (str s)) maximum
  bounded_int (array values) maximum = bounded (number_of py (array values)) maximum
  bounded_int (object fields) maximum = bounded (number_of py (object fields)) maximum

  -- `_bounded_int(fields.get(key), minimum=0, maximum=maximum)`
  unfoldable pub bounded_field : String → Fields → ℕ → Option ℕ
  unfolding bounded_int get
  bounded_field key fields maximum = bounded_int (get key fields) maximum

-- `name or "GPU"`
abbrev pub name_or_gpu : String → String
name_or_gpu name = if str_eq name "" then "GPU" else name

module _ (py : Python) (re : Regex) where
  unfoldable pub gpu_with_index : Fields → Option ℕ → Option Gpu
  unfolding bounded_text bounded_field sanitize_processes get
  gpu_with_index gpu none = none
  gpu_with_index gpu (some index) = some record {
    index = index;
    name = name_or_gpu (bounded_text py re (get "name" gpu) 256);
    uuid = bounded_text py re (get "uuid" gpu) 128;
    utilization = bounded_field py "utilization" gpu 100;
    memory_used = bounded_field py "memory_used" gpu gpu_numeric_limit;
    memory_total = bounded_field py "memory_total" gpu gpu_numeric_limit;
    processes = sanitize_processes py re (get "processes" gpu) 128;
  }

  unfoldable pub sanitize_gpu_snapshot : Json → Option Gpu
  unfolding gpu_with_index bounded_field
  sanitize_gpu_snapshot (object gpu) = gpu_with_index gpu (bounded_field py "index" gpu 1024)
  sanitize_gpu_snapshot _ = none
