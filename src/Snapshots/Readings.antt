-- ===== src/Snapshots/Readings.antt =====
-- A GPU that is kept has all its values in their ranges.
use gpu_watch.Prelude.{
  ℕ, ◌≤◌, false, Option, none, some, String, ◌≡◌, refl, inl, inr, arith, Bool-cases, str_eq, leb,
  leb→le, length, All,
}
use gpu_watch.Prelude.Signed.{pos, negsuc}
use gpu_watch.Text.{size}
use gpu_watch.Json.{
  Json, null, bool, int, float, str, array, object, Fields, Number, finite, infinite, Python, get,
  number_of,
}
use gpu_watch.Redaction.{Regex}
use gpu_watch.Store.Gpu.{Gpu}
use gpu_watch.Snapshots.Process.{gpu_numeric_limit, bounded_text}
use gpu_watch.Snapshots.Gpu.{
  bounded, bounded_int, bounded_field, name_or_gpu, gpu_with_index, sanitize_gpu_snapshot,
}
use gpu_watch.Snapshots.Bounds.{Each, IsSafe, size-bounded_text, sanitize_processes-IsSafe}

pub record IsInRange (gpu : Gpu) : Type 0 where
  pub index-le : gpu.index ≤ 1024
  pub named : str_eq gpu.name "" ≡ false
  pub name_size : size gpu.name ≤ 256
  pub uuid_size : size gpu.uuid ≤ 128
  pub utilization-le : Each (λ n. n ≤ 100) gpu.utilization
  pub used-le : Each (λ n. n ≤ gpu_numeric_limit) gpu.memory_used
  pub total-le : Each (λ n. n ≤ gpu_numeric_limit) gpu.memory_total
  pub processes_safe : All IsSafe gpu.processes
  pub processes-le : length gpu.processes ≤ 128

bounded-le : (n : Option Number) (maximum : ℕ) → Each (λ m. m ≤ maximum) (bounded n maximum)
unfolding bounded
bounded-le none maximum = tt
bounded-le (some infinite) maximum = tt
bounded-le (some (finite (negsuc n))) maximum = tt
bounded-le (some (finite (pos n))) maximum = elim (Bool-cases (leb n maximum)) [
  | inl e ↦ rw e (leb→le n maximum e)
  | inr e ↦ rw e tt
]

pub bounded_int-le :
    (py : Python) (value : Json) (maximum : ℕ)
    → Each (λ n. n ≤ maximum) (bounded_int py value maximum)
unfolding bounded_int
bounded_int-le py (bool b) maximum = tt
bounded_int-le py null maximum = bounded-le (number_of py null) maximum
bounded_int-le py (int z) maximum = bounded-le (number_of py (int z)) maximum
bounded_int-le py (float s) maximum = bounded-le (number_of py (float s)) maximum
bounded_int-le py (str s) maximum = bounded-le (number_of py (str s)) maximum
bounded_int-le py (array values) maximum = bounded-le (number_of py (array values)) maximum
bounded_int-le py (object fields) maximum = bounded-le (number_of py (object fields)) maximum

pub bounded_field-le :
    (py : Python) (key : String) (fields : Fields) (maximum : ℕ)
    → Each (λ n. n ≤ maximum) (bounded_field py key fields maximum)
unfolding bounded_field
bounded_field-le py key fields maximum = bounded_int-le py (get key fields) maximum

name_or_gpu_lem :
    (name : String)
    → size name ≤ 256
    → (str_eq (name_or_gpu name) "" ≡ false) × (size (name_or_gpu name) ≤ 256)
unfolding size
name_or_gpu_lem name short = elim (Bool-cases (str_eq name "")) [
  | inl e ↦ rw e (refl, omega arith)
  | inr e ↦ rw e (e, short)
]

gpu_with_index-IsInRange :
    (py : Python) (re : Regex) (gpu : Fields) (index : Option ℕ)
    → Each (λ n. n ≤ 1024) index
    → Each IsInRange (gpu_with_index py re gpu index)
unfolding gpu_with_index
gpu_with_index-IsInRange py re gpu none h = tt
gpu_with_index-IsInRange py re gpu (some index) h =
    let named =
      name_or_gpu_lem (bounded_text py re (get "name" gpu) 256)
        (size-bounded_text py re (get "name" gpu) 256) in
    let processes = sanitize_processes-IsSafe py re (get "processes" gpu) 128 in
    record {
      index-le = h;
      named = named.0;
      name_size = named.1;
      uuid_size = size-bounded_text py re (get "uuid" gpu) 128;
      utilization-le = bounded_field-le py "utilization" gpu 100;
      used-le = bounded_field-le py "memory_used" gpu gpu_numeric_limit;
      total-le = bounded_field-le py "memory_total" gpu gpu_numeric_limit;
      processes_safe = processes.0;
      processes-le = processes.1;
    }

-- A GPU that is kept has all its values in their ranges, and at most 128 processes, all safe.
pub sanitize_gpu_snapshot-IsInRange :
    (py : Python) (re : Regex) (gpu : Json) → Each IsInRange (sanitize_gpu_snapshot py re gpu)
unfolding sanitize_gpu_snapshot
sanitize_gpu_snapshot-IsInRange py re (object gpu) =
    gpu_with_index-IsInRange py re gpu (bounded_field py "index" gpu 1024)
      (bounded_field-le py "index" gpu 1024)
sanitize_gpu_snapshot-IsInRange py re null = tt
sanitize_gpu_snapshot-IsInRange py re (bool b) = tt
sanitize_gpu_snapshot-IsInRange py re (int z) = tt
sanitize_gpu_snapshot-IsInRange py re (float s) = tt
sanitize_gpu_snapshot-IsInRange py re (str s) = tt
sanitize_gpu_snapshot-IsInRange py re (array values) = tt
