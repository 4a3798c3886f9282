-- ===== src/Collector/Passing.antt =====
-- The store accepts every reading that the collector has checked, and what it publishes then.
use gpu_watch.Prelude.{
  ℕ, ◌≤◌, Bool, true, false, Option, some, List, [], ◌∷◌, ◌++◌, String, ◌≡◌, refl, sym, ap, ◌∙◌,
  arith, ltb, le→leb, str_eq, if◌then◌else◌, All, map,
}
use mathlib.Core.List.{append-nil}
use gpu_watch.Prelude.Signed.{pos}
use gpu_watch.Json.{Fields, Python, finite}
use gpu_watch.Redaction.{Regex}
use gpu_watch.Processes.{is_empty}
use gpu_watch.Store.Gpu.{Gpu}
use gpu_watch.Store.Recorder.{Recorder}
use gpu_watch.Store.Recorder.Payload.{accepted, has_index, index_of, is_partial, apply_host_payload}
use gpu_watch.Store.Recorder.Inventory.{is_active}
use gpu_watch.Store.Recorder.Publishing.{given, no_repeats, apply_host_payload-publishes}
use gpu_watch.Snapshots.Process.{gpu_numeric_limit}
use gpu_watch.Snapshots.Gpu.{bounded, gpu_with_index, sanitize_gpu_snapshot}
use gpu_watch.Collector.Readings.{own_index, range, is_busy, gpu_fields, gpu_json, resanitized}
use gpu_watch.Collector.Inventory.{IsUsable, IsExpected, same_indices-has_index, has_index-range}
use gpu_watch.Collector.Handling.{HostConfig, Config, Tools, host_payload}

-- `float` keeps the numbers of the range exactly.
abbrev pub IsExact : Python → Type 0
IsExact py = (n : ℕ) → n ≤ gpu_numeric_limit → py.float_of (pos n) ≡ some (finite (pos n))

module _ (py : Python) (re : Regex) (exact : IsExact py) where
  gpu_with_index-some :
      (fields : Fields) (i : ℕ)
      → (kept : Gpu) × (gpu_with_index py re fields (some i) ≡ some kept) × (kept.index ≡ i)
  unfolding gpu_with_index
  gpu_with_index-some fields i = (_, refl, refl)

  bounded_index : (n : ℕ) → n ≤ 1024 → bounded (py.float_of (pos n)) 1024 ≡ some n
  unfolding bounded
  bounded_index n h =
      let whole : py.float_of (pos n) ≡ some (finite (pos n)) = exact n (omega arith) in
      rw (whole, le→leb n 1024 h) refl

  -- A sanitised reading is kept if it is sanitised again, under its index.
  sanitized_again :
      (gpu : Gpu)
      → gpu.index ≤ 1024
      → (kept : Gpu) × (sanitize_gpu_snapshot py re (gpu_json gpu) ≡ some kept)
        × (kept.index ≡ gpu.index)
  unfolding sanitize_gpu_snapshot gpu_json gpu_fields
  sanitized_again gpu h =
      rw (bounded_index gpu.index h) (gpu_with_index-some (gpu_fields gpu) gpu.index)

  resanitized-given :
      (memory_threshold utilization_threshold : ℕ) (gpus : List Gpu)
      → All IsUsable gpus
      → (kept : List (Gpu × Bool)) × (resanitized py re memory_threshold utilization_threshold gpus
          ≡ given kept)
        × (map index_of kept ≡ map own_index gpus)
  unfolding resanitized given
  resanitized-given memory_threshold utilization_threshold [] h = ([], refl, refl)
  resanitized-given memory_threshold utilization_threshold (gpu ∷ gpus) h =
      let (kept, same, named) = sanitized_again gpu (h.0).in_range.index-le in
      let (others, rest, indices) =
        resanitized-given memory_threshold utilization_threshold gpus h.1 in
      ((kept, is_busy memory_threshold utilization_threshold gpu) ∷ others, cc, cc)

index_facts :
    (expected : ℕ) (gpus : List Gpu) (kept : List (Gpu × Bool))
    → map index_of kept ≡ map own_index gpus
    → IsExpected expected gpus
    → is_partial (some (range expected)) (map index_of kept ++ []) ≡ false
index_facts expected gpus kept named whole =
    rw (append-nil (map index_of kept), named) (ground (arith, whole.whole))

not_empty_cons :
    (gpus : List Gpu) (kept : List (Gpu × Bool))
    → map index_of kept ≡ map own_index gpus
    → is_empty gpus ≡ false
    → (first : Gpu × Bool) × (others : List (Gpu × Bool)) × (kept ≡ first ∷ others)
not_empty_cons [] kept named h = cc
not_empty_cons (gpu ∷ gpus) [] named h = cc
not_empty_cons (gpu ∷ gpus) (first ∷ others) named h = (first, others, refl)

-- What a published observation leaves: the active GPUs of the host are those below the expected count,
-- and those of other hosts are as they were.
abbrev pub Published : String → ℕ → Recorder → Recorder → Type 0
Published host expected before after =
    (host' : String) (gpu_index : ℕ)
    → is_active host' gpu_index after.gpus ≡ (
        if str_eq host host' then ltb gpu_index expected else is_active host' gpu_index before.gpus)

module _ (tools : Tools) (exact : IsExact tools.python) (config : Config) (host : HostConfig) where
  pub apply-accepted :
      (payload : Fields) (expected : ℕ) (disk : Option String) (gpus : List Gpu) (ts : ℕ)
      (store : Recorder)
      → All IsUsable gpus
      → no_repeats (map own_index gpus) ≡ true
      → IsExpected expected gpus
      → (after : Recorder) × (apply_host_payload
            (host_payload tools config host payload expected disk gpus ts)
            store
          ≡ accepted after)
        × Published host.name expected store after
  unfolding host_payload
  apply-accepted payload expected disk gpus ts store usable distinct whole =
      let (kept, same, named) =
        resanitized-given tools.python tools.regex exact config.busy_memory_threshold
          config.busy_utilization_threshold gpus usable in
      let (first, others, cons) = not_empty_cons gpus kept named whole.not_empty in
      let named' : map index_of (first ∷ others) ≡ map own_index gpus =
        ap (map index_of) (sym cons) ∙ named in
      let (after, taken, active) =
        apply_host_payload-publishes (host_payload tools config host payload expected disk gpus ts)
          first others store (same ∙ ap given cons) (rw named' distinct) refl
          (index_facts expected gpus (first ∷ others) named' whole) in
      (
        after,
        taken,
        λ host' gpu_index.
            active host' gpu_index
            ∙ ap
                (λ (now : Bool).
                  if str_eq host.name host' then now else is_active host' gpu_index store.gpus)
                (ap (has_index gpu_index) named'
                  ∙ same_indices-has_index (map own_index gpus) (range expected) gpu_index
                      whole.whole
                  ∙ has_index-range expected gpu_index),
      )
