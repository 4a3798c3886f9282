-- ===== src/Store/Capacity/Laws.antt =====
-- A capacity interval keeps its reading to within a step of 16 MiB, and is recorded once.
use gpu_watch.Prelude.{
  ℕ, ◌+◌, ◌≤◌, ◌<◌, ◌≡◌, refl, Bool, true, false, ◌⊎◌, Option, none, some, String, leb, arith, min,
  ◌%◌,
}
use gpu_watch.Store.Timeline.{latest, IsValid, EndedBy}
use gpu_watch.Store.Timeline.Record.{Records, recorded_from, extend_or_insert-Records}
use gpu_watch.Store.Capacity.{
  Sample, CapacityTable, round_sixteenth, quantize, stored_used, same_number, same_bool,
  same_sample, record_capacity_interval,
}

same_number_sound : (a b : Option ℕ) → same_number a b ≡ true → a ≡ b
same_number_sound none none h = refl
same_number_sound none (some b) h = cc
same_number_sound (some a) none h = cc
same_number_sound (some a) (some b) h = ground arith

pub same_bool_sound : (a b : Bool) → same_bool a b ≡ true → a ≡ b
same_bool_sound true true h = refl
same_bool_sound true false h = cc
same_bool_sound false true h = cc
same_bool_sound false false h = refl

same_sample_sound : (a b : Sample) → same_sample a b ≡ true → a ≡ b
same_sample_sound a b h =
    let busy = same_bool_sound a.busy b.busy (ground arith) in
    let used = same_number_sound a.memory_used_mib b.memory_used_mib (ground arith) in
    let total = same_number_sound a.memory_total_mib b.memory_total_mib (ground arith) in
    λ i. record { busy = busy i; memory_used_mib = used i; memory_total_mib = total i }

-- Both ways of rounding half way end on a multiple of 32 MiB.
pub quantize_lem :
    (used : ℕ)
    → (quantize used % 16 ≡ 0)
      × (quantize used ≤ used + 8)
      × (used ≤ quantize used + 8)
      × (used % 16 ≡ 8 → quantize used % 32 ≡ 0)
unfolding quantize round_sixteenth
quantize_lem used = ground arith

-- The sample that is stored for a reading.
abbrev pub sample_of : Bool → Option ℕ → Option ℕ → Sample
sample_of busy used total = record {
  busy = busy;
  memory_used_mib = stored_used used total;
  memory_total_mib = total;
}

-- A capacity interval that starts after everything recorded for its GPU is recorded with its busy
-- flag, total and rounded usage, from its start (or the end of the row that it extends, at most a
-- second before) to its end, and the table stays valid.
pub record_capacity_interval-Records :
    (host : String) (gpu_index start_ts end_ts : ℕ) (busy : Bool) (used total : Option ℕ)
    (table : CapacityTable)
    → start_ts < end_ts
    → IsValid table
    → EndedBy host gpu_index start_ts table.rows
    → Records host gpu_index start_ts end_ts
        (recorded_from same_sample start_ts
          (sample_of busy used total)
          (latest host gpu_index table.rows))
        (sample_of busy used total)
        table
        (record_capacity_interval host gpu_index start_ts end_ts busy used total table)
unfolding record_capacity_interval
record_capacity_interval-Records host gpu_index start_ts end_ts busy used total table h v l =
    let proper : leb end_ts start_ts ≡ false = ground arith in
    rw proper (
      extend_or_insert-Records same_sample host gpu_index start_ts end_ts
        (sample_of busy used total) table
        (λ p m e. same_sample_sound p.tag (sample_of busy used total) e) v l h)

-- What is stored for a known reading is at most the known total, and within 8 MiB of the reading
-- unless the total cuts it off.
pub stored_used_bounds :
    (used total : ℕ)
    → (stored : ℕ) × (stored_used (some used) (some total) ≡ some stored)
      × (stored ≤ total)
      × (stored ≤ used + 8)
      × ((used ≤ stored + 8) ⊎ (stored ≡ total))
unfolding stored_used
stored_used_bounds used total =
    let (step, low, high, even) = quantize_lem used in
    (min (quantize used) total, refl, omega arith, omega arith, omega arith)
