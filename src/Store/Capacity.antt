-- ===== src/Store/Capacity.antt =====
-- server.py, Store._record_capacity_interval: the table gpu_capacity_interval. Memory readings are
-- whole MiB, as sanitize_gpu_snapshot leaves them.
pub mod Laws
use gpu_watch.Prelude.{
  ℕ, ◌+◌, ◌*◌, ◌/◌, ◌%◌, Bool, true, false, ◌&&◌, Option, none, some, String, leb, ltb, ◌==◌,
  if◌then◌else◌, min,
}
use gpu_watch.Store.Timeline.{Table, extend_or_insert}

pub record Sample : Type 0 where
  pub busy : Bool
  pub memory_used_mib : Option ℕ
  pub memory_total_mib : Option ℕ

abbrev pub CapacityTable : Type 0
CapacityTable = Table Sample

-- `round(used / 16.0)`: to the nearest whole number, and to the even one from half way
unfoldable pub round_sixteenth : ℕ → ℕ
round_sixteenth used =
    let quotient = used / 16 in
    let rest = used % 16 in
    if ltb rest 8
    then quotient
    else if ltb 8 rest
    then quotient + 1
    else if quotient % 2 == 0
    then quotient
    else quotient + 1

-- Usage is stored in steps of 16 MiB.
unfoldable pub quantize : ℕ → ℕ
unfolding round_sixteenth
quantize used = round_sixteenth used * 16

-- `min(used_mib, total_mib)` where both are known
unfoldable pub stored_used : Option ℕ → Option ℕ → Option ℕ
unfolding quantize
stored_used none total = none
stored_used (some used) none = some (quantize used)
stored_used (some used) (some total) = some (min (quantize used) total)

abbrev pub same_number : Option ℕ → Option ℕ → Bool
same_number none none = true
same_number none (some b) = false
same_number (some a) none = false
same_number (some a) (some b) = a == b

abbrev pub same_bool : Bool → Bool → Bool
same_bool true b = b
same_bool false true = false
same_bool false false = true

abbrev pub same_sample : Sample → Sample → Bool
same_sample a b =
    same_bool a.busy b.busy
    && (same_number a.memory_used_mib b.memory_used_mib
        && same_number a.memory_total_mib b.memory_total_mib)

unfoldable pub record_capacity_interval :
    String → ℕ → ℕ → ℕ → Bool → Option ℕ → Option ℕ → CapacityTable → CapacityTable
unfolding stored_used
record_capacity_interval host gpu_index start_ts end_ts busy used total table =
    let sample : Sample = record {
      busy = busy;
      memory_used_mib = stored_used used total;
      memory_total_mib = total;
    } in
    if leb end_ts start_ts
    then table
    else extend_or_insert same_sample host gpu_index start_ts end_ts sample table
