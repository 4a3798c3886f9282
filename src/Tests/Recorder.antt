-- ===== src/Tests/Recorder.antt =====
-- Payloads of a host with two GPUs, published one after another.
use gpu_watch.Prelude.{
  ℕ, ◌++◌, Bool, true, false, none, some, String, str_eq, ◌≡◌, refl, List, [], ◌∷◌, map, arith,
  if◌then◌else◌,
}
use gpu_watch.Prelude.Dict.{lookup}
use gpu_watch.Store.Host.{HostRow, next_failures}
use gpu_watch.Store.Gpu.{Gpu, first_row}
use gpu_watch.Store.Recorder.{Recorder}
use gpu_watch.Store.Recorder.Payload.{
  HostPayload, accepted, has_index, meet, index_of, is_partial, all_in, apply_host_payload,
}
use gpu_watch.Store.Recorder.Inventory.{is_active}
use gpu_watch.Store.Host.History.{Mark}
use gpu_watch.Store.Recorder.Sound.{IsSound}
use gpu_watch.Store.Recorder.Runs.{Step, payload_step, mark_step, run_steps, run_steps-IsSound}
use gpu_watch.Store.Recorder.Publishing.{
  given, no_repeats, apply_host_payload-publishes, apply_host_payload-unavailable,
}

abbrev reading : ℕ → Gpu × Bool
reading index = (
  record {
    index = index;
    name = "GPU";
    uuid = "";
    utilization = some 0;
    memory_used = some 10;
    memory_total = some 24576;
    processes = [];
  },
  false,
)

abbrev payload : List (Gpu × Bool) → List (ℕ × String) → List ℕ → HostPayload
payload gpus errors expected = record {
  host = "gpu01";
  label = "GPU 01";
  gpu_states = given gpus;
  hostname = none;
  driver_version = none;
  disk = some "{}";
  max_gap = some 60000;
  expected = some expected;
  gpu_errors = some errors;
  ts = 50000;
}

abbrev empty : Recorder
empty = record {
  hosts = [];
  gpus = first_row "gpu01" (reading 7).0 false 1000 ∷ [];
  usage = record { rows = []; next_id = 1 };
  capacity = record { rows = []; next_id = 1 };
  disks = [];
  events = [];
}

abbrev both : List (Gpu × Bool)
both = reading 0 ∷ reading 1 ∷ []

distinct : no_repeats (map index_of both) ≡ true
unfolding no_repeats has_index
distinct = refl

repeated : no_repeats (map index_of (reading 0 ∷ reading 0 ∷ [])) ≡ false
unfolding no_repeats has_index
repeated = refl

single : no_repeats (0 ∷ []) ≡ true
unfolding no_repeats has_index
single = refl

whole : is_partial (some (0 ∷ 1 ∷ [])) (map index_of both ++ []) ≡ false
unfolding all_in
whole = refl

whole_with_error : is_partial (some (0 ∷ 1 ∷ [])) (0 ∷ 1 ∷ []) ≡ false
unfolding all_in
whole_with_error = refl

apart : meet (0 ∷ []) (1 ∷ []) ≡ false
unfolding meet has_index
apart = refl

apply_host_payload-publishes_example :
    (result : Recorder) × (apply_host_payload (payload both [] (0 ∷ 1 ∷ [])) empty
      ≡ accepted result)
    × ((host : String) (gpu_index : ℕ)
        → is_active host gpu_index result.gpus ≡ (
            if str_eq "gpu01" host
            then has_index gpu_index (0 ∷ 1 ∷ [])
            else is_active host gpu_index empty.gpus))
apply_host_payload-publishes_example =
    apply_host_payload-publishes (payload both [] (0 ∷ 1 ∷ [])) (reading 0) (reading 1 ∷ []) empty
      refl distinct refl whole

apply_host_payload-unavailable_example :
    (result : Recorder) × (apply_host_payload
        (payload (reading 0 ∷ []) ((1, "lost") ∷ []) (0 ∷ 1 ∷ []))
        empty
      ≡ accepted result)
    × (result.gpus ≡ empty.gpus)
    × (result.usage ≡ empty.usage)
    × (result.capacity ≡ empty.capacity)
    × (result.disks ≡ empty.disks)
    × ((row : HostRow) × (lookup "gpu01" result.hosts ≡ some row)
        × (row.online ≡ false)
        × (row.consecutive_failures ≡ next_failures (lookup "gpu01" empty.hosts) false))
apply_host_payload-unavailable_example =
    apply_host_payload-unavailable (payload (reading 0 ∷ []) ((1, "lost") ∷ []) (0 ∷ 1 ∷ []))
      (reading 0 ∷ []) 1 "lost" [] empty refl single refl apart whole_with_error

abbrev fresh : Recorder
fresh = record {
  hosts = [];
  gpus = [];
  usage = record { rows = []; next_id = 1 };
  capacity = record { rows = []; next_id = 1 };
  disks = [];
  events = [];
}

fresh-IsSound : IsSound fresh 0
fresh-IsSound = record {
  usage = record { chain = tt; fresh = tt };
  stored = tt;
  capacity = record { chain = tt; fresh = tt };
  usage_ended = tt;
  capacity_ended = tt;
  tracked = tt;
}

abbrev lost : Mark
lost = record {
  host = "gpu01";
  label = "GPU 01";
  online = false;
  ts = 60000;
  hostname = none;
  driver_version = none;
  error = some "timeout";
}

abbrev steps : List Step
steps =
    payload_step (payload both [] (0 ∷ 1 ∷ []))
    ∷ payload_step (payload both [] (0 ∷ 1 ∷ []))
    ∷ mark_step lost
    ∷ []

run_steps-IsSound_example : IsSound (run_steps steps fresh) 60000
run_steps-IsSound_example =
    run_steps-IsSound steps 0 fresh (omega arith, (omega arith, (omega arith, tt))) fresh-IsSound
