-- ===== src/Store/Recorder/Payload.antt =====
-- server.py, Store.apply_host_payload, Store._reconcile_host_gpus, Store._update_disk and
-- gpu_is_observed.
--
-- A GPU is `none` if sanitize_gpu_snapshot refuses it, and the map of errors is `none` if
-- sanitize_gpu_errors does. Error texts are redacted, and the disk is the JSON of its snapshot.
use gpu_watch.Prelude.{
  ℕ, Bool, true, false, not, ◌&&◌, ◌||◌, Option, none, some, List, [], ◌∷◌, ◌++◌, String, str_eq,
  ◌==◌, if◌then◌else◌, map,
}
use gpu_watch.Prelude.Dict.{lookup, insert}
use gpu_watch.Store.Host.{HostRow, HostState, mark_host}
use gpu_watch.Store.Gpu.{Gpu, GpuRow}
use gpu_watch.Store.Recorder.{Recorder, update_gpu}

-- The ValueErrors of apply_host_payload.
pub data PayloadError : Type 0 where
  invalid_gpu duplicate_gpu invalid_errors observed_and_unavailable partial_payload empty_payload :
      PayloadError

-- A ValueError leaves the tables as they are.
pub data Outcome (A : Type 0) : Type 0 where
  rejected : PayloadError → Outcome A
  accepted : A → Outcome A

-- `i in indices`
unfoldable pub has_index : ℕ → List ℕ → Bool
has_index i [] = false
has_index i (j ∷ js) = i == j || has_index i js

unfoldable pub all_in : List ℕ → List ℕ → Bool
unfolding has_index
all_in [] js = true
all_in (i ∷ is) js = has_index i js && all_in is js

-- `a == b` on sets
abbrev pub same_indices : List ℕ → List ℕ → Bool
same_indices is js = all_in is js && all_in js is

-- `bool(a & b)`
unfoldable pub meet : List ℕ → List ℕ → Bool
unfolding has_index
meet [] js = false
meet (i ∷ is) js = has_index i js || meet is js

abbrev pub add_gpu : Gpu → Bool → Outcome (List (Gpu × Bool)) → Outcome (List (Gpu × Bool))
add_gpu gpu busy (rejected error) = rejected error
add_gpu gpu busy (accepted rest) = accepted ((gpu, busy) ∷ rest)

-- The loop over gpu_states; `observed` holds the indices seen so far.
unfoldable pub prepare : List ℕ → List (Option Gpu × Bool) → Outcome (List (Gpu × Bool))
unfolding has_index
prepare observed [] = accepted []
prepare observed ((none, busy) ∷ states) = rejected invalid_gpu
prepare observed ((some gpu, busy) ∷ states) =
    let rest = prepare (gpu.index ∷ observed) states in
    if has_index gpu.index observed then rejected duplicate_gpu else add_gpu gpu busy rest

abbrev pub index_of : Gpu × Bool → ℕ
index_of (gpu, busy) = gpu.index

abbrev pub gpu_is_observed : HostRow → Bool
gpu_is_observed row = row.online && row.consecutive_failures == 0

-- `max_observation_gap_seconds if previously_observed else 0`
abbrev pub gap_limit : Option HostRow → Option ℕ → Option ℕ
gap_limit none max_gap = max_gap
gap_limit (some row) max_gap = if gpu_is_observed row then max_gap else some 0

unfoldable pub update_gpus : String → ℕ → Option ℕ → List (Gpu × Bool) → Recorder → Recorder
update_gpus host ts limit [] state = state
update_gpus host ts limit ((gpu, busy) ∷ rest) state =
    update_gpus host ts limit rest (update_gpu host gpu busy ts limit state)

unfoldable pub reconcile_host_gpus : String → List ℕ → List GpuRow → List GpuRow
reconcile_host_gpus host observed [] = []
reconcile_host_gpus host observed (row ∷ rows) =
    (if str_eq row.host host && not (has_index row.gpu_index observed)
      then record row { active = false }
      else row)
    ∷ reconcile_host_gpus host observed rows

unfoldable pub update_disk : String → Option String → ℕ → Recorder → Recorder
update_disk host none ts state = state
update_disk host (some snapshot) ts state = record state {
  disks =
      insert host
        record { updated_ts = ts; snapshot = snapshot; last_attempt_ts = ts; last_error = none }
        state.disks;
}

-- `mark_host` on the recorder's tables
unfoldable pub mark :
    String → String → Bool → ℕ → Option String → Option String → Option String → Recorder → Recorder
mark host label online ts hostname driver_version error state =
    let before : HostState = record { hosts = state.hosts; events = state.events } in
    let after = mark_host host label online ts hostname driver_version error before in
    record state { hosts = after.hosts; events = after.events }

-- The arguments of apply_host_payload, and its time.
pub record HostPayload : Type 0 where
  pub host : String
  pub label : String
  pub gpu_states : List (Option Gpu × Bool)
  pub hostname : Option String
  pub driver_version : Option String
  pub disk : Option String
  pub max_gap : Option ℕ
  pub expected : Option (List ℕ)
  pub gpu_errors : Option (List (ℕ × String))
  pub ts : ℕ

-- The transaction that publishes a complete observation.
unfoldable pub publish : HostPayload → List (Gpu × Bool) → Recorder → Recorder
unfolding update_gpus reconcile_host_gpus update_disk mark
publish payload prepared state =
    let limit = gap_limit (lookup payload.host state.hosts) payload.max_gap in
    let updated = update_gpus payload.host payload.ts limit prepared state in
    let reconciled : Recorder = record updated {
      gpus = reconcile_host_gpus payload.host (map index_of prepared) updated.gpus;
    } in
    mark payload.host payload.label true payload.ts payload.hostname payload.driver_version none
      (update_disk payload.host payload.disk payload.ts reconciled)

abbrev pub is_partial : Option (List ℕ) → List ℕ → Bool
is_partial none inventory = false
is_partial (some expected) inventory = not (same_indices inventory expected)

abbrev pub error_index : ℕ × String → ℕ
error_index (index, error) = index

unfoldable pub finish :
    HostPayload → List (Gpu × Bool) → List (ℕ × String) → Recorder → Outcome Recorder
unfolding publish
finish payload prepared ((index, error) ∷ errors) state =
    accepted (mark payload.host payload.label false payload.ts none none (some error) state)
finish payload [] [] state = rejected empty_payload
finish payload (gpu ∷ gpus) [] state = accepted (publish payload (gpu ∷ gpus) state)

unfoldable pub check_inventory :
    HostPayload → List (Gpu × Bool) → Option (List (ℕ × String)) → Recorder → Outcome Recorder
unfolding finish meet all_in
check_inventory payload prepared none state = rejected invalid_errors
check_inventory payload prepared (some errors) state =
    let observed = map index_of prepared in
    let unavailable = map error_index errors in
    if meet observed unavailable
    then rejected observed_and_unavailable
    else if is_partial payload.expected (observed ++ unavailable)
    then rejected partial_payload
    else finish payload prepared errors state

unfoldable pub apply_prepared :
    HostPayload → Outcome (List (Gpu × Bool)) → Recorder → Outcome Recorder
unfolding check_inventory
apply_prepared payload (rejected error) state = rejected error
apply_prepared payload (accepted prepared) state =
    check_inventory payload prepared payload.gpu_errors state

unfoldable pub apply_host_payload : HostPayload → Recorder → Outcome Recorder
unfolding apply_prepared prepare
apply_host_payload payload state = apply_prepared payload (prepare [] payload.gpu_states) state
