-- ===== src/Store/Recorder/Publishing.antt =====
-- Which payloads are published, and what stays as it is when a GPU of the host is unavailable.
use gpu_watch.Prelude.{
  ℕ, Bool, true, false, not, ◌&&◌, ◌||◌, Option, none, some, List, [], ◌∷◌, ◌++◌, String, str_eq,
  if◌then◌else◌, map, arith, ◌≡◌, refl, ◌∙◌, ap,
}
use gpu_watch.Prelude.Dict.{lookup, lookup-insert_self}
use gpu_watch.Store.Host.{HostRow, mark_host, next_failures, next_row}
use gpu_watch.Store.Gpu.{Gpu}
use gpu_watch.Store.Recorder.{Recorder}
use gpu_watch.Store.Recorder.Payload.{
  HostPayload, duplicate_gpu, rejected, accepted, has_index, meet, prepare, index_of, error_index,
  is_partial, mark, publish, finish, apply_host_payload, check_inventory, apply_prepared, add_gpu,
}
use gpu_watch.Store.Recorder.Inventory.{is_active, publish-active}

-- The readings of a payload in which every GPU is valid.
unfoldable pub given : List (Gpu × Bool) → List (Option Gpu × Bool)
given [] = []
given ((gpu, busy) ∷ rest) = (some gpu, busy) ∷ given rest

unfoldable pub no_repeats : List ℕ → Bool
no_repeats [] = true
no_repeats (i ∷ is) = not (has_index i is) && no_repeats is

pub meet-cons : (is js : List ℕ) (j : ℕ) → meet is (j ∷ js) ≡ (has_index j is || meet is js)
unfolding meet has_index
meet-cons [] js j = refl
meet-cons (i ∷ is) js j = ground (arith, meet-cons is js j)

prepare-given :
    (observed : List ℕ) (gpus : List (Gpu × Bool))
    → prepare observed (given gpus) ≡ (
        if no_repeats (map index_of gpus) && not (meet (map index_of gpus) observed)
        then accepted gpus
        else rejected duplicate_gpu)
unfolding prepare given no_repeats meet
prepare-given observed [] = refl
prepare-given observed ((gpu, busy) ∷ rest) =
    rw (prepare-given (gpu.index ∷ observed) rest, meet-cons (map index_of rest) observed gpu.index)
      (go (has_index gpu.index observed) (has_index gpu.index (map index_of rest))
        (no_repeats (map index_of rest)) (meet (map index_of rest) observed))
  where
    go :
        (seen again distinct met : Bool)
        → (if seen
            then rejected duplicate_gpu
            else add_gpu gpu busy
                (if distinct && not (again || met) then accepted rest else rejected duplicate_gpu))
          ≡ (if (not again && distinct) && not (seen || met)
              then accepted ((gpu, busy) ∷ rest)
              else rejected duplicate_gpu)
    go seen again distinct met = ground arith

meet-empty : (is : List ℕ) → meet is [] ≡ false
unfolding meet has_index
meet-empty [] = refl
meet-empty (i ∷ is) = meet-empty is

prepare_all :
    (states : List (Option Gpu × Bool)) (gpus : List (Gpu × Bool))
    → states ≡ given gpus
    → prepare [] states
      ≡ (if no_repeats (map index_of gpus) then accepted gpus else rejected duplicate_gpu)
prepare_all states gpus given_all =
    ap (prepare []) given_all
    ∙ (prepare-given [] gpus ∙ rw (meet-empty (map index_of gpus)) (ground arith))

-- What follows once the readings and the errors are known.
apply_known :
    (payload : HostPayload) (gpus : List (Gpu × Bool)) (errors : List (ℕ × String))
    (state : Recorder)
    → payload.gpu_states ≡ given gpus
    → no_repeats (map index_of gpus) ≡ true
    → payload.gpu_errors ≡ some errors
    → meet (map index_of gpus) (map error_index errors) ≡ false
    → is_partial payload.expected (map index_of gpus ++ map error_index errors) ≡ false
    → apply_host_payload payload state ≡ finish payload gpus errors state
unfolding apply_host_payload apply_prepared check_inventory
apply_known payload gpus errors state given_all distinct e apart whole =
    let prepared : prepare [] payload.gpu_states ≡ accepted gpus =
      prepare_all payload.gpu_states gpus given_all ∙ rw distinct refl in
    ap (λ prepared. apply_prepared payload prepared state) prepared
    ∙ (ap (λ errors. check_inventory payload gpus errors state) e ∙ rw (apart, whole) refl)

-- A payload whose readings are all valid and of different GPUs, are not empty, and are those that are
-- expected, with no GPU in error, is published: then the active GPUs of its host are exactly those
-- read, and those of other hosts are as before.
pub apply_host_payload-publishes :
    (payload : HostPayload) (gpu : Gpu × Bool) (gpus : List (Gpu × Bool)) (state : Recorder)
    → payload.gpu_states ≡ given (gpu ∷ gpus)
    → no_repeats (map index_of (gpu ∷ gpus)) ≡ true
    → payload.gpu_errors ≡ some []
    → is_partial payload.expected (map index_of (gpu ∷ gpus) ++ []) ≡ false
    → (result : Recorder) × (apply_host_payload payload state ≡ accepted result)
      × ((host : String) (gpu_index : ℕ)
          → is_active host gpu_index result.gpus ≡ (
              if str_eq payload.host host
              then has_index gpu_index (map index_of (gpu ∷ gpus))
              else is_active host gpu_index state.gpus))
unfolding apply_host_payload apply_prepared check_inventory finish
apply_host_payload-publishes payload gpu gpus state given_all distinct no_errors whole = (
  publish payload (gpu ∷ gpus) state,
  apply_known payload (gpu ∷ gpus) [] state given_all distinct no_errors
      (meet-empty (map index_of (gpu ∷ gpus))) whole,
  publish-active payload (gpu ∷ gpus) state,
)

-- Two readings of one GPU reject the payload.
pub apply_host_payload-duplicate :
    (payload : HostPayload) (gpus : List (Gpu × Bool)) (state : Recorder)
    → payload.gpu_states ≡ given gpus
    → no_repeats (map index_of gpus) ≡ false
    → apply_host_payload payload state ≡ rejected duplicate_gpu
unfolding apply_host_payload apply_prepared
apply_host_payload-duplicate payload gpus state given_all repeated =
    let refused : prepare [] payload.gpu_states ≡ rejected duplicate_gpu =
      prepare_all payload.gpu_states gpus given_all ∙ rw repeated refl in
    ap (λ prepared. apply_prepared payload prepared state) refused

-- A payload with a GPU in error, none of which was also read, changes no GPU, no interval and no disk:
-- it takes its host off line, with one more failure.
pub apply_host_payload-unavailable :
    (payload : HostPayload) (gpus : List (Gpu × Bool)) (index : ℕ) (error : String)
    (errors : List (ℕ × String)) (state : Recorder)
    → payload.gpu_states ≡ given gpus
    → no_repeats (map index_of gpus) ≡ true
    → payload.gpu_errors ≡ some ((index, error) ∷ errors)
    → meet (map index_of gpus) (index ∷ map error_index errors) ≡ false
    → is_partial payload.expected (map index_of gpus ++ index ∷ map error_index errors) ≡ false
    → (result : Recorder) × (apply_host_payload payload state ≡ accepted result)
      × (result.gpus ≡ state.gpus)
      × (result.usage ≡ state.usage)
      × (result.capacity ≡ state.capacity)
      × (result.disks ≡ state.disks)
      × ((row : HostRow) × (lookup payload.host result.hosts ≡ some row)
          × (row.online ≡ false)
          × (row.consecutive_failures ≡ next_failures (lookup payload.host state.hosts) false))
unfolding apply_host_payload apply_prepared check_inventory finish mark mark_host next_row
apply_host_payload-unavailable payload gpus index error errors state given_all distinct e apart
      whole =
    (
      mark payload.host payload.label false payload.ts none none (some error) state,
      apply_known payload gpus ((index, error) ∷ errors) state given_all distinct e apart whole,
      refl,
      refl,
      refl,
      refl,
      (_, lookup-insert_self payload.host _ state.hosts, refl, refl),
    )
