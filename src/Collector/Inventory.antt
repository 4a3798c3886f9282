-- ===== src/Collector/Inventory.antt =====
-- What the checks of handle_payload guarantee of the readings that pass them.
use gpu_watch.Prelude.{
  ℕ, zero, suc, true, false, not, ◌||◌, Option, none, some, List, [], ◌∷◌, ◌++◌, ◌≡◌, ◌≢◌, refl,
  sym, ◌∙◌, inl, inr, arith, Bool-cases, ltb, ◌==◌, All, map,
}
use gpu_watch.Json.{Json, Python}
use gpu_watch.Redaction.{Regex}
use gpu_watch.Processes.{is_empty}
use gpu_watch.Store.Gpu.{Gpu}
use gpu_watch.Store.Recorder.Payload.{PayloadError, has_index, all_in, meet, same_indices}
use gpu_watch.Store.Recorder.Publishing.{no_repeats, meet-cons}
use gpu_watch.Snapshots.Gpu.{sanitize_gpu_snapshot}
use gpu_watch.Snapshots.Bounds.{Each}
use gpu_watch.Snapshots.Readings.{IsInRange, sanitize_gpu_snapshot-IsInRange}
use gpu_watch.Collector.Readings.{
  HandleError, refused, Checked, raised, done, is_memory_known, check_reading, add_reading,
  normalize_sanitized, range, own_index, expected_inventory, normalize,
}

-- A reading in range whose memory is known.
pub record IsUsable (gpu : Gpu) : Type 0 where
  pub in_range : IsInRange gpu
  pub memory : is_memory_known gpu.memory_used gpu.memory_total ≡ true

-- The readings of a payload that pass, where some indices were seen before.
pub record AreChecked (seen : List ℕ) (gpus : List Gpu) : Type 0 where
  pub usable : All IsUsable gpus
  pub distinct : no_repeats (map own_index gpus) ≡ true
  pub apart : meet (map own_index gpus) seen ≡ false

-- An error of the payload itself, not one of the store.
abbrev pub IsOwn : HandleError → Type 0
IsOwn error = (reason : PayloadError) → error ≢ refused reason

-- What holds of a result; an exception is the collector's own.
abbrev pub WhenDone : {A : Type 0} → (A → Type 0) → Checked A → Type 0
WhenDone P (raised error) = IsOwn error
WhenDone P (done a) = P a

add_reading-AreChecked :
    (seen : List ℕ) (gpu : Gpu) (rest : Checked (List Gpu))
    → IsInRange gpu
    → WhenDone (AreChecked (gpu.index ∷ seen)) rest
    → WhenDone (AreChecked seen) (check_reading seen gpu rest)
unfolding check_reading
add_reading-AreChecked seen gpu rest ranged others =
    elim (Bool-cases (is_memory_known gpu.memory_used gpu.memory_total)) [
      | inr e ↦ rw e (λ reason same. cc)
      | inl e ↦ rw e (elim (Bool-cases (has_index gpu.index seen)) [
        | inl again ↦ rw again (λ reason same. cc)
        | inr new ↦ rw new (go rest others e new)
      ])
    ]
  where
    go :
        (r : Checked (List Gpu))
        → WhenDone (AreChecked (gpu.index ∷ seen)) r
        → is_memory_known gpu.memory_used gpu.memory_total ≡ true
        → has_index gpu.index seen ≡ false
        → WhenDone (AreChecked seen) (add_reading gpu r)
    go (raised error) k e new = k
    go (done gpus) k e new =
        let split = sym (meet-cons (map own_index gpus) seen gpu.index) ∙ k.apart in
        record {
          usable = (record { in_range = ranged; memory = e }, k.usable);
          distinct = unfold no_repeats in ground (arith, k.distinct, split);
          apart = unfold meet in ground (arith, new, split);
        }

normalize_sanitized-AreChecked :
    (seen : List ℕ) (gpu : Option Gpu) (others : List ℕ → Checked (List Gpu))
    → Each IsInRange gpu
    → ((seen' : List ℕ) → WhenDone (AreChecked seen') (others seen'))
    → WhenDone (AreChecked seen) (normalize_sanitized gpu seen others)
unfolding normalize_sanitized
normalize_sanitized-AreChecked seen none others ranged ih = λ reason same. cc
normalize_sanitized-AreChecked seen (some gpu) others ranged ih =
    add_reading-AreChecked seen gpu (others (gpu.index ∷ seen)) ranged (ih (gpu.index ∷ seen))

-- The readings that pass are in range, have known memory, and are of different GPUs.
pub normalize-AreChecked :
    (py : Python) (re : Regex) (seen : List ℕ) (raws : List Json)
    → WhenDone (AreChecked seen) (normalize py re seen raws)
unfolding normalize no_repeats meet
normalize-AreChecked py re seen [] = record { usable = tt; distinct = refl; apart = refl }
normalize-AreChecked py re seen (raw ∷ raws) =
    normalize_sanitized-AreChecked seen (sanitize_gpu_snapshot py re raw)
      (λ seen'. normalize py re seen' raws) (sanitize_gpu_snapshot-IsInRange py re raw)
      (λ seen'. normalize-AreChecked py re seen' raws)

all_in-has_index :
    (is js : List ℕ) (i : ℕ) → all_in is js ≡ true → has_index i is ≡ true → has_index i js ≡ true
unfolding all_in has_index
all_in-has_index [] js i h k = cc
all_in-has_index (j ∷ is) js i h k = ground (arith, all_in-has_index is js i)

-- Equal sets have the same members.
pub same_indices-has_index :
    (is js : List ℕ) (i : ℕ) → same_indices is js ≡ true → has_index i is ≡ has_index i js
same_indices-has_index is js i h =
    ground (arith, all_in-has_index is js i, all_in-has_index js is i)

has_index-append :
    (is js : List ℕ) (i : ℕ) → has_index i (is ++ js) ≡ (has_index i is || has_index i js)
unfolding has_index
has_index-append [] js i = refl
has_index-append (j ∷ is) js i = ground (arith, has_index-append is js i)

pub has_index-range : (n i : ℕ) → has_index i (range n) ≡ ltb i n
unfolding range has_index
has_index-range zero i = ground arith
has_index-range (suc n) i =
    ground (arith, has_index-append (range n) (n ∷ []) i, has_index-range n i)

-- An inventory that passes is not empty, and is that of the GPUs below the expected count.
pub record IsExpected (expected : ℕ) (gpus : List Gpu) : Type 0 where
  pub not_empty : is_empty gpus ≡ false
  pub whole : same_indices (map own_index gpus) (range expected) ≡ true

pub expected_inventory-IsExpected :
    (count expected : ℕ) (gpus : List Gpu)
    → WhenDone
        (λ kept. (kept ≡ gpus) × IsExpected expected kept)
        (expected_inventory count expected gpus)
unfolding expected_inventory
expected_inventory-IsExpected count expected gpus =
    elim (Bool-cases (is_empty gpus || not (count == expected))) [
      | inl e ↦ rw e (λ reason same. cc)
      | inr e ↦ rw e (elim (Bool-cases (same_indices (map own_index gpus) (range expected))) [
        | inl same ↦ rw same (refl, record { not_empty = ground arith; whole = same })
        | inr other ↦ rw other (λ reason same. cc)
      ])
    ]
