-- ===== src/Store/Recorder/Inventory.antt =====
-- What a payload does to the inventory of its host.
use gpu_watch.Prelude.{
  ℕ, Bool, true, false, not, ◌&&◌, ◌||◌, Option, none, some, List, [], ◌∷◌, ◌++◌, String, str_eq,
  ◌==◌, if◌then◌else◌, map, arith, ◌≡◌, refl, Bool-cases, inl, inr, eq_iff, ◌∙◌, ap, subst,
}
use gpu_watch.Prelude.Dict.{lookup}
use gpu_watch.Store.Gpu.{Gpu, GpuRow, first_row, next_gpu_row, is_some}
use gpu_watch.Store.Recorder.{
  Recorder, is_row_of, find_row, delete_row, replace_row, forget_gpu, check_identity, observe_first,
  observe_again, observe, update_gpu,
}
use gpu_watch.Store.Recorder.Payload.{
  HostPayload, has_index, index_of, update_gpus, reconcile_host_gpus, publish, update_disk, mark,
  gap_limit,
}

-- Whether the GPU has a row with `active=1`.
unfoldable pub is_active : String → ℕ → List GpuRow → Bool
is_active host gpu_index [] = false
is_active host gpu_index (row ∷ rows) =
    (is_row_of host gpu_index row && row.active) || is_active host gpu_index rows

is_active-append :
    (host : String) (gpu_index : ℕ) (rows more : List GpuRow)
    → is_active host gpu_index (rows ++ more)
      ≡ (is_active host gpu_index rows || is_active host gpu_index more)
unfolding is_active
is_active-append host gpu_index [] more = refl
is_active-append host gpu_index (row ∷ rows) more =
    ground (arith, is_active-append host gpu_index rows more)

module _ (host : String) (gpu_index : ℕ) (host' : String) (gpu_index' : ℕ) where
  -- Both name one GPU.
  abbrev is_same : Bool
  is_same = str_eq host host' && gpu_index == gpu_index'

  is_active-delete_row :
      (rows : List GpuRow)
      → is_active host' gpu_index' (delete_row host gpu_index rows)
        ≡ (not is_same && is_active host' gpu_index' rows)
  unfolding is_active delete_row
  is_active-delete_row [] = ground arith
  is_active-delete_row (row ∷ rows) = ground (
    arith,
    eq_iff row.host host,
    eq_iff row.host host',
    eq_iff host host',
    is_active-delete_row rows,
  )

  is_active-replace_row :
      (new : GpuRow) (rows : List GpuRow)
      → is_row_of host gpu_index new ≡ true
      → new.active ≡ true
      → is_active host' gpu_index' (replace_row host gpu_index new rows) ≡ (
          if is_same
          then is_some (find_row host gpu_index rows)
          else is_active host' gpu_index' rows)
  unfolding is_active replace_row find_row
  is_active-replace_row new [] h a = ground arith
  is_active-replace_row new (row ∷ rows) h a = elim (Bool-cases (is_row_of host gpu_index row)) [
    | inl e ↦ rw e (
        ground (
          arith,
          eq_iff row.host host,
          eq_iff new.host host,
          eq_iff row.host host',
          eq_iff new.host host',
          eq_iff host host',
          is_active-replace_row new rows h a,
        ))
    | inr e ↦ rw e (
        ground (
          arith,
          eq_iff row.host host,
          eq_iff row.host host',
          eq_iff host host',
          is_active-replace_row new rows h a,
        ))
  ]

find_row-mine :
    (host : String) (gpu_index : ℕ) (rows : List GpuRow) (found : GpuRow)
    → find_row host gpu_index rows ≡ some found
    → is_row_of host gpu_index found ≡ true
unfolding find_row
find_row-mine host gpu_index [] found e = cc
find_row-mine host gpu_index (row ∷ rows) found e =
    elim (Bool-cases (is_row_of host gpu_index row)) [
      | inl mine ↦
          let same : row ≡ found = cc (rw mine at e) in
          subst (λ r. is_row_of host gpu_index r ≡ true) same mine
      | inr other ↦ find_row-mine host gpu_index rows found (rw other at e)
    ]

module _ (host : String) (gpu : Gpu) (busy : Bool) (ts : ℕ) (max_gap : Option ℕ) (host' : String)
    (gpu_index' : ℕ) where
  observe-active :
      (state : Recorder) (row : Option GpuRow)
      → find_row host gpu.index state.gpus ≡ row
      → is_active host' gpu_index' (observe host gpu busy ts max_gap state row).gpus
        ≡ (is_same host gpu.index host' gpu_index' || is_active host' gpu_index' state.gpus)
  unfolding observe observe_first observe_again is_active first_row next_gpu_row
  observe-active state none e =
      is_active-append host' gpu_index' state.gpus (first_row host gpu busy ts ∷ [])
      ∙ ground (arith, eq_iff host host')
  observe-active state (some row) e =
      is_active-replace_row host gpu.index host' gpu_index' (next_gpu_row row gpu busy ts max_gap)
        state.gpus (find_row-mine host gpu.index state.gpus row e) refl
      ∙ rw e (ground arith)

  check_identity-active :
      (state : Recorder) (row : Option GpuRow)
      → (is_same host gpu.index host' gpu_index'
          || is_active host' gpu_index' (check_identity host gpu ts state row).gpus)
        ≡ (is_same host gpu.index host' gpu_index' || is_active host' gpu_index' state.gpus)
  unfolding check_identity forget_gpu
  check_identity-active state none = refl
  check_identity-active state (some row) =
      ground (arith, is_active-delete_row host gpu.index host' gpu_index' state.gpus)

  update_gpu-active :
      (state : Recorder)
      → is_active host' gpu_index' (update_gpu host gpu busy ts max_gap state).gpus
        ≡ (is_same host gpu.index host' gpu_index' || is_active host' gpu_index' state.gpus)
  unfolding update_gpu
  update_gpu-active state =
      observe-active (check_identity host gpu ts state (find_row host gpu.index state.gpus)) _ refl
      ∙ check_identity-active state (find_row host gpu.index state.gpus)

update_gpus-active :
    (host : String) (ts : ℕ) (limit : Option ℕ) (prepared : List (Gpu × Bool)) (state : Recorder)
    (host' : String) (gpu_index' : ℕ)
    → is_active host' gpu_index' (update_gpus host ts limit prepared state).gpus ≡ (
        (str_eq host host' && has_index gpu_index' (map index_of prepared))
        || is_active host' gpu_index' state.gpus)
unfolding update_gpus has_index
update_gpus-active host ts limit [] state host' gpu_index' = ground arith
update_gpus-active host ts limit ((gpu, busy) ∷ rest) state host' gpu_index' =
    update_gpus-active host ts limit rest (update_gpu host gpu busy ts limit state) host' gpu_index'
    ∙ ground (arith, update_gpu-active host gpu busy ts limit host' gpu_index' state)

reconcile_host_gpus-active :
    (host : String) (observed : List ℕ) (rows : List GpuRow) (host' : String) (gpu_index' : ℕ)
    → is_active host' gpu_index' (reconcile_host_gpus host observed rows) ≡ (
        (not (str_eq host host') || has_index gpu_index' observed)
        && is_active host' gpu_index' rows)
unfolding reconcile_host_gpus is_active
reconcile_host_gpus-active host observed [] host' gpu_index' = ground arith
reconcile_host_gpus-active host observed (row ∷ rows) host' gpu_index' =
    let rest = reconcile_host_gpus-active host observed rows host' gpu_index' in
    elim (Bool-cases (is_row_of host' gpu_index' row)) [
      | inr e ↦
          rw (keeps_key (str_eq row.host host && not (has_index row.gpu_index observed)), e)
            (ground (arith, rest))
      | inl e ↦
          let same_host : row.host ≡ host' = ground (arith, eq_iff row.host host') in
          let same_index : row.gpu_index ≡ gpu_index' = ground arith in
          rw
            (
              keeps_key (str_eq row.host host && not (has_index row.gpu_index observed)),
              e,
              same_host,
              same_index,
            )
            (ground (arith, eq_iff host host', eq_iff host' host, rest))
    ]
  where
    keeps_key :
        (b : Bool)
        → is_row_of host' gpu_index' (if b then record row { active = false } else row)
          ≡ is_row_of host' gpu_index' row
    keeps_key true = refl
    keeps_key false = refl

update_disk-gpus :
    (host : String) (disk : Option String) (ts : ℕ) (state : Recorder)
    → (update_disk host disk ts state).gpus ≡ state.gpus
unfolding update_disk
update_disk-gpus host none ts state = refl
update_disk-gpus host (some snapshot) ts state = refl

pub publish-active :
    (payload : HostPayload) (prepared : List (Gpu × Bool)) (state : Recorder) (host' : String)
    (gpu_index' : ℕ)
    → is_active host' gpu_index' (publish payload prepared state).gpus ≡ (
        if str_eq payload.host host'
        then has_index gpu_index' (map index_of prepared)
        else is_active host' gpu_index' state.gpus)
unfolding publish mark
publish-active payload prepared state host' gpu_index' =
    ap (is_active host' gpu_index') (update_disk-gpus payload.host payload.disk payload.ts _)
    ∙ (reconcile_host_gpus-active payload.host (map index_of prepared) _ host' gpu_index'
        ∙ ground (
          arith,
          update_gpus-active payload.host payload.ts
              (gap_limit (lookup payload.host state.hosts) payload.max_gap) prepared state host'
              gpu_index',
        ))
