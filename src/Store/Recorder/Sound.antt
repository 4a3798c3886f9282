-- ===== src/Store/Recorder/Sound.antt =====
-- The tables of the recorder stay in order, over any observation of any GPU.
use gpu_watch.Prelude.{
  ℕ, ◌≤◌, ◌≡◌, refl, sym, String, Bool, false, Option, none, some, List, [], ◌∷◌, arith, Bool-cases,
  inl, inr, All, All-map, All-append, eq_iff, subst,
}
use gpu_watch.Store.Timeline.{IntervalRow, EndedBy, IsValid}
use gpu_watch.Store.Timeline.Tags.{AllTags}
use gpu_watch.Store.Timeline.Keep.{filter-All, filter-IsValid}
use gpu_watch.Store.Usage.Laws.{IsStored}
use gpu_watch.Store.Gpu.{Gpu, GpuRow, uuid_of, first_row, next_gpu_row, is_some}
use gpu_watch.Store.Gpu.Accounting.{IsAccounted, first_row-IsAccounted, next_gpu_row-IsAccounted}
use gpu_watch.Store.Recorder.{
  Recorder, is_row_of, find_row, delete_row, delete_intervals, replace_row, uuid_changed,
  forget_gpu, check_identity, observe_first, observe_again, observe, update_gpu,
}
use gpu_watch.Store.Recorder.Tables.{record_usage-Advances, record_capacity-Advances}

-- A GPU's row, with the time of its last observation: its accounts are in order, and its intervals
-- have ended by then.
pub record IsTracked (state : Recorder) (now : ℕ) (row : GpuRow) : Type 0 where
  pub last : ℕ
  pub accounted : IsAccounted row last
  pub past : last ≤ now
  pub usage_ended : EndedBy row.host row.gpu_index last state.usage.rows
  pub capacity_ended : EndedBy row.host row.gpu_index last state.capacity.rows

-- The tables at `now`: both interval tables are valid and have ended, no users column is an empty
-- text, and every GPU's row is tracked.
pub record IsSound (state : Recorder) (now : ℕ) : Type 0 where
  pub usage : IsValid state.usage
  pub stored : AllTags IsStored state.usage.rows
  pub capacity : IsValid state.capacity
  pub usage_ended : All (λ row. row.end_ts ≤ now) state.usage.rows
  pub capacity_ended : All (λ row. row.end_ts ≤ now) state.capacity.rows
  pub tracked : All (IsTracked state now) state.gpus

delete_row-All :
    (P : GpuRow → Type 0) (host : String) (gpu_index : ℕ) (rows : List GpuRow)
    → All P rows
    → All P (delete_row host gpu_index rows)
unfolding delete_row
delete_row-All P host gpu_index [] h = tt
delete_row-All P host gpu_index (row ∷ rows) h = elim (Bool-cases (is_row_of host gpu_index row)) [
  | inl e ↦ rw e (delete_row-All P host gpu_index rows h.1)
  | inr e ↦ rw e (h.0, delete_row-All P host gpu_index rows h.1)
]

replace_row-All :
    (P Q : GpuRow → Type 0) (host : String) (gpu_index : ℕ) (new : GpuRow) (rows : List GpuRow)
    → All P rows
    → ((row : GpuRow) → is_row_of host gpu_index row ≡ false → P row → Q row)
    → Q new
    → All Q (replace_row host gpu_index new rows)
unfolding replace_row
replace_row-All P Q host gpu_index new [] h keep q = tt
replace_row-All P Q host gpu_index new (row ∷ rows) h keep q =
    let rest = replace_row-All P Q host gpu_index new rows h.1 keep q in
    elim (Bool-cases (is_row_of host gpu_index row)) [
      | inl e ↦ rw e (q, rest)
      | inr e ↦ rw e (keep row e h.0, rest)
    ]

-- The row that is found, what holds of it, and its key.
find_row-All :
    (P : GpuRow → Type 0) (host : String) (gpu_index : ℕ) (rows : List GpuRow) (found : GpuRow)
    → All P rows
    → find_row host gpu_index rows ≡ some found
    → P found × (found.host ≡ host) × (found.gpu_index ≡ gpu_index)
unfolding find_row
find_row-All P host gpu_index [] found h e = cc
find_row-All P host gpu_index (row ∷ rows) found h e =
    elim (Bool-cases (is_row_of host gpu_index row)) [
      | inl mine ↦
          let same : row ≡ found = cc (rw mine at e) in
          subst (λ r. P r × (r.host ≡ host) × (r.gpu_index ≡ gpu_index)) same
            (h.0, ground (arith, eq_iff row.host host), ground arith)
      | inr other ↦ find_row-All P host gpu_index rows found h.1 (rw other at e)
    ]

ended_at :
    {Tag : Type 0} (now ts : ℕ) (rows : List (IntervalRow Tag))
    → now ≤ ts
    → All (λ row. row.end_ts ≤ now) rows
    → All (λ row. row.end_ts ≤ ts) rows
ended_at now ts rows order h = All-map rows (λ row e. omega arith) h

-- A row that is kept, in other tables.
moved-IsTracked :
    (before after : Recorder) (now ts : ℕ) (row : GpuRow)
    → now ≤ ts
    → (t : IsTracked before now row) → EndedBy row.host row.gpu_index t.last after.usage.rows
    → EndedBy row.host row.gpu_index t.last after.capacity.rows
    → IsTracked after ts row
moved-IsTracked before after now ts row order t usage capacity =
    let past = t.past in
    record {
      last = t.last;
      accounted = t.accounted;
      past = omega arith;
      usage_ended = usage;
      capacity_ended = capacity;
    }

-- The times between which a key's intervals have ended carry over to an equal key.
at_key :
    {Tag : Type 0} (host host' : String) (gpu_index gpu_index' t : ℕ)
    (rows : List (IntervalRow Tag))
    → host ≡ host'
    → gpu_index ≡ gpu_index'
    → EndedBy host gpu_index t rows
    → EndedBy host' gpu_index' t rows
at_key host host' gpu_index gpu_index' t rows h k l =
    subst (λ i. EndedBy host' i t rows) k (subst (λ name. EndedBy name gpu_index t rows) h l)

check_identity-IsSound :
    (host : String) (gpu : Gpu) (ts now : ℕ) (state : Recorder) (row : Option GpuRow)
    → IsSound state now
    → IsSound (check_identity host gpu ts state row) now
unfolding check_identity forget_gpu delete_intervals
check_identity-IsSound host gpu ts now state none s = s
check_identity-IsSound host gpu ts now state (some row) s =
    elim (Bool-cases (uuid_changed row.gpu_uuid (uuid_of gpu))) [
      | inl e ↦ rw e (record {
        usage = filter-IsValid _ state.usage s.usage;
        stored = filter-All _ _ state.usage.rows s.stored;
        capacity = filter-IsValid _ state.capacity s.capacity;
        usage_ended = filter-All _ _ state.usage.rows s.usage_ended;
        capacity_ended = filter-All _ _ state.capacity.rows s.capacity_ended;
        tracked = delete_row-All _ host gpu.index state.gpus (
            All-map state.gpus
              (λ r t.
                moved-IsTracked state (forget_gpu host gpu.index ts state) now now r (omega arith) t
                  (filter-All _ _ state.usage.rows t.usage_ended)
                  (filter-All _ _ state.capacity.rows t.capacity_ended))
              s.tracked);
      })
      | inr e ↦ elim (Bool-cases (is_some row.last_seen_ts)) [
        | inl k ↦ rw (e, k) s
        | inr k ↦
            rw (e, k)
              (record {
                usage = s.usage;
                stored = s.stored;
                capacity = s.capacity;
                usage_ended = s.usage_ended;
                capacity_ended = s.capacity_ended;
                tracked = delete_row-All _ host gpu.index state.gpus (
                    All-map state.gpus
                      (λ r t.
                        moved-IsTracked state
                          (record state { gpus = delete_row host gpu.index state.gpus }) now now r
                          (omega arith) t t.usage_ended t.capacity_ended)
                      s.tracked);
              })
      ]
    ]

module _ (host : String) (gpu : Gpu) (busy : Bool) (ts now : ℕ) (max_gap : Option ℕ)
    (order : now ≤ ts) (state : Recorder) (s : IsSound state now) where
  observe_first-IsSound : IsSound (observe_first host gpu busy ts state) ts
  unfolding observe_first first_row
  observe_first-IsSound =
      let usage_ended = ended_at now ts state.usage.rows order s.usage_ended in
      let capacity_ended = ended_at now ts state.capacity.rows order s.capacity_ended in
      let after = observe_first host gpu busy ts state in
      record {
        usage = s.usage;
        stored = s.stored;
        capacity = s.capacity;
        usage_ended = usage_ended;
        capacity_ended = capacity_ended;
        tracked =
            All-append (IsTracked after ts) state.gpus _
              (All-map state.gpus
                (λ r t. moved-IsTracked state after now ts r order t t.usage_ended t.capacity_ended)
                s.tracked)
              (
                record {
                  last = ts;
                  accounted = first_row-IsAccounted host gpu busy ts;
                  past = omega arith;
                  usage_ended = All-map state.usage.rows (λ r e mine. e) usage_ended;
                  capacity_ended = All-map state.capacity.rows (λ r e mine. e) capacity_ended;
                },
                tt,
              );
      }

  observe_again-IsSound :
      (row : GpuRow)
      → find_row host gpu.index state.gpus ≡ some row
      → IsSound (observe_again host gpu busy ts max_gap state row) ts
  unfolding observe_again next_gpu_row
  observe_again-IsSound row e =
      let (t, host_eq, index_eq) =
        find_row-All (IsTracked state now) host gpu.index state.gpus row s.tracked e in
      let past = t.past in
      let late : t.last ≤ ts = omega arith in
      let (usage, stored) =
        record_usage-Advances host gpu.index ts t.last row max_gap t.accounted.seen late state.usage
          s.usage s.stored
          (at_key row.host host row.gpu_index gpu.index t.last state.usage.rows host_eq index_eq
            t.usage_ended) in
      let capacity =
        record_capacity-Advances host gpu.index ts t.last row max_gap t.accounted.seen late
          state.capacity s.capacity
          (at_key row.host host row.gpu_index gpu.index t.last state.capacity.rows host_eq index_eq
            t.capacity_ended) in
      let after = observe_again host gpu busy ts max_gap state row in
      record {
        usage = usage.valid;
        stored = stored;
        capacity = capacity.valid;
        usage_ended =
            usage.all_ended ts (omega arith) (ended_at now ts state.usage.rows order s.usage_ended);
        capacity_ended =
            capacity.all_ended ts (omega arith)
              (ended_at now ts state.capacity.rows order s.capacity_ended);
        tracked =
            replace_row-All (IsTracked state now) (IsTracked after ts) host gpu.index
              (next_gpu_row row gpu busy ts max_gap) state.gpus s.tracked
              (λ r other t'.
                moved-IsTracked state after now ts r order t'
                  (usage.others r.host r.gpu_index t'.last other t'.usage_ended)
                  (capacity.others r.host r.gpu_index t'.last other t'.capacity_ended))
              record {
                last = ts;
                accounted =
                    next_gpu_row-IsAccounted row gpu busy ts t.last max_gap t.accounted late;
                past = omega arith;
                usage_ended =
                    at_key host row.host gpu.index row.gpu_index ts _ (sym host_eq) (sym index_eq)
                      usage.ended;
                capacity_ended =
                    at_key host row.host gpu.index row.gpu_index ts _ (sym host_eq) (sym index_eq)
                      capacity.ended;
              };
      }

-- An observation of any GPU, at any time that is not before the last one and with any limit on gaps,
-- keeps all the tables in order.
pub update_gpu-IsSound :
    (host : String) (gpu : Gpu) (busy : Bool) (ts now : ℕ) (max_gap : Option ℕ) (state : Recorder)
    → now ≤ ts
    → IsSound state now
    → IsSound (update_gpu host gpu busy ts max_gap state) ts
unfolding update_gpu observe
update_gpu-IsSound host gpu busy ts now max_gap state order s =
    go (find_row host gpu.index checked.gpus) refl
  where
    checked : Recorder
    checked = check_identity host gpu ts state (find_row host gpu.index state.gpus)

    sound : IsSound checked now
    sound = check_identity-IsSound host gpu ts now state (find_row host gpu.index state.gpus) s

    go :
        (row : Option GpuRow)
        → find_row host gpu.index checked.gpus ≡ row
        → IsSound (observe host gpu busy ts max_gap checked row) ts
    go none e = observe_first-IsSound host gpu busy ts now max_gap order checked sound
    go (some row) e = observe_again-IsSound host gpu busy ts now max_gap order checked sound row e
