-- ===== src/Store/Gpu/Accounting.antt =====
-- server.py, Store._update_gpu: the totals of a GPU.
use gpu_watch.Prelude.{
  ℕ, ◌+◌, ◌-◌, ◌≤◌, ◌≡◌, refl, Bool, not, Option, none, some, [], ◌∷◌, String, if◌then◌else◌, arith,
  ◌&&◌, Bool-cases, inl, inr, ◌∙◌, ap,
}
use gpu_watch.Prelude.Dict.{Dict}
use gpu_watch.Processes.{attributable_process_users}
use gpu_watch.Processes.Charge.{total, total-add_user_seconds}
use gpu_watch.Store.Capacity.{same_bool}
use gpu_watch.Store.Capacity.Laws.{same_bool_sound}
use gpu_watch.Store.Gpu.{
  Gpu, GpuRow, Elapsed, unseen, counted, missed, charge, parse_user_seconds, elapsed_since, within,
  first_row, next_gpu_row, is_missed,
}
use gpu_watch.Store.Gpu.Sessions.{next_session-Continues}

total-parse_user_seconds : (stored : Dict ℕ) → total (parse_user_seconds stored) ≤ total stored
unfolding parse_user_seconds total
total-parse_user_seconds [] = omega arith
total-parse_user_seconds ((user, seconds) ∷ rest) = ground (arith, total-parse_user_seconds rest)

-- What the interval counts for.
abbrev pub counted_seconds : Elapsed → ℕ
counted_seconds unseen = 0
counted_seconds (counted from elapsed) = elapsed
counted_seconds (missed elapsed) = 0

charge_lem :
    (row : GpuRow) (elapsed : Elapsed)
    → ((charge row elapsed).observed_seconds ≡ row.observed_seconds + counted_seconds elapsed)
      × ((charge row elapsed).busy_seconds
          ≡ row.busy_seconds + (if row.busy then counted_seconds elapsed else 0))
      × (total (charge row elapsed).user_seconds
          ≤ total row.user_seconds + (if row.busy then counted_seconds elapsed else 0))
unfolding charge
charge_lem row unseen = ground (arith, total-parse_user_seconds row.user_seconds)
charge_lem row (missed elapsed) = ground (arith, total-parse_user_seconds row.user_seconds)
charge_lem row (counted from elapsed) = ground (
  arith,
  total-parse_user_seconds row.user_seconds,
  total-add_user_seconds (parse_user_seconds row.user_seconds)
      (attributable_process_users row.last_processes) elapsed,
)

-- The totals of a later observation: the time since the last one counts as observed if it is within
-- the limit, as busy if the GPU was busy at its start, and the users' seconds grow by no more than that.
pub next_gpu_row_totals :
    (row : GpuRow) (gpu : Gpu) (busy : Bool) (ts last : ℕ) (max_gap : Option ℕ)
    → row.last_seen_ts ≡ some last
    → let counts = if within max_gap (ts - last) then ts - last else 0 in
      let next = next_gpu_row row gpu busy ts max_gap in
      (next.observed_seconds ≡ row.observed_seconds + counts)
      × (next.busy_seconds ≡ row.busy_seconds + (if row.busy then counts else 0))
      × (total next.user_seconds ≤ total row.user_seconds + (if row.busy then counts else 0))
unfolding next_gpu_row elapsed_since
next_gpu_row_totals row gpu busy ts last max_gap e =
    rw e (ground (arith, charge_lem row (elapsed_since (some last) ts max_gap)))

-- The times of a session: busy since a time, or free since one, between the first and the last
-- observation.
pub record IsTimed (row : GpuRow) (last : ℕ) : Type 0 where
  pub since : ℕ
  pub busy_since : row.busy_since_ts ≡ (if row.busy then some since else none)
  pub free_since : row.free_since_ts ≡ (if row.busy then none else some since)
  pub after : row.first_seen_ts ≤ since
  pub before : since ≤ last

-- A row last seen at `last`: its totals are in order and no more than the time between the first and
-- the last observation.
pub record IsAccounted (row : GpuRow) (last : ℕ) : Type 0 where
  pub seen : row.last_seen_ts ≡ some last
  pub charged : total row.user_seconds ≤ row.busy_seconds
  pub used : row.busy_seconds ≤ row.observed_seconds
  pub observed : row.first_seen_ts + row.observed_seconds ≤ last
  pub timed : IsTimed row last

pub first_row-IsAccounted :
    (host : String) (gpu : Gpu) (busy : Bool) (ts : ℕ) → IsAccounted (first_row host gpu busy ts) ts
unfolding first_row total
first_row-IsAccounted host gpu busy ts = record {
  seen = refl;
  charged = omega arith;
  used = omega arith;
  observed = omega arith;
  timed = record {
    since = ts;
    busy_since = refl;
    free_since = refl;
    after = omega arith;
    before = omega arith;
  };
}

next_gpu_row-IsTimed :
    (row : GpuRow) (gpu : Gpu) (busy : Bool) (ts last : ℕ) (max_gap : Option ℕ)
    → IsTimed row last
    → last ≤ ts
    → row.first_seen_ts ≤ last
    → IsTimed (next_gpu_row row gpu busy ts max_gap) ts
unfolding next_gpu_row
next_gpu_row-IsTimed row gpu busy ts last max_gap t clock first =
    let gone = is_missed (elapsed_since row.last_seen_ts ts max_gap) in
    let (busy_since, free_since, start) =
      next_session-Continues row gpu busy ts (elapsed_since row.last_seen_ts ts max_gap) in
    elim (Bool-cases (same_bool row.busy busy && not gone)) [
      | inl e ↦
          let same : row.busy ≡ busy = same_bool_sound row.busy busy (ground arith) in
          record {
            since = t.since;
            busy_since =
                (busy_since ∙ rw e t.busy_since) ∙ ap (λ b. if b then some t.since else none) same;
            free_since =
                (free_since ∙ rw e t.free_since) ∙ ap (λ b. if b then none else some t.since) same;
            after = t.after;
            before = omega (arith, t.before);
          }
      | inr e ↦ record {
        since = ts;
        busy_since = busy_since ∙ rw e;
        free_since = free_since ∙ rw e;
        after = omega arith;
        before = omega arith;
      }
    ]

-- A later observation keeps the accounts of a GPU in order, whatever it reads and whatever the limit
-- on gaps, if the clock does not go back.
pub next_gpu_row-IsAccounted :
    (row : GpuRow) (gpu : Gpu) (busy : Bool) (ts last : ℕ) (max_gap : Option ℕ)
    → IsAccounted row last
    → last ≤ ts
    → IsAccounted (next_gpu_row row gpu busy ts max_gap) ts
unfolding next_gpu_row
next_gpu_row-IsAccounted row gpu busy ts last max_gap h clock =
    let (observed, used, charged) = next_gpu_row_totals row gpu busy ts last max_gap h.seen in
    record {
      seen = refl;
      charged = ground (arith, h.charged, charged);
      used = ground (arith, h.used, used);
      observed = ground (arith, h.observed, observed);
      timed =
          next_gpu_row-IsTimed row gpu busy ts last max_gap h.timed clock
            (omega (arith, h.observed));
    }
