-- ===== src/Store/Recorder/Calls.antt =====
-- A call of Store.apply_host_payload or of Store.mark_host keeps the tables in order.
use gpu_watch.Prelude.{
  ℕ, ◌≤◌, String, Bool, true, false, not, ◌&&◌, Option, none, some, List, [], ◌∷◌, str_eq, map,
  arith, Bool-cases, inl, inr, All, All-map,
}
use gpu_watch.Prelude.{◌++◌}
use gpu_watch.Prelude.Dict.{Dict, lookup}
use gpu_watch.Store.Events.{Event}
use gpu_watch.Store.Host.{HostRow}
use gpu_watch.Store.Gpu.{Gpu, GpuRow}
use gpu_watch.Store.Recorder.{DiskRow, Recorder}
use gpu_watch.Store.Recorder.Payload.{
  HostPayload, Outcome, rejected, accepted, has_index, index_of, update_gpus, reconcile_host_gpus,
  update_disk, mark, gap_limit, publish, finish, check_inventory, apply_prepared,
  apply_host_payload, prepare, meet, is_partial, error_index,
}
use gpu_watch.Store.Recorder.Sound.{IsSound, IsTracked, update_gpu-IsSound}

-- The tables after a call: a ValueError leaves them as they were.
abbrev pub state_after : Recorder → Outcome Recorder → Recorder
state_after before (rejected error) = before
state_after before (accepted after) = after

update_gpus-IsSound :
    (host : String) (ts : ℕ) (limit : Option ℕ) (gpus : List (Gpu × Bool)) (now : ℕ)
    (state : Recorder)
    → now ≤ ts
    → IsSound state now
    → IsSound state ts
    → IsSound (update_gpus host ts limit gpus state) ts
unfolding update_gpus
update_gpus-IsSound host ts limit [] now state order s late = late
update_gpus-IsSound host ts limit ((gpu, busy) ∷ rest) now state order s late =
    let next = update_gpu-IsSound host gpu busy ts now limit state order s in
    update_gpus-IsSound host ts limit rest ts _ (omega arith) next next

-- The order at a time is the order at a later one.
pub later-IsSound :
    (now ts : ℕ) (state : Recorder) → now ≤ ts → IsSound state now → IsSound state ts
later-IsSound now ts state order s = record {
  usage = s.usage;
  stored = s.stored;
  capacity = s.capacity;
  usage_ended = All-map state.usage.rows (λ r e. omega arith) s.usage_ended;
  capacity_ended = All-map state.capacity.rows (λ r e. omega arith) s.capacity_ended;
  tracked =
      All-map state.gpus
        (λ r t.
          let past = t.past in
          record {
            last = t.last;
            accounted = t.accounted;
            past = omega arith;
            usage_ended = t.usage_ended;
            capacity_ended = t.capacity_ended;
          })
        s.tracked;
}

reconcile_host_gpus-IsTracked :
    (state : Recorder) (host : String) (observed : List ℕ) (ts : ℕ) (rows : List GpuRow)
    → All (IsTracked state ts) rows
    → All (IsTracked state ts) (reconcile_host_gpus host observed rows)
unfolding reconcile_host_gpus
reconcile_host_gpus-IsTracked state host observed ts [] h = tt
reconcile_host_gpus-IsTracked state host observed ts (row ∷ rows) h = (
  elim (Bool-cases (str_eq row.host host && not (has_index row.gpu_index observed))) [
    | inr e ↦ rw e h.0
    | inl e ↦ rw e (inactive h.0)
  ],
  reconcile_host_gpus-IsTracked state host observed ts rows h.1,
)
  where
    inactive : IsTracked state ts row → IsTracked state ts (record row { active = false })
    inactive t = record {
      last = t.last;
      accounted = record {
        seen = t.accounted.seen;
        charged = t.accounted.charged;
        used = t.accounted.used;
        observed = t.accounted.observed;
        timed = record {
          since = t.accounted.timed.since;
          busy_since = t.accounted.timed.busy_since;
          free_since = t.accounted.timed.free_since;
          after = t.accounted.timed.after;
          before = t.accounted.timed.before;
        };
      };
      past = t.past;
      usage_ended = t.usage_ended;
      capacity_ended = t.capacity_ended;
    }

-- The order of the tables does not depend on hosts, disks and events, nor on which rows are listed.
rebuilt-IsSound :
    (state : Recorder) (hosts : Dict HostRow) (gpus : List GpuRow) (disks : Dict DiskRow)
    (events : List Event) (ts : ℕ)
    → IsSound state ts
    → All (IsTracked state ts) gpus
    → IsSound record state { hosts = hosts; gpus = gpus; disks = disks; events = events } ts
rebuilt-IsSound state hosts gpus disks events ts s h = record {
  usage = s.usage;
  stored = s.stored;
  capacity = s.capacity;
  usage_ended = s.usage_ended;
  capacity_ended = s.capacity_ended;
  tracked =
      All-map gpus
        (λ r t. record {
          last = t.last;
          accounted = t.accounted;
          past = t.past;
          usage_ended = t.usage_ended;
          capacity_ended = t.capacity_ended;
        })
        h;
}

update_disk-IsSound :
    (host : String) (disk : Option String) (ts : ℕ) (state : Recorder)
    → IsSound state ts
    → IsSound (update_disk host disk ts state) ts
unfolding update_disk
update_disk-IsSound host none ts state s = s
update_disk-IsSound host (some snapshot) ts state s =
    rebuilt-IsSound state state.hosts state.gpus _ state.events ts s s.tracked

pub mark-IsSound :
    (host label : String) (online : Bool) (ts : ℕ) (hostname driver_version error : Option String)
    (state : Recorder)
    → IsSound state ts
    → IsSound (mark host label online ts hostname driver_version error state) ts
unfolding mark
mark-IsSound host label online ts hostname driver_version error state s =
    rebuilt-IsSound state _ state.gpus state.disks _ ts s s.tracked

publish-IsSound :
    (payload : HostPayload) (gpus : List (Gpu × Bool)) (now : ℕ) (state : Recorder)
    → now ≤ payload.ts
    → IsSound state now
    → IsSound (publish payload gpus state) payload.ts
unfolding publish
publish-IsSound payload gpus now state order s =
    let limit = gap_limit (lookup payload.host state.hosts) payload.max_gap in
    let updated = update_gpus payload.host payload.ts limit gpus state in
    let sound =
      update_gpus-IsSound payload.host payload.ts limit gpus now state order s
        (later-IsSound now payload.ts state order s) in
    mark-IsSound payload.host payload.label true payload.ts payload.hostname payload.driver_version
      none _
      (update_disk-IsSound payload.host payload.disk payload.ts _ (
        rebuilt-IsSound updated updated.hosts _ updated.disks updated.events payload.ts sound (
          reconcile_host_gpus-IsTracked updated payload.host (map index_of gpus) payload.ts
            updated.gpus sound.tracked)))

pub apply_host_payload-IsSound :
    (payload : HostPayload) (now : ℕ) (state : Recorder)
    → now ≤ payload.ts
    → IsSound state now
    → IsSound (state_after state (apply_host_payload payload state)) payload.ts
unfolding apply_host_payload apply_prepared check_inventory finish
apply_host_payload-IsSound payload now state order s = prepared_case (prepare [] payload.gpu_states)
  where
    late : IsSound state payload.ts
    late = later-IsSound now payload.ts state order s

    finish_case :
        (gpus : List (Gpu × Bool)) (errors : List (ℕ × String))
        → IsSound (state_after state (finish payload gpus errors state)) payload.ts
    finish_case gpus ((index, error) ∷ errors) =
        mark-IsSound payload.host payload.label false payload.ts none none (some error) state late
    finish_case [] [] = late
    finish_case (gpu ∷ gpus) [] = publish-IsSound payload (gpu ∷ gpus) now state order s

    checked_case :
        (gpus : List (Gpu × Bool)) (errors : Option (List (ℕ × String)))
        → IsSound (state_after state (check_inventory payload gpus errors state)) payload.ts
    checked_case gpus none = late
    checked_case gpus (some errors) =
        elim (Bool-cases (meet (map index_of gpus) (map error_index errors))) [
          | inl e ↦ rw e late
          | inr e ↦
              elim (Bool-cases
                (is_partial payload.expected (map index_of gpus ++ map error_index errors))) [
                  | inl k ↦ rw (e, k) late
                  | inr k ↦ rw (e, k) (finish_case gpus errors)
                ]
        ]

    prepared_case :
        (prepared : Outcome (List (Gpu × Bool)))
        → IsSound (state_after state (apply_prepared payload prepared state)) payload.ts
    prepared_case (rejected error) = late
    prepared_case (accepted gpus) = checked_case gpus payload.gpu_errors
