-- ===== src/Store/Gpu/Sessions.antt =====
-- server.py, Store._update_gpu: since when a GPU is busy or free, and the kind of the event.
use gpu_watch.Prelude.{
  ℕ, ◌≡◌, refl, Bool, true, false, not, ◌&&◌, Option, none, some, List, String, if◌then◌else◌,
  arith, Bool-cases,
}
use gpu_watch.Processes.{Process, confirmed_process_users}
use gpu_watch.Store.Usage.{same_text}
use gpu_watch.Store.Capacity.{same_bool}
use gpu_watch.Store.Gpu.{
  Gpu, GpuRow, Session, Elapsed, is_missed, is_start, session_of, staying_user, after_missed,
  after_transition, next_session, known_processes, user_text_of,
}

-- A user change leaves the times of the session alone and is no start.
staying_user_keeps :
    (previous processes : List Process) (user_text : Option String) (session : Session)
    → is_start session.event ≡ false
    → ((staying_user previous processes user_text session).busy_since ≡ session.busy_since)
      × ((staying_user previous processes user_text session).free_since ≡ session.free_since)
      × (is_start (staying_user previous processes user_text session).event ≡ false)
unfolding staying_user
staying_user_keeps previous processes (some user) session h =
    ground (arith, Bool-cases (same_text (some user) session.last_user))
staying_user_keeps previous processes none session h = ground arith

-- What an observation does to the times of a session and to its event.
abbrev pub Continues : GpuRow → Bool → ℕ → Bool → Session → Type 0
Continues row busy ts is_gap session =
    let keeps = same_bool row.busy busy && not is_gap in
    (session.busy_since ≡ (if keeps then row.busy_since_ts else if busy then some ts else none))
    × (session.free_since ≡ (if keeps then row.free_since_ts else if busy then none else some ts))
    × (is_start session.event ≡ not (same_bool row.busy busy))

after_transition-Continues :
    (row : GpuRow) (was_busy busy is_gap : Bool) (previous processes : List Process)
    (user_text : Option String) (ts : ℕ)
    → row.busy ≡ was_busy
    → Continues row busy ts is_gap (
        after_transition was_busy busy previous processes user_text row.last_user ts
          (after_missed is_gap was_busy busy user_text ts (session_of row)))
unfolding after_transition after_missed
after_transition-Continues row false true is_gap previous processes user_text ts e =
    rw e (refl, refl, refl)
after_transition-Continues row true false is_gap previous processes user_text ts e =
    rw e (refl, refl, refl)
after_transition-Continues row false false true previous processes user_text ts e =
    rw e (refl, refl, refl)
after_transition-Continues row false false false previous processes user_text ts e =
    rw e (refl, refl, refl)
after_transition-Continues row true true false previous processes user_text ts e =
    rw e (staying_user_keeps previous processes user_text _ refl)
after_transition-Continues row true true true previous processes user_text ts e =
    rw e (staying_user_keeps previous processes user_text _ refl)

-- A session goes on, with its times, exactly while the GPU is seen in one and the same state without
-- a missed interval; if not, a new one begins at the observation. A start event is written exactly at
-- a change of state.
pub next_session-Continues :
    (row : GpuRow) (gpu : Gpu) (busy : Bool) (ts : ℕ) (elapsed : Elapsed)
    → Continues row busy ts (is_missed elapsed) (next_session row gpu busy ts elapsed)
unfolding next_session
next_session-Continues row gpu busy ts elapsed =
    after_transition-Continues row row.busy busy (is_missed elapsed) row.last_processes
      (known_processes row gpu busy)
      (user_text_of (confirmed_process_users (known_processes row gpu busy))) ts refl
