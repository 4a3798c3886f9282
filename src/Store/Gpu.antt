-- ===== src/Store/Gpu.antt =====
-- server.py, Store._update_gpu: the table gpu_runtime, and what one observation of a GPU does to it, to
-- the interval tables and to the events.
--
-- An observation is given as sanitize_gpu_snapshot leaves it. JSON columns hold the value written.
pub mod Sessions
pub mod Accounting
use gpu_watch.Prelude.{
  ℕ, ◌+◌, ◌-◌, Bool, true, false, not, ◌&&◌, Option, none, some, List, [], ◌∷◌, String, str_eq, leb,
  if◌then◌else◌, filter,
}
use gpu_watch.Prelude.Dict.{Dict}
use gpu_watch.Text.{clean_text, or_none, strip}
use gpu_watch.Processes.{
  Process, is_empty, same_process_cohort, confirmed_process_users, attributable_process_users,
  carry_verified_process_owners, add_user_seconds,
}
use gpu_watch.Store.Users.{join_users}
use gpu_watch.Store.Events.{
  Event, EventKind, busy_start, free_start, user_change, gap, Note, no_note, after_gap,
}
use gpu_watch.Store.Usage.{same_text}

-- A sanitised reading; its temperature is not read by the store and is left out.
pub record Gpu : Type 0 where
  pub index : ℕ
  pub name : String
  pub uuid : String
  pub utilization : Option ℕ
  pub memory_used : Option ℕ
  pub memory_total : Option ℕ
  pub processes : List Process

pub record GpuRow : Type 0 where
  pub host : String
  pub gpu_index : ℕ
  pub gpu_uuid : Option String
  pub gpu_name : String
  pub active : Bool
  pub busy : Bool
  pub first_seen_ts : ℕ
  pub last_seen_ts : Option ℕ
  pub last_transition_ts : ℕ
  pub free_since_ts : Option ℕ
  pub busy_since_ts : Option ℕ
  pub last_user : Option String
  pub last_used_ts : Option ℕ
  pub last_processes : List Process
  pub last_memory_used : Option ℕ
  pub last_memory_total : Option ℕ
  pub observed_seconds : ℕ
  pub busy_seconds : ℕ
  pub user_seconds : Dict ℕ

-- `", ".join(users) if users else None`
unfoldable pub user_text_of : List String → Option String
user_text_of [] = none
user_text_of (user ∷ users) = some (join_users (user ∷ users))

-- `clean_text(gpu.get("uuid"), 128) or None`
abbrev pub uuid_of : Gpu → Option String
uuid_of gpu = or_none (clean_text (some gpu.uuid) 128)

-- `user.strip()` is not empty and not "?", for the keys read back by parse_user_seconds
abbrev pub is_user_key : String × ℕ → Bool
is_user_key (user, seconds) = not (str_eq (strip user) "") && not (str_eq (strip user) "?")

unfoldable pub parse_user_seconds : Dict ℕ → Dict ℕ
parse_user_seconds stored = filter is_user_key stored

-- The row of a first observation.
unfoldable pub first_row : String → Gpu → Bool → ℕ → GpuRow
first_row host gpu busy ts = record {
  host = host;
  gpu_index = gpu.index;
  gpu_uuid = uuid_of gpu;
  gpu_name = gpu.name;
  active = true;
  busy = busy;
  first_seen_ts = ts;
  last_seen_ts = some ts;
  last_transition_ts = ts;
  free_since_ts = if busy then none else some ts;
  busy_since_ts = if busy then some ts else none;
  last_user = if busy then user_text_of (confirmed_process_users gpu.processes) else none;
  last_used_ts = if busy then some ts else none;
  last_processes = gpu.processes;
  last_memory_used = gpu.memory_used;
  last_memory_total = gpu.memory_total;
  observed_seconds = 0;
  busy_seconds = 0;
  user_seconds = [];
}

unfoldable pub gpu_event : String → ℕ → ℕ → EventKind → Option String → Note → Event
gpu_event host gpu_index ts kind users note = record {
  ts = ts;
  host = host;
  gpu_index = some gpu_index;
  event = kind;
  users = users;
  note = note;
}

-- The time since the row was last seen: none, all of it observed, or too long to be filled in.
pub data Elapsed : Type 0 where
  unseen : Elapsed
  counted : ℕ → ℕ → Elapsed
  missed : ℕ → Elapsed

abbrev pub within : Option ℕ → ℕ → Bool
within none elapsed = true
within (some limit) elapsed = leb elapsed limit

-- `counted from elapsed` is an interval of `elapsed` since `from`; `max_gap` is
-- max_observation_gap_seconds.
unfoldable pub elapsed_since : Option ℕ → ℕ → Option ℕ → Elapsed
elapsed_since none ts max_gap = unseen
elapsed_since (some last_seen) ts max_gap =
    let elapsed = ts - last_seen in
    if within max_gap elapsed then counted last_seen elapsed else missed elapsed

-- The totals after the interval.
pub record Totals : Type 0 where
  pub observed_seconds : ℕ
  pub busy_seconds : ℕ
  pub user_seconds : Dict ℕ

abbrev pub totals_of : GpuRow → Totals
totals_of row = record {
  observed_seconds = row.observed_seconds;
  busy_seconds = row.busy_seconds;
  user_seconds = parse_user_seconds row.user_seconds;
}

unfoldable pub charge : GpuRow → Elapsed → Totals
charge row unseen = totals_of row
charge row (missed elapsed) = totals_of row
charge row (counted from elapsed) = record {
  observed_seconds = row.observed_seconds + elapsed;
  busy_seconds = if row.busy then row.busy_seconds + elapsed else row.busy_seconds;
  user_seconds =
      if row.busy
      then add_user_seconds (parse_user_seconds row.user_seconds)
          (attributable_process_users row.last_processes) elapsed
      else parse_user_seconds row.user_seconds;
}

-- Who has the GPU and since when, and the event of the observation.
pub record Session : Type 0 where
  pub free_since : Option ℕ
  pub busy_since : Option ℕ
  pub last_user : Option String
  pub last_used : Option ℕ
  pub event : Option EventKind

abbrev pub session_of : GpuRow → Session
session_of row = record {
  free_since = row.free_since_ts;
  busy_since = row.busy_since_ts;
  last_user = row.last_user;
  last_used = row.last_used_ts;
  event = none;
}

-- `if observation_gap and busy == was_busy`
unfoldable pub after_missed : Bool → Bool → Bool → Option String → ℕ → Session → Session
after_missed false was_busy busy user_text ts session = session
after_missed true true true user_text ts session = record session {
  free_since = none;
  busy_since = some ts;
  last_user = user_text;
  last_used = some ts;
  event = some gap;
}
after_missed true false false user_text ts session = record session {
  free_since = some ts;
  busy_since = none;
  event = some gap;
}
after_missed true true false user_text ts session = session
after_missed true false true user_text ts session = session

abbrev pub is_some {ℓ} : {A : Type ℓ} → Option A → Bool
is_some none = false
is_some (some a) = true

-- `if user_text and user_text != last_user: ... elif not user_text and not same_process_cohort(...)`:
-- the user of a GPU that stays busy
unfoldable pub staying_user : List Process → List Process → Option String → Session → Session
staying_user previous processes (some user) session =
    if same_text (some user) session.last_user
    then session
    else record session { last_user = some user; event = some user_change }
staying_user previous processes none session =
    if same_process_cohort previous processes
    then session
    else if is_empty processes
        && (not (is_empty (confirmed_process_users previous)) && is_some session.last_user)
    then session
    else record session { last_user = none }

-- `old_user` is the last user of the stored row.
unfoldable pub after_transition :
    Bool
    → Bool
    → List Process
    → List Process
    → Option String
    → Option String
    → ℕ
    → Session
    → Session
unfolding staying_user
after_transition false true previous processes user_text old_user ts session = record session {
  free_since = none;
  busy_since = some ts;
  last_user = user_text;
  last_used = some ts;
  event = some busy_start;
}
after_transition true false previous processes user_text old_user ts session = record session {
  free_since = some ts;
  busy_since = none;
  last_user = elim user_text [ none ↦ old_user | some user ↦ some user ];
  last_used = some ts;
  event = some free_start;
}
after_transition true true previous processes user_text old_user ts session =
    let kept = staying_user previous processes user_text session in
    record kept { last_used = some ts }
after_transition false false previous processes user_text old_user ts session = session

abbrev pub is_missed : Elapsed → Bool
is_missed unseen = false
is_missed (counted from elapsed) = false
is_missed (missed elapsed) = true

abbrev pub note_of : Elapsed → Note
note_of unseen = no_note
note_of (counted from elapsed) = no_note
note_of (missed elapsed) = after_gap elapsed

-- The processes after owners have been carried over, which is done only while the GPU is busy.
abbrev pub known_processes : GpuRow → Gpu → Bool → List Process
known_processes row gpu busy =
    if busy then carry_verified_process_owners row.last_processes gpu.processes else gpu.processes

unfoldable pub next_session : GpuRow → Gpu → Bool → ℕ → Elapsed → Session
unfolding after_missed after_transition
next_session row gpu busy ts elapsed =
    let processes = known_processes row gpu busy in
    let user_text = user_text_of (confirmed_process_users processes) in
    after_transition row.busy busy row.last_processes processes user_text row.last_user ts
      (after_missed (is_missed elapsed) row.busy busy user_text ts (session_of row))

-- `event in ("busy_start", "free_start")`
abbrev pub is_start : Option EventKind → Bool
is_start (some busy_start) = true
is_start (some free_start) = true
is_start _ = false

-- The row of a later observation.
unfoldable pub next_gpu_row : GpuRow → Gpu → Bool → ℕ → Option ℕ → GpuRow
unfolding next_session charge elapsed_since
next_gpu_row row gpu busy ts max_gap =
    let elapsed = elapsed_since row.last_seen_ts ts max_gap in
    let session = next_session row gpu busy ts elapsed in
    let totals = charge row elapsed in
    record row {
      gpu_uuid = uuid_of gpu;
      gpu_name = gpu.name;
      active = true;
      busy = busy;
      last_seen_ts = some ts;
      last_transition_ts = if is_start session.event then ts else row.last_transition_ts;
      free_since_ts = session.free_since;
      busy_since_ts = session.busy_since;
      last_user = session.last_user;
      last_used_ts = session.last_used;
      last_processes = known_processes row gpu busy;
      last_memory_used = gpu.memory_used;
      last_memory_total = gpu.memory_total;
      observed_seconds = totals.observed_seconds;
      busy_seconds = totals.busy_seconds;
      user_seconds = totals.user_seconds;
    }
