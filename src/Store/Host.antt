-- ===== src/Store/Host.antt =====
-- server.py, Store._mark_host: the table host_runtime and the events host_down and host_recovered.
-- The columns gpu_errors_json, usable_gpu_indices_json and gpu_health_json are reset to constants by
-- every call and are left out. Redaction of the error text is done before the call.
pub mod History
use gpu_watch.Prelude.{
  ℕ, ◌+◌, Bool, true, false, not, Option, none, some, List, [], ◌∷◌, ◌++◌, String, if◌then◌else◌,
}
use gpu_watch.Prelude.Dict.{Dict, lookup, insert}
use gpu_watch.Text.{clean_text, or_none}
use gpu_watch.Collection.{event_cause}
use gpu_watch.Store.Events.{Event, host_down, host_recovered, details}

pub record HostRow : Type 0 where
  pub label : String
  pub online : Bool
  pub hostname : Option String
  pub driver_version : Option String
  pub last_seen_ts : Option ℕ
  pub last_error_ts : Option ℕ
  pub last_error : Option String
  pub consecutive_failures : ℕ

-- The host table by its primary key, and the events, oldest first.
pub record HostState : Type 0 where
  pub hosts : Dict HostRow
  pub events : List Event

-- `coalesce(new, old)`
abbrev pub coalesce {ℓ} : {A : Type ℓ} → Option A → Option A → Option A
coalesce none old = old
coalesce (some a) old = some a

abbrev pub column_of {ℓ} : {A : Type ℓ} → Option HostRow → (HostRow → Option A) → Option A
column_of none column = none
column_of (some row) column = column row

-- `0 if online else (row.consecutive_failures + 1 if row else 1)`
abbrev pub next_failures : Option HostRow → Bool → ℕ
next_failures row true = 0
next_failures none false = 1
next_failures (some row) false = row.consecutive_failures + 1

-- The row after the upsert.
unfoldable pub next_row :
    Option HostRow → String → Bool → ℕ → Option String → Option String → Option String → HostRow
next_row row label online ts hostname driver_version error = record {
  label = label;
  online = online;
  hostname = coalesce (or_none (clean_text hostname 255)) (column_of row (λ r. r.hostname));
  driver_version =
      coalesce (or_none (clean_text driver_version 256)) (column_of row (λ r. r.driver_version));
  last_seen_ts = if online then some ts else column_of row (λ r. r.last_seen_ts);
  last_error_ts = if online then none else some ts;
  last_error = if online then none else error;
  consecutive_failures = next_failures row online;
}

-- `(row is None and not online) or (row is not None and bool(row["online"]) != online)`
abbrev pub is_transition : Option HostRow → Bool → Bool
is_transition none online = not online
is_transition (some row) true = not row.online
is_transition (some row) false = row.online

abbrev pub failures_of : Option HostRow → ℕ
failures_of none = 0
failures_of (some row) = row.consecutive_failures

abbrev pub transition_event : Option HostRow → String → Bool → ℕ → Option String → Event
transition_event row host online ts error = record {
  ts = ts;
  host = host;
  gpu_index = none;
  event = if online then host_recovered else host_down;
  users = none;
  note =
      if online
      then details (event_cause (column_of row (λ r. r.last_error)) false) (failures_of row)
      else details (event_cause error false) (next_failures row false);
}

unfoldable pub mark_host :
    String
    → String
    → Bool
    → ℕ
    → Option String
    → Option String
    → Option String
    → HostState
    → HostState
unfolding next_row
mark_host host label online ts hostname driver_version error state =
    let row = lookup host state.hosts in
    record {
      hosts = insert host (next_row row label online ts hostname driver_version error) state.hosts;
      events =
          if is_transition row online
          then state.events ++ transition_event row host online ts error ∷ []
          else state.events;
    }
