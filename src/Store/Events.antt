-- ===== src/Store/Events.antt =====
-- server.py, the table events: the rows that the recorder writes.
use gpu_watch.Prelude.{ℕ, Option, String}
use gpu_watch.Collection.{Cause}

pub data EventKind : Type 0 where
  busy_start free_start user_change gap hardware_change host_down host_recovered : EventKind

-- The note column: `None`, a fixed text, "after observation gap" and its length, or the JSON details
-- of a host event.
pub data Note : Type 0 where
  no_note : Note
  text : String → Note
  after_gap : ℕ → Note
  details : Cause → ℕ → Note

pub record Event : Type 0 where
  pub ts : ℕ
  pub host : String
  pub gpu_index : Option ℕ
  pub event : EventKind
  pub users : Option String
  pub note : Note
