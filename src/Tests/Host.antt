-- ===== src/Tests/Host.antt =====
-- Runs of server.py, Store._mark_host.
use gpu_watch.Prelude.{ℕ, Bool, true, false, Option, none, some, ◌≡◌, refl, String, List, [], ◌∷◌}
use gpu_watch.Prelude.Dict.{lookup, insert}
use gpu_watch.Store.Events.{host_down, host_recovered}
use gpu_watch.Store.Host.{mark_host}
use gpu_watch.Store.Host.History.{
  Mark, apply_mark, run_marks, outcomes, changes, RowFits, host_kinds, run_marks-fits,
}

abbrev mark : String → Bool → ℕ → Mark
mark host online ts = record {
  host = host;
  label = host;
  online = online;
  ts = ts;
  hostname = none;
  driver_version = none;
  error = if_failed online;
}
  where
    if_failed : Bool → Option String
    if_failed true = none
    if_failed false = some "SSH exit 255: connection refused"

-- The newest first: a success, two failures, another host's failure, a success, a failure.
abbrev marks : List Mark
marks =
    mark "gpu01" true 60
    ∷ mark "gpu01" false 50
    ∷ mark "gpu01" false 40
    ∷ mark "gpu02" false 30
    ∷ mark "gpu01" true 20
    ∷ mark "gpu01" false 10
    ∷ []

marks_run :
    host_kinds "gpu01" (run_marks marks).events
    ≡ host_down ∷ host_recovered ∷ host_down ∷ host_recovered ∷ []
unfolding run_marks apply_mark mark_host insert lookup
marks_run = refl

run_marks-fits_example :
    RowFits (lookup "gpu01" (run_marks marks).hosts) (outcomes "gpu01" marks)
    × (host_kinds "gpu01" (run_marks marks).events ≡ changes (outcomes "gpu01" marks))
run_marks-fits_example = run_marks-fits "gpu01" marks
