-- ===== src/Store/Recorder/Runs.antt =====
-- Sequences of calls of Store.apply_host_payload and Store.mark_host.
use gpu_watch.Prelude.{ℕ, ◌≤◌, List, [], ◌∷◌}
use gpu_watch.Store.Host.History.{Mark}
use gpu_watch.Store.Recorder.{Recorder}
use gpu_watch.Store.Recorder.Payload.{HostPayload, mark, apply_host_payload}
use gpu_watch.Store.Recorder.Sound.{IsSound}
use gpu_watch.Store.Recorder.Calls.{
  state_after, later-IsSound, mark-IsSound, apply_host_payload-IsSound,
}

-- A call that changes the tables.
pub data Step : Type 0 where
  payload_step : HostPayload → Step
  mark_step : Mark → Step

unfoldable pub run_step : Step → Recorder → Recorder
run_step (payload_step payload) state = state_after state (apply_host_payload payload state)
run_step (mark_step m) state =
    mark m.host m.label m.online m.ts m.hostname m.driver_version m.error state

abbrev pub time_of : Step → ℕ
time_of (payload_step payload) = payload.ts
time_of (mark_step m) = m.ts

-- The calls, the first one first.
unfoldable pub run_steps : List Step → Recorder → Recorder
unfolding run_step
run_steps [] state = state
run_steps (step ∷ steps) state = run_steps steps (run_step step state)

-- The clock does not go back, from `now`.
abbrev pub IsOrdered : ℕ → List Step → Type 0
IsOrdered now [] = Unit
IsOrdered now (step ∷ steps) = (now ≤ time_of step) × IsOrdered (time_of step) steps

-- The time of the last call.
abbrev pub end_of : ℕ → List Step → ℕ
end_of now [] = now
end_of now (step ∷ steps) = end_of (time_of step) steps

-- Whatever payloads are applied, accepted or rejected, and whatever outcomes are reported for hosts,
-- the tables stay in order if they were and the clock does not go back.
pub run_steps-IsSound :
    (steps : List Step) (now : ℕ) (state : Recorder)
    → IsOrdered now steps
    → IsSound state now
    → IsSound (run_steps steps state) (end_of now steps)
unfolding run_steps
run_steps-IsSound [] now state order s = s
run_steps-IsSound (payload_step payload ∷ steps) now state order s =
    run_steps-IsSound steps payload.ts _ order.1
      (apply_host_payload-IsSound payload now state order.0 s)
run_steps-IsSound (mark_step m ∷ steps) now state order s = run_steps-IsSound steps m.ts _ order.1 (
    mark-IsSound m.host m.label m.online m.ts m.hostname m.driver_version m.error state
      (later-IsSound now m.ts state order.0 s))
