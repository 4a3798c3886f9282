-- ===== src/Collector/Workers.antt =====
-- A tick never has more probes under way than there are workers.
use gpu_watch.Prelude.{
  ℕ, zero, suc, ◌+◌, ◌-◌, ◌≤◌, arith, Bool, true, false, Option, none, some, List, [], ◌∷◌, String,
  if◌then◌else◌, length, length-filter-le,
}
use gpu_watch.Prelude.Dict.{Dict, lookup, insert}
use gpu_watch.Collector.Handling.{HostConfig, Config, Tools, Probe, remove}
use gpu_watch.Collector.Tick.{
  Future, Scheduler, due_hosts, start_hosts, finish_future, drain, collect_tick,
}

length-insert :
    (name : String) (future : Future) (futures : Dict Future)
    → length (insert name future futures) ≤ suc (length futures)
unfolding insert
length-insert name future [] = omega arith
length-insert name future ((other, f) ∷ futures) = ground (arith, length-insert name future futures)

length-start_hosts :
    (slots now : ℕ) (hosts : List HostConfig) (futures : Dict Future)
    → length (start_hosts slots now hosts futures) ≤ length futures + slots
unfolding start_hosts
length-start_hosts zero now hosts futures = omega arith
length-start_hosts (suc slots) now [] futures = omega arith
length-start_hosts (suc slots) now (host ∷ hosts) futures =
    let future : Future = record { host = host; started = now } in
    omega (
      arith,
      length-start_hosts slots now hosts (insert host.name future futures),
      length-insert host.name future futures,
    )

module _ (tools : Tools) (config : Config) (stopping : Bool) (now ts : ℕ) where
  length-finish_future :
      (name : String) (future : Future) (s : Scheduler) (probe : Option Probe)
      → length (finish_future tools config stopping now ts name future s probe).gpu_futures
        ≤ length s.gpu_futures
  unfolding finish_future
  length-finish_future name future s none = omega arith
  length-finish_future name future s (some probe) =
      unfold remove in length-filter-le _ s.gpu_futures

  length-drain :
      (finished : Dict Probe) (futures : Dict Future) (s : Scheduler)
      → length (drain tools config stopping now ts finished futures s).gpu_futures
        ≤ length s.gpu_futures
  unfolding drain
  length-drain finished [] s = omega arith
  length-drain finished ((name, future) ∷ futures) s =
      let next = finish_future tools config stopping now ts name future s (lookup name finished) in
      omega (
        arith,
        length-drain finished futures next,
        length-finish_future name future s (lookup name finished),
      )

  -- After a tick at most `workers` probes are under way, whatever hosts are due, if no more were before.
  pub collect_tick-le-workers :
      (workers : ℕ) (hosts : List HostConfig) (finished : Dict Probe) (s : Scheduler)
      → length s.gpu_futures ≤ workers
      → length (collect_tick tools config stopping now ts workers hosts finished s).gpu_futures
        ≤ workers
  unfolding collect_tick
  collect_tick-le-workers workers hosts finished s h =
      let drained = drain tools config stopping now ts finished s.gpu_futures s in
      let fewer : length drained.gpu_futures ≤ length s.gpu_futures =
        length-drain finished s.gpu_futures s in
      go drained (omega (arith, fewer)) stopping
    where
      go :
          (drained : Scheduler)
          → length drained.gpu_futures ≤ workers
          → (b : Bool)
          → length
              (if b then drained else record drained {
                gpu_futures =
                    start_hosts
                      (workers - length drained.gpu_futures)
                      now
                      (due_hosts drained.collector drained.gpu_futures now hosts)
                      drained.gpu_futures;
              }).gpu_futures
            ≤ workers
      go drained few true = few
      go drained few false = omega (
        arith,
        length-start_hosts (workers - length drained.gpu_futures) now
            (due_hosts drained.collector drained.gpu_futures now hosts) drained.gpu_futures,
      )
