-- ===== src/Collector/Tick.antt =====
-- server.py, Collector.collect_tick: its GPU probes. The disk probes, and the pools that run the probes,
-- are outside. The monotonic clock is read once in a tick, and the store's clock too. `finished`
-- is what the futures that are done have given.
use gpu_watch.Prelude.{
  ℕ, zero, suc, ◌+◌, ◌-◌, max, Bool, true, false, not, ◌&&◌, Option, none, some, List, [], ◌∷◌,
  String, leb, if◌then◌else◌, length,
}
use gpu_watch.Prelude.Dict.{Dict, lookup, get_or, insert}
use gpu_watch.Collector.Handling.{
  HostConfig, Config, Collector, Tools, Probe, remove, consume_gpu_result,
}

-- A host's future: the host, and when it was started.
pub record Future : Type 0 where
  pub host : HostConfig
  pub started : ℕ

pub record Scheduler : Type 0 where
  pub collector : Collector
  pub gpu_futures : Dict Future

abbrev pub due_at : Collector → HostConfig → ℕ
due_at c host = get_or host.name 0 c.host_next_probe_at

abbrev pub is_running : Option Future → Bool
is_running none = false
is_running (some future) = true

-- One host put into the list sorted by when it is due, before those due at the same time.
unfoldable pub insert_due : Collector → HostConfig → List HostConfig → List HostConfig
insert_due c host [] = host ∷ []
insert_due c host (next ∷ hosts) =
    let rest = insert_due c host hosts in
    if leb (due_at c host) (due_at c next) then host ∷ next ∷ hosts else next ∷ rest

-- `sorted(..., key=...)` of the hosts that are due; sorting from the end keeps equal ones in order
unfoldable pub due_hosts : Collector → Dict Future → ℕ → List HostConfig → List HostConfig
unfolding insert_due
due_hosts c futures now [] = []
due_hosts c futures now (host ∷ hosts) =
    let rest = due_hosts c futures now hosts in
    if not (is_running (lookup host.name futures)) && leb (due_at c host) now
    then insert_due c host rest
    else rest

-- `due[:max(0, workers - len(futures))]`, each started
unfoldable pub start_hosts : ℕ → ℕ → List HostConfig → Dict Future → Dict Future
start_hosts zero now hosts futures = futures
start_hosts (suc slots) now [] futures = futures
start_hosts (suc slots) now (host ∷ hosts) futures =
    start_hosts slots now hosts (insert host.name (record { host = host; started = now }) futures)

module _ (tools : Tools) (config : Config) (stopping : Bool) (now ts : ℕ) where
  -- A future that is done: its result is consumed, and the host's next probe set.
  unfoldable pub finish_future : String → Future → Scheduler → Option Probe → Scheduler
  unfolding consume_gpu_result remove
  finish_future name future s none = s
  finish_future name future s (some probe) =
      let c = consume_gpu_result tools config future.host stopping probe now ts s.collector in
      let next =
        max (max (get_or name 0 c.host_next_probe_at) (future.started + config.poll_interval))
          (now + 1000) in
      record {
        collector = record c { host_next_probe_at = insert name next c.host_next_probe_at };
        gpu_futures = remove name s.gpu_futures;
      }

  -- The loop over a copy of the futures.
  unfoldable pub drain : Dict Probe → Dict Future → Scheduler → Scheduler
  unfolding finish_future lookup
  drain finished [] s = s
  drain finished ((name, future) ∷ futures) s =
      drain finished futures (finish_future name future s (lookup name finished))

  unfoldable pub collect_tick : ℕ → List HostConfig → Dict Probe → Scheduler → Scheduler
  unfolding drain due_hosts start_hosts
  collect_tick workers hosts finished s =
      let drained = drain finished s.gpu_futures s in
      if stopping then drained else record drained {
        gpu_futures =
            start_hosts (workers - length drained.gpu_futures) now
              (due_hosts drained.collector drained.gpu_futures now hosts) drained.gpu_futures;
      }
