-- ===== src/Collector/Delays.antt =====
-- How failures delay a host's next probe.
use Prim.Native.Nat.{◌^◌}
use native.Mathlib.Nat.{one-le-pow}
use gpu_watch.Prelude.{
  ℕ, suc, ◌+◌, ◌-◌, ◌*◌, ◌≤◌, min, ◌≡◌, refl, ap, ◌∙◌, inl, inr, arith, some, leb, List, [], ◌∷◌,
  Option, length, length-append, String, Bool-cases, if◌then◌else◌,
}
use gpu_watch.Prelude.Dict.{lookup, insert, get_or, lookup-insert_self}
use gpu_watch.Store.Recorder.Payload.{mark}
use gpu_watch.Collector.Handling.{HostConfig, Config, Collector, Tools, backoff, fail}

-- The delay is at most a minute, and at least the polling interval or a minute.
pub backoff_bounds :
    (poll_interval failures : ℕ)
    → (min 60000 poll_interval ≤ backoff poll_interval failures)
      × (backoff poll_interval failures ≤ 60000)
unfolding backoff
backoff_bounds poll_interval failures =
    let factor = 2 ^ min 5 (failures - 3) in
    let positive : 1 ≤ factor = one-le-pow (min 5 (failures - 3)) 2 (omega arith) in
    let longer : poll_interval ≤ poll_interval * factor = grind arith in (omega arith, omega arith)

-- The lines of the log that `n` failures in a row write.
unfoldable pub lines : ℕ → ℕ
lines n = (if leb 1 n then 1 else 0) + (if leb 3 n then 1 else 0)

-- The schedule of a host after its failures, given the one before.
abbrev pub Delayed : ℕ → ℕ → ℕ → Option ℕ → Option ℕ → Type 0
Delayed now poll_interval failures before after =
    if leb 3 failures
    then ((next : ℕ) × (after ≡ some next)
        × (now + min 60000 poll_interval ≤ next)
        × (next ≤ now + 60000))
    else (after ≡ before)

no_lines : lines 0 ≡ 0
unfolding lines
no_lines = refl

few_lines : (n : ℕ) → lines n ≤ 2
unfolding lines
few_lines n = ground arith

module _ (tools : Tools) (config : Config) (host : HostConfig) where
  -- Failures in a row, each with its error and its times.
  unfoldable pub fail_all : List (String × ℕ × ℕ) → Collector → Collector
  fail_all [] c = c
  fail_all ((error, now, ts) ∷ probes) c = fail_all probes (fail tools config host error now ts c)

  abbrev pub failures_in : Collector → ℕ
  failures_in c = get_or host.name 0 c.host_failures

  failures_in-fail :
      (error : String) (now ts : ℕ) (c : Collector)
      → failures_in (fail tools config host error now ts c) ≡ failures_in c + 1
  unfolding fail
  failures_in-fail error now ts c =
      rw (lookup-insert_self host.name (failures_in c + 1) c.host_failures) refl

  audits-fail :
      (error : String) (now ts : ℕ) (c : Collector)
      → length (fail tools config host error now ts c).audits + lines (failures_in c)
        ≡ length c.audits + lines (failures_in c + 1)
  unfolding fail lines
  audits-fail error now ts c =
      ground (arith, length-append c.audits ((host.name, failures_in c + 1) ∷ []))

  fail_all_lem :
      (probes : List (String × ℕ × ℕ)) (c : Collector) (before : ℕ)
      → failures_in c ≡ before
      → (failures_in (fail_all probes c) ≡ before + length probes)
        × (length (fail_all probes c).audits + lines before
            ≡ length c.audits + lines (before + length probes))
  unfolding fail_all
  fail_all_lem [] c before h =
      let same : before + 0 ≡ before = omega arith in (omega arith, omega (arith, ap lines same))
  fail_all_lem ((error, now, ts) ∷ probes) c before h =
      let next = fail tools config host error now ts c in
      let counted : failures_in next ≡ before + 1 =
        failures_in-fail error now ts c ∙ ap (λ (n : ℕ). n + 1) h in
      let rest = fail_all_lem probes next (before + 1) counted in
      let same : before + 1 + length probes ≡ before + suc (length probes) = omega arith in
      (
        rest.0 ∙ same,
        omega (
          arith,
          rest.1,
          audits-fail error now ts c,
          ap lines same,
          ap lines h,
          ap (λ (n : ℕ). lines (n + 1)) h,
        ),
      )

  -- Failures in a row are counted one by one. From a host without failures they write one line to the
  -- log at the first and one at the third, however many follow.
  pub fail_all-counts :
      (probes : List (String × ℕ × ℕ)) (c : Collector)
      → failures_in c ≡ 0
      → (failures_in (fail_all probes c) ≡ length probes)
        × (length (fail_all probes c).audits ≡ length c.audits + lines (length probes))
        × (length (fail_all probes c).audits ≤ length c.audits + 2)
  fail_all-counts probes c h =
      let (counted, written) = fail_all_lem probes c 0 h in
      let same : 0 + length probes ≡ length probes = omega arith in
      let total : length (fail_all probes c).audits ≡ length c.audits + lines (length probes) =
        omega (arith, written, ap lines same, no_lines) in
      (omega (arith, counted), total, omega (arith, total, few_lines (length probes)))

  -- A failure changes no GPU, no interval and no disk. The third failure in a row and each one after it
  -- delay the next probe, by the polling interval or a minute at least and by a minute at most; the
  -- first two leave the schedule as it is.
  pub fail-delays :
      (error : String) (now ts : ℕ) (c : Collector)
      → ((fail tools config host error now ts c).store.gpus ≡ c.store.gpus)
        × ((fail tools config host error now ts c).store.usage ≡ c.store.usage)
        × ((fail tools config host error now ts c).store.capacity ≡ c.store.capacity)
        × ((fail tools config host error now ts c).store.disks ≡ c.store.disks)
        × Delayed now config.poll_interval
            (failures_in c + 1)
            (lookup host.name c.host_next_probe_at)
            (lookup host.name (fail tools config host error now ts c).host_next_probe_at)
  unfolding fail mark
  fail-delays error now ts c = (refl, refl, refl, refl, delayed)
    where
      delayed :
          Delayed now config.poll_interval
            (failures_in c + 1)
            (lookup host.name c.host_next_probe_at)
            (lookup host.name (
              if leb 3 (failures_in c + 1)
              then insert host.name
                  (now + backoff config.poll_interval (failures_in c + 1))
                  c.host_next_probe_at
              else c.host_next_probe_at))
      delayed = elim (Bool-cases (leb 3 (failures_in c + 1))) [
        | inl e ↦
            let bounds = backoff_bounds config.poll_interval (failures_in c + 1) in
            rw e (
              now + backoff config.poll_interval (failures_in c + 1),
              lookup-insert_self host.name _ c.host_next_probe_at,
              omega (arith, bounds.0),
              omega (arith, bounds.1),
            )
        | inr e ↦ rw e refl
      ]
