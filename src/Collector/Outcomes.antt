-- ===== src/Collector/Outcomes.antt =====
-- What handle_payload leaves behind: a host that is published, or one more failure.
use gpu_watch.Prelude.{
  ℕ, ◌≡◌, refl, sym, ap, ◌⊎◌, inl, inr, subst, arith, true, Option, none, some, List, [], ◌∷◌,
  String, Bool-cases, ltb, length,
}
use gpu_watch.Prelude.Dict.{Dict, lookup}
use gpu_watch.Json.{
  Json, null, bool, int, float, str, array, object, Fields, find_field, get, items_of, is_truthy,
}
use gpu_watch.Store.Gpu.{Gpu}
use gpu_watch.Collector.ErrorMap.{max_gpus_per_host, sanitize_gpu_errors}
use gpu_watch.Collector.Readings.{Checked, raised, done, normalize, expected_inventory}
use gpu_watch.Collector.Inventory.{
  WhenDone, AreChecked, IsExpected, normalize-AreChecked, expected_inventory-IsExpected,
}
use gpu_watch.Collector.Handling.{
  HostConfig, Config, Collector, Tools, remove, fail, error_of, accept_published, publish_readings,
  with_disk, with_readings, checked_inventory, with_errors, with_expected, with_gpus,
  handle_payload,
}
use gpu_watch.Collector.Passing.{IsExact, Published, apply-accepted}

lookup-remove {ℓ} : {V : Type ℓ} (key : String) (d : Dict V) → lookup key (remove key d) ≡ none
unfolding lookup remove
lookup-remove key [] = refl
lookup-remove key ((name, v) ∷ d) = ground (arith, lookup-remove key d)

-- What an observation that is published leaves: the store of the observation, and a host that is on
-- schedule.
pub record IsPublished (host : HostConfig) (before after : Collector) : Type 0 where
  pub expected : ℕ
  pub configured : host.expected_gpu_count ≡ some expected
  pub active : Published host.name expected before.store after.store
  pub recovered : lookup host.name after.host_failures ≡ none
  pub on_schedule : lookup host.name after.host_next_probe_at ≡ none
  pub silent : after.audits ≡ before.audits

-- What becomes of a payload that raises no error: it is published, if it is ok and names no GPU in
-- error, or it is a failure of the host.
abbrev pub HasOutcome :
    Tools → Config → HostConfig → Fields → ℕ → ℕ → Collector → Collector → Type 0
HasOutcome tools config host payload now ts before after =
    ((is_truthy (get "ok" payload) ≡ true)
      × (sanitize_gpu_errors tools.python tools.regex (get "gpu_errors" payload) ≡ some [])
      × IsPublished host before after)
    ⊎ ((error : String) × (after ≡ fail tools config host error now ts before))

checked_inventory_lem :
    (tools : Tools) (config : Config) (host : HostConfig) (count expected : ℕ)
    (gpus : Checked (List Gpu))
    → WhenDone (AreChecked []) gpus
    → WhenDone
        (λ kept. AreChecked [] kept × IsExpected expected kept)
        (checked_inventory tools config host count expected gpus)
unfolding checked_inventory
checked_inventory_lem tools config host count expected (raised error) own = own
checked_inventory_lem tools config host count expected (done gpus) checked =
    go (expected_inventory count expected gpus) (expected_inventory-IsExpected count expected gpus)
  where
    go :
        (r : Checked (List Gpu))
        → WhenDone (λ kept. (kept ≡ gpus) × IsExpected expected kept) r
        → WhenDone (λ kept. AreChecked [] kept × IsExpected expected kept) r
    go (raised error) own = own
    go (done kept) h = (subst (AreChecked []) (sym h.0) checked, h.1)

module _ (tools : Tools) (exact : IsExact tools.python) (config : Config) (host : HostConfig)
    (payload : Fields) (expected : ℕ) (configured : host.expected_gpu_count ≡ some expected)
    (ts : ℕ) (c : Collector) where
  publish_readings_lem :
      (disk : Option String) (gpus : List Gpu)
      → AreChecked [] gpus
      → IsExpected expected gpus
      → WhenDone
          (IsPublished host c)
          (publish_readings tools config host payload expected disk gpus ts c)
  unfolding publish_readings
  publish_readings_lem disk gpus checked whole =
      let (after, taken, active) =
        apply-accepted tools exact config host payload expected disk gpus ts c.store checked.usable
          checked.distinct whole in
      subst (WhenDone (IsPublished host c)) (sym (ap (accept_published tools config host c) taken))
        record {
          expected = expected;
          configured = configured;
          active = active;
          recovered = lookup-remove host.name c.host_failures;
          on_schedule = lookup-remove host.name c.host_next_probe_at;
          silent = refl;
        }

  with_disk_lem :
      (gpus : List Gpu) (disk : Option Json)
      → AreChecked [] gpus
      → IsExpected expected gpus
      → WhenDone (IsPublished host c) (with_disk tools config host payload expected gpus ts c disk)
  unfolding with_disk
  with_disk_lem gpus none checked whole = publish_readings_lem none gpus checked whole
  with_disk_lem gpus (some (object disk)) checked whole =
      publish_readings_lem (some _) gpus checked whole
  with_disk_lem gpus (some null) checked whole = λ reason same. cc
  with_disk_lem gpus (some (bool b)) checked whole = λ reason same. cc
  with_disk_lem gpus (some (int z)) checked whole = λ reason same. cc
  with_disk_lem gpus (some (float s)) checked whole = λ reason same. cc
  with_disk_lem gpus (some (str s)) checked whole = λ reason same. cc
  with_disk_lem gpus (some (array values)) checked whole = λ reason same. cc

  with_readings_lem :
      (gpus : Checked (List Gpu))
      → WhenDone (λ kept. AreChecked [] kept × IsExpected expected kept) gpus
      → WhenDone (IsPublished host c) (with_readings tools config host payload expected ts c gpus)
  unfolding with_readings
  with_readings_lem (raised error) own = own
  with_readings_lem (done gpus) h = with_disk_lem gpus (find_field "disk" payload) h.0 h.1

  with_errors_lem :
      (raws : List Json) (now : ℕ) (errors : Option (List (ℕ × String)))
      → is_truthy (get "ok" payload) ≡ true
      → sanitize_gpu_errors tools.python tools.regex (get "gpu_errors" payload) ≡ errors
      → WhenDone
          (HasOutcome tools config host payload now ts c)
          (with_errors tools config host payload raws expected now ts c errors)
  unfolding with_errors
  with_errors_lem raws now none ok e = λ reason same. cc
  with_errors_lem raws now (some ((i, error) ∷ errors)) ok e =
      inr (error_of tools config host (str error), refl)
  with_errors_lem raws now (some []) ok e = lift _ published
    where
      published : WhenDone (IsPublished host c) (
          with_readings tools config host payload expected ts c (
            checked_inventory tools config host
              (length raws)
              expected
              (normalize tools.python tools.regex [] raws)))
      published = with_readings_lem _ (
          checked_inventory_lem tools config host (length raws) expected
            (normalize tools.python tools.regex [] raws)
            (normalize-AreChecked tools.python tools.regex [] raws))

      lift :
          (r : Checked Collector)
          → WhenDone (IsPublished host c) r
          → WhenDone (HasOutcome tools config host payload now ts c) r
      lift (raised error) own = own
      lift (done after) h = inl (ok, e, h)

module _ (tools : Tools) (exact : IsExact tools.python) (config : Config) (host : HostConfig)
    (payload : Fields) (now ts : ℕ) (c : Collector) where
  with_expected_lem :
      (raws : List Json) (expected : Option ℕ)
      → is_truthy (get "ok" payload) ≡ true
      → host.expected_gpu_count ≡ expected
      → WhenDone
          (HasOutcome tools config host payload now ts c)
          (with_expected tools config host payload raws now ts c expected)
  unfolding with_expected
  with_expected_lem raws none ok configured = λ reason same. cc
  with_expected_lem raws (some expected) ok configured =
      with_errors_lem tools exact config host payload expected configured ts c raws now
        (sanitize_gpu_errors tools.python tools.regex (get "gpu_errors" payload)) ok refl

  with_gpus_lem :
      (gpus : Json)
      → is_truthy (get "ok" payload) ≡ true
      → WhenDone
          (HasOutcome tools config host payload now ts c)
          (with_gpus tools config host payload now ts c gpus)
  unfolding with_gpus
  with_gpus_lem (array values) ok =
      elim (Bool-cases (ltb max_gpus_per_host (length (items_of values)))) [
        | inl e ↦ rw e (λ reason same. cc)
        | inr e ↦ rw e (with_expected_lem (items_of values) host.expected_gpu_count ok refl)
      ]
  with_gpus_lem null ok = λ reason same. cc
  with_gpus_lem (bool b) ok = λ reason same. cc
  with_gpus_lem (int z) ok = λ reason same. cc
  with_gpus_lem (float s) ok = λ reason same. cc
  with_gpus_lem (str s) ok = λ reason same. cc
  with_gpus_lem (object fields) ok = λ reason same. cc

  -- Every payload raises an error of its own, none of the store's, or is published, if it is ok and
  -- names no GPU in error, or is a failure of its host. Published, it leaves the GPUs below the expected
  -- count, and no others, as the host's active ones, those of other hosts as they were, and the host
  -- without failures and without a delay.
  pub handle_payload-HasOutcome :
      WhenDone
        (HasOutcome tools config host payload now ts c)
        (handle_payload tools config host payload now ts c)
  unfolding handle_payload
  handle_payload-HasOutcome = elim (Bool-cases (is_truthy (get "ok" payload))) [
    | inl ok ↦ rw ok (with_gpus_lem (get "gpus" payload) ok)
    | inr e ↦ rw e (inr (error_of tools config host (get "error" payload), refl))
  ]
