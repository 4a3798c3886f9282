-- ===== src/Guards/Failures.antt =====
-- The failures that the Handler's auth_failure_budget_allowed counts, and what its
-- record_auth_failure leaves in the limiter's table.
use gpu_watch.Prelude.{
  ℕ, ◌<◌, true, false, List, [], ◌∷◌, ◌++◌, some, String, ◌≡◌, ◌≢◌, refl, sym, ap, ◌∙◌, arith,
  eq_iff, length, str_eq,
}
use gpu_watch.Prelude.Dict.{
  lookup, insert, get_or, lookup-insert, lookup-insert_self, lookup-insert_ne, Distinct,
  insert-Distinct,
}
use gpu_watch.Text.{take_text}
use gpu_watch.Redaction.{append}
use gpu_watch.Limiter.{Hits, prune, pruned, check}
use gpu_watch.Limiter.Deque.{Sorted, prune-Sorted}
use gpu_watch.Limiter.Recording.{lookup-record_hit, lookup-record_hit_ne, pruned-record_hit_ne}
use gpu_watch.Guards.{Net}
use gpu_watch.Guards.Requests.{
  auth_failure_window, Request, Site, subnet_key, global_key, auth_failure_budget_allowed,
  record_auth_failure,
}

prune_idempotent :
    (ts window : ℕ) (hits : List ℕ) → prune ts window (prune ts window hits) ≡ prune ts window hits
unfolding prune
prune_idempotent ts window [] = refl
prune_idempotent ts window (hit ∷ hits) = ground (arith, prune_idempotent ts window hits)

-- A check of one key leaves the live hits of every key.
pub pruned-check :
    (key other : String) (ts window : ℕ) (hits : Hits)
    → pruned ts window other (insert key (pruned ts window key hits) hits)
      ≡ pruned ts window other hits
unfolding pruned
pruned-check key other ts window hits = ground (
  arith,
  lookup-insert key other (prune ts window (get_or key [] hits)) hits,
  eq_iff key other,
  prune_idempotent ts window (get_or key [] hits),
)

module _ (net : Net) (site : Site) (request : Request) where
  -- The failures of a key that the limiter's table holds from the hour before a request.
  abbrev pub failures_of : String → Hits → List ℕ
  failures_of key hits = pruned request.ts auth_failure_window key hits

  abbrev pub subnet_failures : Hits → ℕ
  subnet_failures hits = length (failures_of (subnet_key net site request) hits)

  abbrev pub global_failures : Hits → ℕ
  global_failures hits = length (failures_of (global_key net site) hits)

  -- The table `after` has, for a key, its failures in `hits` and one more at the time of the request.
  abbrev pub HasFailed : String → Hits → Hits → Type 0
  HasFailed key hits after = lookup key after ≡ some (failures_of key hits ++ request.ts ∷ [])

  -- What is left of a key after the budget is checked is what was left before.
  budget-pruned :
      (key : String) (hits : Hits)
      → failures_of key (auth_failure_budget_allowed net site request hits).0 ≡ failures_of key hits
  unfolding auth_failure_budget_allowed check
  budget-pruned key hits =
      let subnet = subnet_key net site request in
      pruned-check (global_key net site) key request.ts auth_failure_window
        (insert subnet (failures_of subnet hits) hits)
      ∙ pruned-check subnet key request.ts auth_failure_window hits

  -- The two keys of a failure are different.
  subnet-ne-global : subnet_key net site request ≢ global_key net site
  unfolding append take_text
  subnet-ne-global same =
      let differ : false ≡ true = ap (λ key. str_eq (take_text 14 key) "auth-failure:g") same in
      absurd cc

  record_auth_failure_lem :
      (hits : Hits)
      → Distinct hits
      → Sorted (get_or (global_key net site) [] hits)
      → HasFailed (subnet_key net site request) hits (record_auth_failure net site request hits)
        × HasFailed (global_key net site) hits (record_auth_failure net site request hits)
  unfolding record_auth_failure
  record_auth_failure_lem hits distinct sorted =
      let positive : 0 < auth_failure_window = omega arith in
      let subnet = subnet_key net site request in
      let all = global_key net site in
      let first = lookup-record_hit subnet auth_failure_window request.ts hits positive in
      (
        lookup-record_hit_ne all auth_failure_window request.ts _ subnet (failures_of subnet hits)
            positive (λ same. subnet-ne-global (sym same)) first,
        lookup-record_hit all auth_failure_window request.ts _ positive
            ∙ ap (λ kept. some (kept ++ request.ts ∷ []))
                (pruned-record_hit_ne subnet auth_failure_window request.ts hits all
                  subnet-ne-global distinct sorted),
      )

  -- A failure after the check of the budget is recorded under both keys.
  pub record_after_budget :
      (hits : Hits)
      → Distinct hits
      → Sorted (get_or (global_key net site) [] hits)
      → let after =
          record_auth_failure net site request
            (auth_failure_budget_allowed net site request hits).0 in
        HasFailed (subnet_key net site request) hits after
        × HasFailed (global_key net site) hits after
  unfolding auth_failure_budget_allowed check
  record_after_budget hits distinct sorted =
      let subnet = subnet_key net site request in
      let all = global_key net site in
      let counted = insert subnet (failures_of subnet hits) hits in
      let facts =
        record_auth_failure_lem (auth_failure_budget_allowed net site request hits).0
          (insert-Distinct all _ counted (insert-Distinct subnet _ hits distinct))
          (rw (lookup-insert_self all (failures_of all counted) counted, get_or)
            (unfold pruned in
              prune-Sorted request.ts auth_failure_window (get_or all [] counted) (
                rw
                  (
                    lookup-insert_ne subnet all (failures_of subnet hits) hits subnet-ne-global,
                    get_or,
                  )
                  sorted))) in
      let same : (key : String)
          → some (failures_of key _ ++ request.ts ∷ [])
            ≡ some (failures_of key hits ++ request.ts ∷ []) =
        λ key. ap (λ kept. some (kept ++ request.ts ∷ [])) (budget-pruned key hits) in
      (facts.0 ∙ same subnet, facts.1 ∙ same all)
