-- ===== src/Guards/Admins.antt =====
-- What lets an administrator in, and what keeps everyone out.
use gpu_watch.Prelude.{
  ℕ, ◌+◌, ◌-◌, ◌<◌, Bool, true, false, not, ◌&&◌, ◌||◌, Option, none, some, List, [], String, ◌≡◌,
  ◌≢◌, refl, sym, ap, ◌∙◌, inl, inr, arith, Bool-cases, ltb, ◌==◌, str_eq, length,
}
use gpu_watch.Prelude.Dict.{Distinct, get_or, lookup}
use gpu_watch.Limiter.{Hits, check}
use gpu_watch.Limiter.Deque.{Sorted}
use gpu_watch.Passphrase.{Crypto, is_valid_pin, hash_needs_upgrade, verify_passphrase}
use gpu_watch.Guards.{Net}
use gpu_watch.Guards.Failures.{
  subnet_failures, global_failures, pruned-check, HasFailed, record_after_budget,
}
use gpu_watch.Guards.Requests.{
  auth_failure_window, Request, Site, Server, Answer, granted, denied, failed, subnet_key,
  global_key, auth_failure_budget_allowed, record_auth_failure, upgrade, finish_attempt, attempt,
  after_budget, with_hash, admin_allowed,
}

status : Answer → ℕ
status granted = 200
status (denied n) = n
status failed = 500

-- A refusal with another status is no 403.
denied-ne-denied : (n : ℕ) → n ≢ 403 → denied n ≢ denied 403
unfolding status
denied-ne-denied n h same = h (ap status same)

module _ (net : Net) (site : Site) (crypto : Crypto) (request : Request) where
  budget_lem :
      (hits : Hits)
      → (auth_failure_budget_allowed net site request hits).1 ≡ (
          ltb (subnet_failures net site request hits) 10
          && ltb (global_failures net site request hits) 20)
  unfolding auth_failure_budget_allowed check
  budget_lem hits =
      ap
        (λ (recent : List ℕ).
          ltb (subnet_failures net site request hits) 10 && ltb (length recent) 20)
        (pruned-check (subnet_key net site request) (global_key net site) request.ts
          auth_failure_window hits)

  upgrade-permits :
      (pin encoded upgraded : String) (server : Server)
      → ((upgrade net site crypto pin encoded upgraded server).0.permits ≡ server.permits)
        × ((upgrade net site crypto pin encoded upgraded server).1 ≢ denied 403)
  unfolding upgrade
  upgrade-permits pin encoded upgraded server =
      elim (Bool-cases (not (hash_needs_upgrade crypto encoded) || server.hash_from_environment)) [
        | inl e ↦ rw e (refl, λ same. cc)
        | inr e ↦ rw e (elim (Bool-cases (is_valid_pin pin)) [
          | inl valid ↦ rw valid (refl, λ same. cc)
          | inr long ↦ rw long (refl, λ same. cc)
        ])
      ]

  -- What a check of the PIN gives, from the state in which it is made.
  abbrev pub IsAttempt : String → String → Server → Server × Answer → Type 0
  IsAttempt pin encoded server (after, answer) =
      (after.permits ≡ server.permits)
      × (answer ≡ granted
          → (verify_passphrase crypto (some pin) (some encoded) ≡ true) × (0 < server.permits))
      × (answer ≡ denied 403 → after.hits ≡ record_auth_failure net site request server.hits)

  finish_attempt_lem :
      (pin encoded upgraded : String) (allowed : Bool) (server : Server)
      → ((finish_attempt net site crypto request pin encoded upgraded allowed server).0.permits
          ≡ server.permits)
        × ((finish_attempt net site crypto request pin encoded upgraded allowed server).1 ≡ granted
            → allowed ≡ true)
        × ((finish_attempt net site crypto request pin encoded upgraded allowed server).1
              ≡ denied 403
            → (finish_attempt net site crypto request pin encoded upgraded allowed server).0.hits
              ≡ record_auth_failure net site request server.hits)
  unfolding finish_attempt
  finish_attempt_lem pin encoded upgraded false server = (refl, λ same. cc, λ same. refl)
  finish_attempt_lem pin encoded upgraded true server =
      let facts = upgrade-permits pin encoded upgraded server in
      (facts.0, λ same. refl, λ same. absurd (facts.1 same))

  attempt_lem :
      (pin encoded upgraded : String) (server : Server)
      → IsAttempt pin encoded server (attempt net site crypto request pin encoded upgraded server)
  unfolding attempt
  attempt_lem pin encoded upgraded server = elim (Bool-cases (server.permits == 0)) [
    | inl e ↦ rw e (
      refl,
      (λ same. cc),
      (λ same. absurd (denied-ne-denied 429 (λ e. absurd (omega arith)) same)),
    )
    | inr e ↦
        let allowed = verify_passphrase crypto (some pin) (some encoded) in
        let facts =
          finish_attempt_lem pin encoded upgraded allowed
            (record server { permits = server.permits - 1 + 1 }) in
        let free : server.permits - 1 + 1 ≡ server.permits = ground arith in
        let some_free : 0 < server.permits = ground arith in
        rw e (facts.0 ∙ free, (λ same. (facts.1 same, some_free)), facts.2)
  ]

  -- What a call of admin_allowed gives: the permits as they were, entry only with the right PIN and
  -- fewer failures than the limits, and after a wrong PIN one more failure under both keys.
  abbrev pub IsGuarded : String → Server → Server × Answer → Type 0
  IsGuarded pin server (after, answer) =
      (after.permits ≡ server.permits)
      × (answer ≡ granted
          → ((encoded : String) × (server.admin_hash ≡ some encoded)
              × (verify_passphrase crypto (some pin) (some encoded) ≡ true)
              × (subnet_failures net site request server.hits < 10)
              × (global_failures net site request server.hits < 20)
              × (0 < server.permits)))
      × (answer ≡ denied 403
          → HasFailed net site request (subnet_key net site request) server.hits after.hits
            × HasFailed net site request (global_key net site) server.hits after.hits)

  after_budget_lem :
      (pin encoded upgraded : String) (server : Server) (hits : Hits) (allowed : Bool)
      → Distinct server.hits
      → Sorted (get_or (global_key net site) [] server.hits)
      → server.admin_hash ≡ some encoded
      → (auth_failure_budget_allowed net site request server.hits ≡ (hits, allowed))
      → IsGuarded pin server
          (after_budget net site crypto request pin encoded upgraded server (hits, allowed))
  unfolding after_budget
  after_budget_lem pin encoded upgraded server hits false distinct sorted kept budget =
      (refl, (λ same. cc), (λ same. absurd (denied-ne-denied 429 (λ e. absurd (omega arith)) same)))
  after_budget_lem pin encoded upgraded server hits true distinct sorted kept budget =
      let facts = attempt_lem pin encoded upgraded (record server { hits = hits }) in
      let within : (ltb (subnet_failures net site request server.hits) 10
            && ltb (global_failures net site request server.hits) 20)
          ≡ true =
        sym (budget_lem server.hits) ∙ ap (λ (r : Hits × Bool). r.1) budget in
      let few : subnet_failures net site request server.hits < 10 = ground arith in
      let few_in_all : global_failures net site request server.hits < 20 = ground arith in
      (
        facts.0,
        λ same. (encoded, kept, (facts.1 same).0, few, few_in_all, (facts.1 same).1),
        λ same.
            let written =
              facts.2 same
              ∙ ap (λ (r : Hits × Bool). record_auth_failure net site request r.0) (sym budget) in
            let recorded = record_after_budget net site request server.hits distinct sorted in
            (
              ap (lookup (subnet_key net site request)) written ∙ recorded.0,
              ap (lookup (global_key net site)) written ∙ recorded.1,
            ),
      )

  with_hash_lem :
      (pin upgraded : String) (server : Server) (admin_hash : Option String)
      → Distinct server.hits
      → Sorted (get_or (global_key net site) [] server.hits)
      → server.admin_hash ≡ admin_hash
      → IsGuarded pin server (with_hash net site crypto request pin upgraded server admin_hash)
  unfolding with_hash
  with_hash_lem pin upgraded server none distinct sorted kept =
      (refl, (λ same. cc), (λ same. absurd (denied-ne-denied 503 (λ e. absurd (omega arith)) same)))
  with_hash_lem pin upgraded server (some encoded) distinct sorted kept =
      elim (Bool-cases (str_eq encoded "")) [
        | inl e ↦ rw e (
          refl,
          (λ same. cc),
          (λ same. absurd (denied-ne-denied 503 (λ e. absurd (omega arith)) same)),
        )
        | inr e ↦ rw e (
            after_budget_lem pin encoded upgraded server
              (auth_failure_budget_allowed net site request server.hits).0
              (auth_failure_budget_allowed net site request server.hits).1 distinct sorted kept
              refl)
      ]

  -- If the limiter's table has distinct keys, and the failures of all clients in it are oldest first:
  -- every call of admin_allowed gives back the permit that it takes. It lets in only with a hash that the
  -- PIN verifies, a free permit, and fewer than 10 failures of the client's network and fewer than 20 in
  -- all, of those that the table still holds from the last hour. After an answer of 403, for a wrong PIN,
  -- the table has under each of the two keys these failures and one more, at the time of the request.
  pub admin_allowed-IsGuarded :
      (pin upgraded : String) (server : Server)
      → Distinct server.hits
      → Sorted (get_or (global_key net site) [] server.hits)
      → IsGuarded pin server (admin_allowed net site crypto request pin upgraded server)
  unfolding admin_allowed
  admin_allowed-IsGuarded pin upgraded server distinct sorted =
      with_hash_lem pin upgraded server server.admin_hash distinct sorted refl
