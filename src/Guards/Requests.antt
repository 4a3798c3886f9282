-- ===== src/Guards/Requests.antt =====
-- server.py, Handler: client_ip, request_is_https, request_allowed, mutation_allowed, read_allowed,
-- auth_failure_budget_allowed, record_auth_failure, acquire_auth_attempt and admin_allowed.
--
-- A guard that refuses has sent its reply, whose status is the result. The PIN is checked by
-- verify_passphrase; the semaphores that bound the hashing itself, and the file to which an upgraded
-- hash is written, are outside. Windows and times are milliseconds. A call reads its clock once.
use gpu_watch.Prelude.{
  ℕ, ◌+◌, ◌-◌, Bool, true, false, not, ◌&&◌, ◌||◌, Option, none, some, List, [], ◌∷◌, String, ◌==◌,
  str_eq, if◌then◌else◌,
}
use gpu_watch.Text.{lower, codes}
use gpu_watch.Redaction.{append, same_codes}
use gpu_watch.Limiter.{Hits, allow, check, record_hit}
use gpu_watch.Passphrase.{Crypto, is_valid_pin, verify_passphrase, hash_needs_upgrade}
use gpu_watch.Guards.{
  Net, Headers, get_all, header_text, is_ip_allowed, is_host_allowed, is_same_origin,
  client_ip_from_proxy, client_network_scope,
}

abbrev pub auth_failure_subnet_limit : ℕ
auth_failure_subnet_limit = 10

abbrev pub auth_failure_global_limit : ℕ
auth_failure_global_limit = 20

abbrev pub auth_failure_window : ℕ
auth_failure_window = 3600000

-- A request: its peer, its header fields, and the time of the call.
pub record Request : Type 0 where
  pub peer : String
  pub headers : Headers
  pub ts : ℕ

pub record Site : Type 0 where
  pub allowed_networks : List String
  pub allowed_hosts : List (List ℕ)
  pub trusted_proxy_networks : List String

-- The limiter's hits, the free permits of AUTH_ATTEMPT_SEMAPHORE, the administrator's hash, and
-- whether GPU_WATCH_ADMIN_PIN_HASH is set.
pub record Server : Type 0 where
  pub hits : Hits
  pub permits : ℕ
  pub admin_hash : Option String
  pub hash_from_environment : Bool

-- `True`, or the status of the reply that was sent, or a ValueError.
pub data Answer : Type 0 where
  granted : Answer
  denied : ℕ → Answer
  failed : Answer

abbrev pub or_unknown : String → String
or_unknown address = if str_eq address "" then "unknown" else address

module _ (net : Net) (site : Site) where
  unfoldable pub client_ip : Request → String
  unfolding client_ip_from_proxy
  client_ip request =
      client_ip_from_proxy net request.peer request.headers site.trusted_proxy_networks

  unfoldable pub request_is_https : Request → Bool
  unfolding is_ip_allowed same_codes lower header_text
  request_is_https request =
      is_ip_allowed net request.peer site.trusted_proxy_networks
      && same_codes (lower (header_text "X-Forwarded-Proto" request.headers)) (codes "https")

  -- `len(host_values) == 1 and is_host_allowed(host_values[0], ...)`
  unfoldable pub is_authority_allowed : List String → Bool
  unfolding is_host_allowed
  is_authority_allowed [] = false
  is_authority_allowed (host ∷ []) = is_host_allowed host site.allowed_hosts
  is_authority_allowed (host ∷ other ∷ hosts) = false

  unfoldable pub request_allowed : Request → Answer
  unfolding client_ip is_ip_allowed is_authority_allowed get_all
  request_allowed request =
      if is_ip_allowed net (client_ip request) site.allowed_networks
        && is_authority_allowed (get_all "Host" request.headers)
      then granted
      else denied 403

  abbrev pub answer_of : Hits × Bool → Hits × Answer
  answer_of (hits, allowed) = (hits, if allowed then granted else denied 429)

  -- `f"{action}:{address}"`
  abbrev pub action_key : String → Request → String
  action_key action request = append action (append ":" (or_unknown (client_ip request)))

  unfoldable pub mutation_allowed : String → ℕ → ℕ → Request → Hits → Hits × Answer
  unfolding is_same_origin client_ip allow append
  mutation_allowed action limit window request hits =
      if is_same_origin net request.headers
      then answer_of (allow (action_key action request) limit window request.ts hits)
      else (hits, denied 403)

  unfoldable pub read_allowed : String → ℕ → ℕ → Request → Hits → Hits × Answer
  unfolding client_ip allow append
  read_allowed action limit window request hits =
      answer_of (allow (append "read:" (action_key action request)) limit window request.ts hits)

  abbrev pub subnet_key : Request → String
  subnet_key request =
      append "auth-failure:subnet:" (client_network_scope net (or_unknown (client_ip request)))

  abbrev pub global_key : String
  global_key = "auth-failure:global"

  -- Both budgets are checked, the global one after the hits that the first check leaves.
  unfoldable pub auth_failure_budget_allowed : Request → Hits → Hits × Bool
  unfolding client_ip client_network_scope check append
  auth_failure_budget_allowed request hits =
      let (hits', subnet_allowed) =
        check (subnet_key request) auth_failure_subnet_limit auth_failure_window request.ts hits in
      let (hits'', global_allowed) =
        check global_key auth_failure_global_limit auth_failure_window request.ts hits' in
      (hits'', subnet_allowed && global_allowed)

  unfoldable pub record_auth_failure : Request → Hits → Hits
  unfolding client_ip client_network_scope record_hit append
  record_auth_failure request hits =
      record_hit global_key auth_failure_window request.ts
        (record_hit (subnet_key request) auth_failure_window request.ts hits)

  -- A hash that is out of date is replaced, which persist_admin_passphrase_hash refuses for a text that
  -- is no PIN of four digits; `upgraded` is the new hash.
  unfoldable pub upgrade : Crypto → String → String → String → Server → Server × Answer
  unfolding hash_needs_upgrade is_valid_pin
  upgrade crypto pin encoded upgraded server =
      if not (hash_needs_upgrade crypto encoded) || server.hash_from_environment
      then (server, granted)
      else if is_valid_pin pin
      then (record server { admin_hash = some upgraded }, granted)
      else (server, failed)

  -- After the PIN was checked.
  unfoldable pub finish_attempt :
      Crypto → Request → String → String → String → Bool → Server → Server × Answer
  unfolding record_auth_failure upgrade
  finish_attempt crypto request pin encoded upgraded false server =
      (record server { hits = record_auth_failure request server.hits }, denied 403)
  finish_attempt crypto request pin encoded upgraded true server =
      upgrade crypto pin encoded upgraded server

  -- With the permit taken and given back round the check of the PIN.
  unfoldable pub attempt : Crypto → Request → String → String → String → Server → Server × Answer
  unfolding finish_attempt verify_passphrase
  attempt crypto request pin encoded upgraded server =
      if server.permits == 0
      then (server, denied 429)
      else let taken : Server = record server { permits = server.permits - 1 } in
        let allowed = verify_passphrase crypto (some pin) (some encoded) in
        let released : Server = record taken { permits = taken.permits + 1 } in
        finish_attempt crypto request pin encoded upgraded allowed released

  unfoldable pub after_budget :
      Crypto → Request → String → String → String → Server → Hits × Bool → Server × Answer
  unfolding attempt
  after_budget crypto request pin encoded upgraded server (hits, false) =
      (record server { hits = hits }, denied 429)
  after_budget crypto request pin encoded upgraded server (hits, true) =
      attempt crypto request pin encoded upgraded (record server { hits = hits })

  unfoldable pub with_hash :
      Crypto → Request → String → String → Server → Option String → Server × Answer
  unfolding after_budget auth_failure_budget_allowed
  with_hash crypto request pin upgraded server none = (server, denied 503)
  with_hash crypto request pin upgraded server (some encoded) =
      if str_eq encoded ""
      then (server, denied 503)
      else after_budget crypto request pin encoded upgraded server
          (auth_failure_budget_allowed request server.hits)

  unfoldable pub admin_allowed : Crypto → Request → String → String → Server → Server × Answer
  unfolding with_hash
  admin_allowed crypto request pin upgraded server =
      with_hash crypto request pin upgraded server server.admin_hash
