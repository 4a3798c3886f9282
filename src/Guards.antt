-- ===== src/Guards.antt =====
-- The guards of a request: gpu_watch/security.py, is_ip_allowed, parse_allowed_hosts, is_host_allowed,
-- is_same_origin and client_ip_from_proxy, here; and the Handler of server.py, in Requests.
--
-- The libraries ipaddress and urllib are parameters. A network is the text that names it. Header names
-- are written as the sources write them. Host names are lowered by ASCII letters.
pub mod Requests
pub mod Clients
pub mod Failures
pub mod Admins
use Prim.Native.Char.{Char, code}
use Prim.Native.String
use gpu_watch.Prelude.{
  ℕ, Bool, true, false, not, ◌&&◌, ◌||◌, Option, none, some, List, [], ◌∷◌, String, ltb, ◌==◌,
  str_eq, if◌then◌else◌, length,
}
use gpu_watch.Text.{is_space, strip, size, lower, split, split_from, text_or}
use gpu_watch.Processes.{is_empty}
use gpu_watch.Redaction.{same_codes, has_codes}

-- The result of `urlparse`; `username` and `password` are `none` where the authority has none.
pub record Url : Type 0 where
  pub scheme : String
  pub netloc : String
  pub path : String
  pub params : String
  pub query : String
  pub fragment : String
  pub username : Option String
  pub password : Option String

-- What is used of Python's library.
pub record Net : Type 0 where
  -- `str(ipaddress.ip_address(text))`; `none` for a ValueError
  pub read_address : String → Option String
  -- `ip.version == network.version and ip in network`, with the network first
  pub contains : String → String → Bool
  -- `str(ipaddress.ip_network(f"{ip}/{prefix}", strict=False))`
  pub scope : String → String
  -- `urlparse(text)`, with its port; `none` for a ValueError
  pub parse_url : String → Option Url

-- The header fields of a request, in their order.
abbrev pub Headers : Type 0
Headers = List (String × String)

-- `headers.get_all(name) or []`
unfoldable pub get_all : String → Headers → List String
get_all name [] = []
get_all name ((key, value) ∷ headers) =
    let rest = get_all name headers in if str_eq key name then value ∷ rest else rest

abbrev pub head_or_none : List String → Option String
head_or_none [] = none
head_or_none (value ∷ values) = some value

-- `str(headers.get(name) or "")`
unfoldable pub header_text : String → Headers → String
unfolding get_all
header_text name headers = text_or (head_or_none (get_all name headers))

-- `text.split(separator, 1)[0]`
unfoldable pub first_piece : Char → String → String
unfolding split_from
first_piece separator s = (split_from separator s).0

-- `any(character in text for ...)` of a test
unfoldable pub any_char : (Char → Bool) → String → Bool
any_char test String.[] = false
any_char test (String.◌∷◌ c s) = test c || any_char test s

-- One of `/\@,#?`
abbrev pub is_delimiter : Char → Bool
is_delimiter c =
    code c == 47 || code c == 92 || code c == 64 || code c == 44 || code c == 35 || code c == 63

-- One part of the list; `none` is a ValueError.
unfoldable pub allowed_host : String → Option (List ℕ)
unfolding strip lower size any_char
allowed_host part =
    let host = strip part in
    if str_eq host ""
      || (ltb 255 (size host) || (any_char is_space host || any_char is_delimiter host))
    then none
    else some (lower host)

unfoldable pub allowed_hosts_of : List String → Option (List (List ℕ))
unfolding allowed_host
allowed_hosts_of [] = some []
allowed_hosts_of (part ∷ parts) = elim (allowed_host part) [
  | none ↦ none
  | some host ↦ elim (allowed_hosts_of parts) [ none ↦ none | some hosts ↦ some (host ∷ hosts) ]
]

abbrev pub not_empty_or_none {ℓ} : {A : Type ℓ} → Option (List A) → Option (List A)
not_empty_or_none none = none
not_empty_or_none (some []) = none
not_empty_or_none (some (x ∷ xs)) = some (x ∷ xs)

-- Of a text; the default is put in before.
unfoldable pub parse_allowed_hosts : String → Option (List (List ℕ))
unfolding split allowed_hosts_of
parse_allowed_hosts value = not_empty_or_none (allowed_hosts_of (split "," value))

unfoldable pub is_host_allowed : String → List (List ℕ) → Bool
unfolding strip lower has_codes
is_host_allowed host_header allowed_hosts =
    let host = lower (strip host_header) in not (is_empty host) && has_codes host allowed_hosts

-- `character.isspace() or ord(character) < 32`
abbrev pub is_control : Char → Bool
is_control c = is_space c || ltb (code c) 32

abbrev pub is_absent : Option String → Bool
is_absent none = true
is_absent (some s) = false

abbrev pub matches_origin : List ℕ → Option Url → Bool
matches_origin host none = false
matches_origin host (some url) =
    (str_eq url.scheme "http" || str_eq url.scheme "https")
    && (same_codes (lower url.netloc) host
        && (not (
              not (str_eq url.path "")
              || (not (str_eq url.params "")
                  || (not (str_eq url.query "") || not (str_eq url.fragment ""))))
            && (is_absent url.username && is_absent url.password)))

module _ (net : Net) where
  unfoldable pub any_contains : String → List String → Bool
  any_contains ip [] = false
  any_contains ip (network ∷ networks) = net.contains network ip || any_contains ip networks

  unfoldable pub is_ip_allowed : String → List String → Bool
  unfolding any_contains first_piece
  is_ip_allowed address networks = elim (net.read_address (first_piece "%" address)) [
    | none ↦ false
    | some ip ↦ any_contains ip networks
  ]

  unfoldable pub is_same_origin : Headers → Bool
  unfolding get_all header_text strip any_char lower same_codes
  is_same_origin headers =
      let origin = strip (header_text "Origin" headers) in
      not (ltb 1 (length (get_all "Origin" headers)))
      && (str_eq origin ""
          || (not (any_char is_control origin)
              && matches_origin (lower (strip (header_text "Host" headers)))
                  (net.parse_url origin)))

  -- The forwarded address, if it is one.
  unfoldable pub forwarded_or : String → String → String
  unfolding first_piece
  forwarded_or peer_ip forwarded =
      if str_eq forwarded ""
      then peer_ip
      else elim (net.read_address (first_piece "%" forwarded)) [ none ↦ peer_ip | some ip ↦ ip ]

  unfoldable pub client_of_peer : Headers → List String → String → String
  unfolding is_ip_allowed forwarded_or strip first_piece header_text
  client_of_peer headers trusted peer_ip =
      if is_ip_allowed peer_ip trusted
      then forwarded_or peer_ip (strip (first_piece "," (header_text "X-Forwarded-For" headers)))
      else peer_ip

  unfoldable pub client_ip_from_proxy : String → Headers → List String → String
  unfolding client_of_peer first_piece
  client_ip_from_proxy peer headers trusted = elim (net.read_address (first_piece "%" peer)) [
    | none ↦ peer
    | some peer_ip ↦ client_of_peer headers trusted peer_ip
  ]

  -- server.py, client_network_scope
  unfoldable pub client_network_scope : String → String
  unfolding first_piece
  client_network_scope address = elim (net.read_address (first_piece "%" address)) [
    | none ↦ "unknown"
    | some ip ↦ net.scope ip
  ]
