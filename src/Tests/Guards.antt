-- ===== src/Tests/Guards.antt =====
-- Runs of the guards, with stand-ins for ipaddress and urllib.
use gpu_watch.Prelude.{true, false, none, some, [], ◌∷◌, ◌≡◌, refl, str_eq, if◌then◌else◌}
use gpu_watch.Prelude.Dict.{lookup, insert, get_or, Distinct}
use gpu_watch.Text.{lower}
use gpu_watch.Passphrase.{Crypto}
use gpu_watch.Limiter.{pruned, prune}
use gpu_watch.Limiter.Deque.{Sorted}
use gpu_watch.Guards.{
  Url, Net, Headers, first_piece, is_ip_allowed, is_same_origin, parse_allowed_hosts,
  client_ip_from_proxy,
}
use gpu_watch.Guards.Requests.{
  Request, Site, Server, granted, denied, request_allowed, admin_allowed,
}
use gpu_watch.Guards.Clients.{IsCanonical, client_ip_from_proxy-IsCanonical}
use gpu_watch.Guards.Admins.{IsGuarded, admin_allowed-IsGuarded}

abbrev url : Url
url = record {
  scheme = "http";
  netloc = "Watch:8787";
  path = "";
  params = "";
  query = "";
  fragment = "";
  username = none;
  password = none;
}

abbrev net : Net
net = record {
  read_address = λ text. if str_eq text "not-an-address" then none else some text;
  contains = λ network ip. str_eq network ip;
  scope = λ ip. "10.0.0.0/24";
  parse_url = λ text. if str_eq text "http://Watch:8787" then some url else none;
}

abbrev forwarded : Headers
forwarded =
    ("Host", "watch:8787")
    ∷ ("Origin", "http://Watch:8787")
    ∷ ("X-Forwarded-For", "10.0.0.7, 127.0.0.1")
    ∷ []

proxy_is_believed : client_ip_from_proxy net "127.0.0.1" forwarded ("127.0.0.1" ∷ []) ≡ "10.0.0.7"
unfolding client_ip_from_proxy
proxy_is_believed = refl

client_is_not_believed :
    client_ip_from_proxy net "10.0.0.9" forwarded ("127.0.0.1" ∷ []) ≡ "10.0.0.9"
unfolding client_ip_from_proxy
client_is_not_believed = refl

origin_matches : is_same_origin net forwarded ≡ true
unfolding is_same_origin
origin_matches = refl

origin_with_path : is_same_origin net (("Origin", "http://Watch:8787/x") ∷ []) ≡ false
unfolding is_same_origin
origin_with_path = refl

hosts_with_space : parse_allowed_hosts "watch:8787,a b" ≡ none
unfolding parse_allowed_hosts
hosts_with_space = refl

abbrev site : Site
site = record {
  allowed_networks = "10.0.0.9" ∷ [];
  allowed_hosts = lower "watch:8787" ∷ [];
  trusted_proxy_networks = "127.0.0.1" ∷ [];
}

abbrev request : Headers → Request
request headers = record { peer = "10.0.0.9"; headers = headers; ts = 5000000 }

one_host : request_allowed net site (request forwarded) ≡ granted
unfolding request_allowed lower
one_host = refl

two_hosts : request_allowed net site (request (("Host", "watch:8787") ∷ forwarded)) ≡ denied 403
unfolding request_allowed
two_hosts = refl

abbrev crypto : Crypto
crypto = record {
  pbkdf2 = λ passphrase salt n. if str_eq passphrase "1234" then 1 ∷ [] else 2 ∷ [];
  b64encode = λ digest. "AQ";
  b64decode = λ text. some (1 ∷ []);
  show_int = λ n. "1";
  read_int = λ text. none;
}

abbrev server : Server
server = record {
  hits = [];
  permits = 2;
  admin_hash = some "pbkdf2_sha256$1$saltsaltsalt$AQ";
  hash_from_environment = false;
}

peer_is_read : net.read_address (first_piece "%" "10.0.0.9") ≡ some "10.0.0.9"
unfolding first_piece
peer_is_read = refl

client_ip_from_proxy-IsCanonical_example :
    IsCanonical net (client_ip_from_proxy net "10.0.0.9" forwarded ("127.0.0.1" ∷ []))
    × (is_ip_allowed net "10.0.0.9" ("127.0.0.1" ∷ []) ≡ false
        → client_ip_from_proxy net "10.0.0.9" forwarded ("127.0.0.1" ∷ []) ≡ "10.0.0.9")
client_ip_from_proxy-IsCanonical_example =
    client_ip_from_proxy-IsCanonical net "10.0.0.9" "10.0.0.9" forwarded ("127.0.0.1" ∷ [])
      peer_is_read

-- A failure of another network is in the table; the PIN is wrong, and the failure is recorded.
abbrev failing : Server
failing = record server { hits = ("auth-failure:global", 4000000 ∷ []) ∷ [] }

failing_Distinct : Distinct failing.hits
unfolding lookup
failing_Distinct = (refl, tt)

failing_Sorted : Sorted (get_or "auth-failure:global" [] failing.hits)
unfolding lookup
failing_Sorted = (tt, tt)

wrong_pin : (admin_allowed net site crypto (request forwarded) "4321" "new" failing).1 ≡ denied 403
unfolding admin_allowed lookup insert pruned prune
wrong_pin = refl

admin_allowed-IsGuarded_example :
    IsGuarded net site crypto
      (request forwarded)
      "4321"
      failing
      (admin_allowed net site crypto (request forwarded) "4321" "new" failing)
admin_allowed-IsGuarded_example =
    admin_allowed-IsGuarded net site crypto (request forwarded) "4321" "new" failing
      failing_Distinct failing_Sorted
