-- ===== src/Guards/Clients.antt =====
-- Whom a request counts for.
use gpu_watch.Prelude.{
  false, some, List, String, ◌≡◌, refl, sym, subst, ◌∙◌, inl, inr, Bool-cases, Option-cases, str_eq,
}
use gpu_watch.Guards.{
  Net, Headers, first_piece, is_ip_allowed, forwarded_or, client_of_peer, client_ip_from_proxy,
}

-- A text that `str(ipaddress.ip_address(...))` gives.
abbrev pub IsCanonical : Net → String → Type 0
IsCanonical net ip = (text : String) × (net.read_address text ≡ some ip)

forwarded_or-IsCanonical :
    (net : Net) (peer_ip forwarded : String)
    → IsCanonical net peer_ip
    → IsCanonical net (forwarded_or net peer_ip forwarded)
unfolding forwarded_or
forwarded_or-IsCanonical net peer_ip forwarded peer = elim (Bool-cases (str_eq forwarded "")) [
  | inl e ↦ rw e peer
  | inr e ↦ elim (Option-cases (net.read_address (first_piece "%" forwarded))) [
    | inl bad ↦ rw (e, bad) peer
    | inr (ip, good) ↦ rw (e, good) (first_piece "%" forwarded, good)
  ]
]

client_of_peer_lem :
    (net : Net) (headers : Headers) (trusted : List String) (peer_ip : String)
    → IsCanonical net peer_ip
    → IsCanonical net (client_of_peer net headers trusted peer_ip)
      × (is_ip_allowed net peer_ip trusted ≡ false
          → client_of_peer net headers trusted peer_ip ≡ peer_ip)
unfolding client_of_peer
client_of_peer_lem net headers trusted peer_ip peer =
    elim (Bool-cases (is_ip_allowed net peer_ip trusted)) [
      | inl e ↦ rw e (forwarded_or-IsCanonical net peer_ip _ peer, λ no_proxy. cc)
      | inr e ↦ rw e (peer, λ no_proxy. refl)
    ]

-- A request of a readable peer counts for one spelling of an address, and for the peer's own, whatever
-- its header fields say, unless the peer is a trusted proxy.
pub client_ip_from_proxy-IsCanonical :
    (net : Net) (peer peer_ip : String) (headers : Headers) (trusted : List String)
    → net.read_address (first_piece "%" peer) ≡ some peer_ip
    → IsCanonical net (client_ip_from_proxy net peer headers trusted)
      × (is_ip_allowed net peer_ip trusted ≡ false
          → client_ip_from_proxy net peer headers trusted ≡ peer_ip)
unfolding client_ip_from_proxy
client_ip_from_proxy-IsCanonical net peer peer_ip headers trusted known =
    let opened : client_ip_from_proxy net peer headers trusted
        ≡ client_of_peer net headers trusted peer_ip =
      rw (known, client_ip_from_proxy) refl in
    let facts = client_of_peer_lem net headers trusted peer_ip (first_piece "%" peer, known) in
    (subst (IsCanonical net) (sym opened) facts.0, λ no_proxy. opened ∙ facts.1 no_proxy)
