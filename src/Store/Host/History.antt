-- ===== src/Store/Host/History.antt =====
-- A host's row and its events, after any sequence of observations of any hosts.
use gpu_watch.Prelude.{
  ℕ, suc, Bool, true, false, Option, none, some, List, [], ◌∷◌, ◌++◌, String, if◌then◌else◌, str_eq,
  eq_iff, ◌≡◌, refl, ◌∙◌, ap, inl, inr, arith, Bool-cases, filter,
}
use gpu_watch.Prelude.{subst, eq_refl}
use gpu_watch.Prelude.Dict.{lookup, lookup-insert_self, lookup-insert_ne}
use gpu_watch.Store.Events.{Event, EventKind, host_down, host_recovered}
use gpu_watch.Store.Host.{
  HostRow, HostState, next_failures, is_transition, transition_event, mark_host,
}

-- One call of `mark_host`.
pub record Mark : Type 0 where
  pub host : String
  pub label : String
  pub online : Bool
  pub ts : ℕ
  pub hostname : Option String
  pub driver_version : Option String
  pub error : Option String

unfoldable pub apply_mark : Mark → HostState → HostState
apply_mark m = mark_host m.host m.label m.online m.ts m.hostname m.driver_version m.error

-- All the calls, the oldest last.
unfoldable pub run_marks : List Mark → HostState
unfolding apply_mark
run_marks [] = record { hosts = []; events = [] }
run_marks (m ∷ earlier) = apply_mark m (run_marks earlier)

-- The outcomes that were reported for a host, the newest first.
unfoldable pub outcomes : String → List Mark → List Bool
outcomes host [] = []
outcomes host (m ∷ earlier) =
    let rest = outcomes host earlier in if str_eq m.host host then m.online ∷ rest else rest

-- How many of the newest outcomes are failures.
abbrev pub trailing_failures : List Bool → ℕ
trailing_failures [] = 0
trailing_failures (true ∷ rest) = 0
trailing_failures (false ∷ rest) = suc (trailing_failures rest)

-- The kinds of the host's events that the outcomes call for, the oldest first: the first failure is
-- reported, and each change after that. A first success is not.
abbrev pub changes : List Bool → List EventKind
changes [] = []
changes (true ∷ []) = []
changes (false ∷ []) = host_down ∷ []
changes (true ∷ true ∷ rest) = changes (true ∷ rest)
changes (true ∷ false ∷ rest) = changes (false ∷ rest) ++ host_recovered ∷ []
changes (false ∷ true ∷ rest) = changes (true ∷ rest) ++ host_down ∷ []
changes (false ∷ false ∷ rest) = changes (false ∷ rest)

abbrev pub kinds : List Event → List EventKind
kinds [] = []
kinds (e ∷ es) = e.event ∷ kinds es

-- The kinds of a host's events.
abbrev pub host_kinds : String → List Event → List EventKind
host_kinds host events = kinds (filter (λ e. str_eq e.host host) events)

-- The row that fits the outcomes: none before the first, then online with no failures, or offline
-- with as many as the newest outcomes show.
abbrev pub RowFits : Option HostRow → List Bool → Type 0
RowFits none reported = reported ≡ []
RowFits (some row) [] = ⊥
RowFits (some row) (online ∷ rest) =
    (row.online ≡ online) × (row.consecutive_failures ≡ trailing_failures (online ∷ rest))

host_kinds-append :
    (host : String) (events : List Event) (e : Event)
    → host_kinds host (events ++ e ∷ []) ≡ (
        if str_eq e.host host
        then host_kinds host events ++ e.event ∷ []
        else host_kinds host events)
host_kinds-append host [] e = ground arith
host_kinds-append host (first ∷ events) e = elim (Bool-cases (str_eq first.host host)) [
  | inr other ↦ rw other (host_kinds-append host events e)
  | inl mine ↦ rw mine (
      ap (λ ks. first.event ∷ ks) (host_kinds-append host events e)
      ∙ push (str_eq e.host host) (host_kinds host events) first.event e.event)
]
  where
    push :
        (b : Bool) (ks : List EventKind) (x y : EventKind)
        → (x ∷ (if b then ks ++ y ∷ [] else ks)) ≡ (if b then (x ∷ ks) ++ y ∷ [] else x ∷ ks)
    push true ks x y = refl
    push false ks x y = refl

abbrev kind_of : Bool → EventKind
kind_of online = if online then host_recovered else host_down

-- One more outcome adds the event that `changes` calls for.
events_step :
    (row : Option HostRow) (reported : List Bool) (online : Bool) (ks : List EventKind)
    → RowFits row reported
    → ks ≡ changes reported
    → (if is_transition row online then ks ++ kind_of online ∷ [] else ks)
      ≡ changes (online ∷ reported)
events_step none [] true ks f e = e
events_step none [] false ks f e = rw e
events_step none (b ∷ reported) online ks f e = absurd (cc f)
events_step (some row) [] online ks f e = absurd f
events_step (some row) (true ∷ reported) true ks f e = rw (f.0, e)
events_step (some row) (true ∷ reported) false ks f e = rw (f.0, e)
events_step (some row) (false ∷ reported) true ks f e = rw (f.0, e)
events_step (some row) (false ∷ reported) false ks f e = rw (f.0, e)

failures_step :
    (row : Option HostRow) (reported : List Bool) (online : Bool)
    → RowFits row reported
    → next_failures row online ≡ trailing_failures (online ∷ reported)
failures_step row reported true f = ground arith
failures_step none [] false f = refl
failures_step none (b ∷ reported) false f = absurd (cc f)
failures_step (some row) [] false f = absurd f
failures_step (some row) (b ∷ reported) false f = omega (arith, f.1)

abbrev Fits : String → HostState → List Bool → Type 0
Fits host state reported =
    RowFits (lookup host state.hosts) reported × (host_kinds host state.events ≡ changes reported)

own_step :
    (m : Mark) (state : HostState) (reported : List Bool)
    → Fits m.host state reported
    → Fits m.host (apply_mark m state) (m.online ∷ reported)
unfolding apply_mark mark_host
own_step m state reported f = (
  rw (lookup-insert_self m.host _ state.hosts)
      (refl, failures_step (lookup m.host state.hosts) reported m.online f.0),
  added (is_transition (lookup m.host state.hosts) m.online)
      ∙ events_step (lookup m.host state.hosts) reported m.online (host_kinds m.host state.events)
          f.0 f.1,
)
  where
    added :
        (b : Bool)
        → host_kinds m.host (
            if b
            then state.events
              ++ transition_event (lookup m.host state.hosts) m.host m.online m.ts m.error ∷ []
            else state.events)
          ≡ (if b
              then host_kinds m.host state.events ++ kind_of m.online ∷ []
              else host_kinds m.host state.events)
    added false = refl
    added true = host_kinds-append m.host state.events _ ∙ rw (eq_refl m.host)

other_step :
    (host : String) (m : Mark) (state : HostState) (reported : List Bool)
    → str_eq m.host host ≡ false
    → Fits host state reported
    → Fits host (apply_mark m state) reported
unfolding apply_mark mark_host
other_step host m state reported ne f = (
  rw (lookup-insert_ne m.host host _ state.hosts (λ e. cc (ne, (eq_iff m.host host).1 e))) f.0,
  added (is_transition (lookup m.host state.hosts) m.online) ∙ f.1,
)
  where
    added :
        (b : Bool)
        → host_kinds host (
            if b
            then state.events
              ++ transition_event (lookup m.host state.hosts) m.host m.online m.ts m.error ∷ []
            else state.events)
          ≡ host_kinds host state.events
    added false = refl
    added true = host_kinds-append host state.events _ ∙ rw ne

-- After any calls, a host's row has the newest outcome and the number of failures since the last
-- success, and its events are exactly the changes of outcome: the first is host_down, and host_down
-- and host_recovered alternate.
pub run_marks-fits :
    (host : String) (marks : List Mark)
    → RowFits (lookup host (run_marks marks).hosts) (outcomes host marks)
      × (host_kinds host (run_marks marks).events ≡ changes (outcomes host marks))
unfolding run_marks outcomes
run_marks-fits host [] = (unfold lookup in refl, refl)
run_marks-fits host (m ∷ earlier) = elim (Bool-cases (str_eq m.host host)) [
  | inr other ↦ rw other (
      other_step host m (run_marks earlier) (outcomes host earlier) other
        (run_marks-fits host earlier))
  | inl own ↦ rw own (
      subst
        (λ (h : String).
          Fits h (run_marks earlier) (outcomes host earlier)
          → Fits h (apply_mark m (run_marks earlier)) (m.online ∷ outcomes host earlier))
        ((eq_iff m.host host).0 own) (own_step m (run_marks earlier) (outcomes host earlier))
        (run_marks-fits host earlier))
]
