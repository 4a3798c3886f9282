-- ===== src/Limiter.antt =====
-- gpu_watch/security.py, class SlidingWindowRateLimiter: the hits of each key, oldest first.
--
-- Time is a whole number of milliseconds. A test `hit <= ts - window` is written `hit + window <= ts`,
-- which has the same meaning where `ts - window` would be negative. The lock makes each call atomic,
-- so concurrent requests are a sequence of calls.
pub mod Spec
pub mod Deque
pub mod Refinement
pub mod Budget
pub mod Eviction
pub mod Recording
use gpu_watch.Prelude.{
  ℕ, ◌+◌, String, Bool, true, false, not, Option, none, some, List, [], ◌∷◌, ◌++◌, leb, ltb, str_eq,
  if◌then◌else◌, length, filter, get_last?,
}
use gpu_watch.Prelude.Dict.{Dict, insert, get_or}

-- `self._hits`
abbrev pub Hits : Type 0
Hits = Dict (List ℕ)

-- `hit <= cutoff`, with `cutoff = ts - window`
abbrev pub expired : ℕ → ℕ → ℕ → Bool
expired ts window hit = leb (hit + window) ts

-- `while hits and hits[0] <= cutoff: hits.popleft()`
unfoldable pub prune : ℕ → ℕ → List ℕ → List ℕ
prune ts window [] = []
prune ts window (hit ∷ hits) =
    let rest = prune ts window hits in if expired ts window hit then rest else hit ∷ hits

-- `not values or values[-1] <= cutoff`
abbrev pub is_stale : ℕ → ℕ → List ℕ → Bool
is_stale ts window values = elim (get_last? values) [
  | none ↦ true
  | some hit ↦ expired ts window hit
]

-- The number of keys above which a call that adds a hit sweeps the table.
abbrev pub max_keys : ℕ
max_keys = 1024

-- The sweep drops every key that is stale by the cutoff of the call that runs it.
unfoldable pub sweep : ℕ → ℕ → Hits → Hits
sweep ts window hits =
    if ltb max_keys (length hits)
    then filter (λ entry. not (is_stale ts window entry.1)) hits
    else hits

-- The deque of a key after the loop that drops expired hits. A missing key is an empty deque.
unfoldable pub pruned : ℕ → ℕ → String → Hits → List ℕ
pruned ts window key hits = prune ts window (get_or key [] hits)

unfoldable pub allow : String → ℕ → ℕ → ℕ → Hits → Hits × Bool
allow key limit window ts hits =
    let recent = pruned ts window key hits in
    if leb limit (length recent)
    then (insert key recent hits, false)
    else (sweep ts window (insert key (recent ++ ts ∷ []) hits), true)

unfoldable pub check : String → ℕ → ℕ → ℕ → Hits → Hits × Bool
check key limit window ts hits =
    let recent = pruned ts window key hits in (insert key recent hits, ltb (length recent) limit)

unfoldable pub record_hit : String → ℕ → ℕ → Hits → Hits
record_hit key window ts hits =
    sweep ts window (insert key (pruned ts window key hits ++ ts ∷ []) hits)

-- One call of the limiter, and its time.
pub data Call : Type 0 where
  allow_call : String → ℕ → ℕ → Call
  check_call : String → ℕ → ℕ → Call
  record_call : String → ℕ → Call

abbrev pub key_of : Call → String
key_of (allow_call key _ _) = key
key_of (check_call key _ _) = key
key_of (record_call key _) = key

abbrev pub window_of : Call → ℕ
window_of (allow_call _ _ window) = window
window_of (check_call _ _ window) = window
window_of (record_call _ window) = window

-- A call's new table, and its answer. `record` answers nothing.
unfoldable pub step : Call → ℕ → Hits → Hits × Option Bool
unfolding allow check record_hit
step (allow_call key limit window) ts hits =
    let (after, answer) = allow key limit window ts hits in (after, some answer)
step (check_call key limit window) ts hits =
    let (after, answer) = check key limit window ts hits in (after, some answer)
step (record_call key window) ts hits = (record_hit key window ts hits, none)

-- The answers that the calls on `key` get, in order, when all the calls run from `hits`.
unfoldable pub answers : String → List (Call × ℕ) → Hits → List (Option Bool)
answers key [] hits = []
answers key ((call, ts) ∷ rest) hits =
    let (after, answer) = step call ts hits in
    let later = answers key rest after in if str_eq (key_of call) key then answer ∷ later else later
