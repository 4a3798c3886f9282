-- ===== src/Limiter/Spec.antt =====
-- The limiter's contract for a single key: an unbounded history of accepted hits, newest first, in
-- which nothing is ever dropped. A hit counts for `window` after it was made.
use gpu_watch.Prelude.{
  ℕ, Bool, true, false, not, Option, none, some, List, [], ◌∷◌, ltb, if◌then◌else◌, length, filter,
  String, str_eq,
}
use gpu_watch.Limiter.{Call, allow_call, check_call, record_call, key_of, expired}

-- How many hits of the history still count at `ts`.
unfoldable pub live : ℕ → ℕ → List ℕ → ℕ
live ts window history = length (filter (λ hit. not (expired ts window hit)) history)

unfoldable pub spec_step : ℕ → Call → ℕ → List ℕ → List ℕ × Option Bool
spec_step window (allow_call _ limit _) ts history =
    if ltb (live ts window history) limit then (ts ∷ history, some true) else (history, some false)
spec_step window (check_call _ limit _) ts history =
    (history, some (ltb (live ts window history) limit))
spec_step window (record_call _ _) ts history = (ts ∷ history, none)

-- The answers of the contract: calls on other keys play no part.
unfoldable pub spec_answers : String → ℕ → List (Call × ℕ) → List ℕ → List (Option Bool)
spec_answers key window [] history = []
spec_answers key window ((call, ts) ∷ rest) history =
    let (after, answer) = spec_step window call ts history in
    let mine = answer ∷ spec_answers key window rest after in
    let others = spec_answers key window rest history in
    if str_eq (key_of call) key then mine else others
