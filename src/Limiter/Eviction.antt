-- ===== src/Limiter/Eviction.antt =====
-- What a sweep by a call with a shorter window does to a key with a longer one.
use gpu_watch.Prelude.{ℕ, ◌<◌, true, not, none, some, List, ltb, length, String, arith, ◌≡◌}
use gpu_watch.Prelude.Dict.{lookup, get_or, Distinct, lookup-filter}
use gpu_watch.Limiter.{Hits, is_stale, max_keys, sweep, prune, pruned, allow}

module _ (key : String) (limit window shorter ts : ℕ) (hits : Hits) {recent : List ℕ}
    (distinct : Distinct hits) (crowded : max_keys < length hits)
    (found : lookup key hits ≡ some recent) (stale : is_stale ts shorter recent ≡ true) where
  sweep_drops : lookup key (sweep ts shorter hits) ≡ none
  unfolding sweep
  sweep_drops =
      let big : ltb max_keys (length hits) ≡ true = ground arith in
      rw big (
        rw (lookup-filter (λ entry. not (is_stale ts shorter entry.1)) key hits distinct)
          (rw found (rw stale)))

  -- In a table of more than 1024 distinct keys, the sweep of a call with window `shorter` at `ts` makes
  -- the limiter forget a key whose last hit is older than `shorter`: an `allow` on that key at `ts` is
  -- granted for any positive limit and any window, however many hits the key had.
  pub sweep_forgets_limit : 0 < limit → (allow key limit window ts (sweep ts shorter hits)).1 ≡ true
  unfolding allow pruned prune
  sweep_forgets_limit positive = rw (sweep_drops, get_or) (ground arith)
