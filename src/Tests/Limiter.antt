-- ===== src/Tests/Limiter.antt =====
-- Runs of gpu_watch/security.py, class SlidingWindowRateLimiter.
use native.Mathlib.Nat.{le_refl}
use gpu_watch.Prelude.{
  ℕ, zero, suc, ◌+◌, ◌≤◌, ◌<◌, true, false, none, some, List, [], ◌∷◌, length, String, str_ne,
  ne_of_str_eq, arith, ◌≡◌, ◌≢◌, refl, ap,
}
use gpu_watch.Prelude.Dict.{lookup, insert, Distinct}
use gpu_watch.Limiter.{
  Hits, Call, allow_call, record_call, allow, check, record_hit, step, answers, sweep, pruned,
  prune,
}
use gpu_watch.Limiter.Spec.{spec_answers}
use gpu_watch.Limiter.Refinement.{Fits, answers-eq-spec}
use gpu_watch.Limiter.Budget.{granted, OnlyAllows, hits_in, granted-le-limit}
use gpu_watch.Limiter.Eviction.{sweep_forgets_limit}

-- Two hits in ten seconds are allowed on "a"; another key's calls come in between.
abbrev calls : List (Call × ℕ)
calls =
    (allow_call "a" 2 10000, 0)
    ∷ (allow_call "b" 1 60000, 2000)
    ∷ (allow_call "a" 2 10000, 4000)
    ∷ (allow_call "a" 2 10000, 9000)
    ∷ (record_call "b" 60000, 9500)
    ∷ (allow_call "a" 2 10000, 10000)
    ∷ []

answers_run : answers "a" calls [] ≡ some true ∷ some true ∷ some false ∷ some true ∷ []
unfolding answers step allow record_hit sweep pruned prune insert lookup
answers_run = refl

calls-Fits : Fits "a" 10000 0 calls
calls-Fits = (
  omega arith,
  omega arith,
  λ _. refl,
  (
    omega arith,
    omega arith,
    λ e. absurd (ne_of_str_eq "b" "a" refl e),
    (
      omega arith,
      omega arith,
      λ _. refl,
      (
        omega arith,
        omega arith,
        λ _. refl,
        (
          omega arith,
          omega arith,
          λ e. absurd (ne_of_str_eq "b" "a" refl e),
          (omega arith, omega arith, λ _. refl, tt),
        ),
      ),
    ),
  ),
)

answers-eq-spec_example : answers "a" calls [] ≡ spec_answers "a" 10000 calls []
answers-eq-spec_example = answers-eq-spec "a" 10000 calls calls-Fits

only_a : OnlyAllows "a" 2 calls
only_a = (
  λ _. (10000, refl),
  (
    λ e. absurd (ne_of_str_eq "b" "a" refl e),
    (
      λ _. (10000, refl),
      (λ _. (10000, refl), (λ e. absurd (ne_of_str_eq "b" "a" refl e), (λ _. (10000, refl), tt))),
    ),
  ),
)

granted-le-limit_example : hits_in 10000 10000 (granted "a" calls (answers "a" calls [])) ≤ 2
granted-le-limit_example = granted-le-limit "a" 2 10000 calls 10000 calls-Fits only_a

-- A table with many readers: their keys are told apart by their sizes.
reader : ℕ → String
reader zero = "read:snapshot:192.0.2.1"
reader (suc n) = String.◌∷◌ "1" (reader n)

readers : ℕ → Hits
unfolding reader
readers zero = []
readers (suc n) = (reader n, 3600000 ∷ []) ∷ readers n

abbrev size : String → ℕ
size String.[] = 0
size (String.◌∷◌ c s) = suc (size s)

size-reader : (n : ℕ) → size (reader n) ≡ n + 23
unfolding reader
size-reader zero = refl
size-reader (suc n) = omega (arith, size-reader n)

ne_of_size : (a b : String) → size a ≢ size b → a ≢ b
ne_of_size a b h = λ e. h (ap size e)

lookup-readers :
    (key : String) (n : ℕ) → ((m : ℕ) → m < n → size key ≢ m + 23) → lookup key (readers n) ≡ none
unfolding readers lookup
lookup-readers key zero h = refl
lookup-readers key (suc n) h =
    rw
      (str_ne (reader n) key (ne_of_size _ _ (omega (arith, size-reader n, h n (le_refl (suc n))))))
      (lookup-readers key n (λ m l. h m (omega arith)))

readers-Distinct : (n : ℕ) → Distinct (readers n)
unfolding readers
readers-Distinct zero = tt
readers-Distinct (suc n) =
    (lookup-readers (reader n) n (λ m l. omega (arith, size-reader n)), readers-Distinct n)

length-readers : (n : ℕ) → length (readers n) ≡ n
unfolding readers
length-readers zero = refl
length-readers (suc n) = ap suc (length-readers n)

-- One failed attempt, 100 seconds ago, fills a budget of one per hour.
abbrev crowded : Hits
crowded = ("auth-failure:global", 3500000 ∷ []) ∷ readers 1024

budget_is_spent : (check "auth-failure:global" 1 3600000 3600000 crowded).1 ≡ false
unfolding check pruned prune lookup
budget_is_spent = refl

-- The sweep of a read with a window of one minute makes room in it again.
sweep_forgets_limit_example :
    (allow "auth-failure:global" 1 3600000 3600000 (sweep 3600000 60000 crowded)).1 ≡ true
unfolding lookup
sweep_forgets_limit_example =
    sweep_forgets_limit "auth-failure:global" 1 3600000 60000 3600000 crowded
      (lookup-readers _ 1024 (λ m l. omega arith), readers-Distinct 1024)
      (omega (arith, length-readers 1024)) refl refl (omega arith)
