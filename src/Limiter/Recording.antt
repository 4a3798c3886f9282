-- ===== src/Limiter/Recording.antt =====
-- What record of gpu_watch/security.py leaves in the table: the new hit, after those that still count.
use gpu_watch.Prelude.{
  ℕ, ◌<◌, true, not, Option, none, some, List, [], ◌∷◌, ◌++◌, ltb, length, String, arith, ◌≡◌, ◌≢◌,
  refl, sym, ap, ◌∙◌, get_last?, Bool-cases, inl, inr, filter, Bool,
}
use gpu_watch.Prelude.Dict.{
  lookup, insert, get_or, value_or, Distinct, lookup-filter, kept, lookup-insert_self,
  lookup-insert_ne, insert-Distinct,
}
use text.Mathlib.TextEquality.{eq_iff}
use native.Mathlib.Nat.{le_refl}
use gpu_watch.Limiter.{Hits, prune, is_stale, max_keys, sweep, pruned, record_hit}
use gpu_watch.Limiter.Deque.{Sorted, length-prune, live-stale}

last_snoc : (hits : List ℕ) (ts : ℕ) → get_last? (hits ++ ts ∷ []) ≡ some ts
last_snoc [] ts = refl
last_snoc (x ∷ []) ts = refl
last_snoc (x ∷ y ∷ hits) ts = last_snoc (y ∷ hits) ts

-- A filter keeps an entry that passes its test.
lookup-filter_passed :
    (test : String × List ℕ → Bool) (key : String) (values : List ℕ) (hits : Hits)
    → lookup key hits ≡ some values
    → test (key, values) ≡ true
    → lookup key (filter test hits) ≡ some values
unfolding lookup
lookup-filter_passed test key values [] found passed = found
lookup-filter_passed test key values ((other, v) ∷ hits) found passed =
    ground (arith, eq_iff other key, lookup-filter_passed test key values hits)

-- A sweep keeps a key with a hit at its own time.
lookup-sweep_fresh :
    (key : String) (ts window : ℕ) (earlier : List ℕ) (hits : Hits)
    → 0 < window
    → lookup key hits ≡ some (earlier ++ ts ∷ [])
    → lookup key (sweep ts window hits) ≡ some (earlier ++ ts ∷ [])
unfolding sweep
lookup-sweep_fresh key ts window earlier hits positive found =
    elim (Bool-cases (ltb max_keys (length hits))) [
      | inr few ↦ rw few found
      | inl many ↦ rw many (
          lookup-filter_passed (λ entry. not (is_stale ts window entry.1)) key _ hits found
            (fresh (earlier ++ ts ∷ []) (last_snoc earlier ts)))
    ]
  where
    fresh : (values : List ℕ) → get_last? values ≡ some ts → not (is_stale ts window values) ≡ true
    fresh values last = rw (last, not) (ground arith)

-- What is left of a key is the same after a sweep at that time, if its hits are oldest first.
pruned-sweep :
    (key : String) (ts window : ℕ) (hits : Hits)
    → Distinct hits
    → Sorted (get_or key [] hits)
    → pruned ts window key (sweep ts window hits) ≡ pruned ts window key hits
unfolding sweep pruned prune
pruned-sweep key ts window hits distinct sorted = elim (Bool-cases (ltb max_keys (length hits))) [
  | inr few ↦ rw few refl
  | inl many ↦
      rw (many, lookup-filter (λ entry. not (is_stale ts window entry.1)) key hits distinct)
        (go (lookup key hits) sorted)
]
  where
    empty : (values : List ℕ) → length values ≡ 0 → values ≡ []
    empty [] h = refl
    empty (x ∷ values) h = absurd (omega (arith, h))

    go :
        (found : Option (List ℕ))
        → Sorted (value_or [] found)
        → prune ts window (value_or [] (kept (λ entry. not (is_stale ts window entry.1)) key found))
          ≡ prune ts window (value_or [] found)
    go none s = refl
    go (some values) s = elim (Bool-cases (is_stale ts window values)) [
      | inr fresh ↦ rw fresh refl
      | inl stale ↦
          let gone = live-stale ts ts window window values s (le_refl window) (le_refl ts) stale in
          rw stale (sym (empty (prune ts window values) (length-prune ts window values s ∙ gone)))
    ]

module _ (key : String) (window ts : ℕ) (hits : Hits) where
  -- The key's hits after a failure is recorded at `ts`.
  pub lookup-record_hit :
      0 < window
      → lookup key (record_hit key window ts hits) ≡ some (pruned ts window key hits ++ ts ∷ [])
  unfolding record_hit
  lookup-record_hit positive =
      lookup-sweep_fresh key ts window _ _ positive
        (lookup-insert_self key (pruned ts window key hits ++ ts ∷ []) hits)

  -- A record on another key at the same time keeps a key's new hit.
  pub lookup-record_hit_ne :
      (other : String) (earlier : List ℕ)
      → 0 < window
      → key ≢ other
      → lookup other hits ≡ some (earlier ++ ts ∷ [])
      → lookup other (record_hit key window ts hits) ≡ some (earlier ++ ts ∷ [])
  unfolding record_hit
  lookup-record_hit_ne other earlier positive ne found =
      lookup-sweep_fresh other ts window earlier _ positive
        (lookup-insert_ne key other (pruned ts window key hits ++ ts ∷ []) hits ne ∙ found)

  -- And what is left of that key.
  pub pruned-record_hit_ne :
      (other : String)
      → key ≢ other
      → Distinct hits
      → Sorted (get_or other [] hits)
      → pruned ts window other (record_hit key window ts hits) ≡ pruned ts window other hits
  unfolding record_hit pruned
  pruned-record_hit_ne other ne distinct sorted =
      let grown = prune ts window (get_or key [] hits) ++ ts ∷ [] in
      let same = lookup-insert_ne key other grown hits ne in
      pruned-sweep other ts window (insert key grown hits) (insert-Distinct key grown hits distinct)
        (rw (same, get_or) sorted)
      ∙ ap (λ found. prune ts window (value_or [] found)) same
