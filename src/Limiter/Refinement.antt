-- ===== src/Limiter/Refinement.antt =====
-- The table of hits, with its pruning and its sweeps, answers the calls on a key as the unbounded
-- history of that key does.
use gpu_watch.Prelude.{
  ℕ, ◌≤◌, Bool, true, false, not, Option, none, some, List, [], ◌∷◌, ◌++◌, leb, ltb, length, String,
  str_eq, arith, ◌≡◌, ◌≢◌, refl, ◌∙◌, ap, ap₂, Bool-cases, inl, inr, eq_iff,
}
use gpu_watch.Prelude.Dict.{
  lookup, insert, get_or, value_or, Distinct, insert-Distinct, filter-Distinct, lookup-filter, kept,
  lookup-insert_self, lookup-insert_ne,
}
use native.Mathlib.Nat.{le_refl}
use gpu_watch.Limiter.{
  Call, allow_call, check_call, record_call, key_of, window_of, Hits, is_stale, sweep, pruned,
  allow, check, record_hit, step, answers, max_keys,
}
use gpu_watch.Limiter.Spec.{live, spec_step, spec_answers}
use gpu_watch.Limiter.Deque.{
  Agrees, Agrees-prune, Agrees-snoc, Agrees-later, Agrees-stale, length-prune,
}

pub record Matches (key : String) (window now : ℕ) (hits : Hits) (history : List ℕ) : Type 0 where
  pub distinct : Distinct hits
  pub agrees : Agrees window now (get_or key [] hits) history

module _ {key : String} {window now : ℕ} where
  insert-Matches :
      (hits : Hits) (q new : List ℕ)
      → Distinct hits
      → Agrees window now q new
      → Matches key window now (insert key q hits) new
  insert-Matches hits q new d a = record {
    distinct = insert-Distinct key q hits d;
    agrees = rw (lookup-insert_self key q hits, get_or) a;
  }

  insert-Matches_ne :
      {hits : Hits} {history : List ℕ} (other : String) (q : List ℕ)
      → other ≢ key
      → Matches key window now hits history
      → Matches key window now (insert other q hits) history
  insert-Matches_ne {hits} other q ne m = record {
    distinct = insert-Distinct other q hits m.distinct;
    agrees = rw (lookup-insert_ne other key q hits ne, get_or) m.agrees;
  }

  sweep-Matches :
      {hits : Hits} {history : List ℕ} (longer : ℕ)
      → window ≤ longer
      → Matches key window now hits history
      → Matches key window now (sweep now longer hits) history
  unfolding sweep
  sweep-Matches {hits} {history} longer w m = elim (Bool-cases (ltb max_keys (length hits))) [
    | inr e ↦ rw e m
    | inl e ↦ rw e (record {
      distinct = filter-Distinct _ hits m.distinct;
      agrees =
          rw (lookup-filter (λ entry. not (is_stale now longer entry.1)) key hits m.distinct)
            (go (lookup key hits) m.agrees);
    })
  ]
    where
      go :
          (found : Option (List ℕ))
          → Agrees window now (value_or [] found) history
          → Agrees window now
              (elim (kept (λ entry. not (is_stale now longer entry.1)) key found) [
                | none ↦ []
                | some q ↦ q
              ])
              history
      go none a = a
      go (some q) a = elim (Bool-cases (is_stale now longer q)) [
        | inl e ↦ rw e (Agrees-stale longer w e a)
        | inr e ↦ rw e a
      ]

-- What a call may do to the key of interest: its time is not in the past, its window is no shorter
-- than the key's, and a call on the key itself uses the key's window.
abbrev pub Fits : String → ℕ → ℕ → List (Call × ℕ) → Type 0
Fits key window now [] = Unit
Fits key window now ((call, ts) ∷ rest) =
    (now ≤ ts)
    × (window ≤ window_of call)
    × (key_of call ≡ key → window_of call ≡ window)
    × Fits key window ts rest

-- A call's answer is the contract's, and the table keeps up with the history.
abbrev Follows : String → ℕ → ℕ → Hits × Option Bool → List ℕ × Option Bool → Type 0
Follows key window ts (after, answer) (grown, expected) =
    (answer ≡ expected) × Matches key window ts after grown

module _ {key : String} {window now : ℕ} {hits : Hits} {history : List ℕ} (ts : ℕ) (l : now ≤ ts)
    (m : Matches key window now hits history) where
  pruned-Agrees : Agrees window ts (pruned ts window key hits) history
  unfolding pruned
  pruned-Agrees = Agrees-prune ts l m.agrees

  length-pruned : length (pruned ts window key hits) ≡ live ts window history
  unfolding pruned
  length-pruned = length-prune ts window (get_or key [] hits) m.agrees.sorted ∙ m.agrees.same ts l

  hit-Matches :
      Matches key window ts
        (sweep ts window (insert key (pruned ts window key hits ++ ts ∷ []) hits))
        (ts ∷ history)
  hit-Matches =
      sweep-Matches window (le_refl window)
        (insert-Matches hits _ (ts ∷ history) m.distinct (Agrees-snoc pruned-Agrees))

  prune-Matches : Matches key window ts (insert key (pruned ts window key hits) hits) history
  prune-Matches = insert-Matches hits _ history m.distinct pruned-Agrees

  own_step-Follows :
      (call : Call)
      → key_of call ≡ key
      → window_of call ≡ window
      → Follows key window ts (step call ts hits) (spec_step window call ts history)
  unfolding step allow check record_hit spec_step
  own_step-Follows (allow_call k limit w) ek ew =
      rw (ek, ew)
        (elim (Bool-cases (leb limit (length (pruned ts window key hits)))) [
          | inl e ↦
              let f : ltb (live ts window history) limit ≡ false = ground (arith, length-pruned) in
              rw (e, f) (refl, prune-Matches)
          | inr e ↦
              let f : ltb (live ts window history) limit ≡ true = ground (arith, length-pruned) in
              rw (e, f) (refl, hit-Matches)
        ])
  own_step-Follows (check_call k limit w) ek ew =
      rw (ek, ew) (ap (λ n. some (ltb n limit)) length-pruned, prune-Matches)
  own_step-Follows (record_call k w) ek ew = rw (ek, ew) (refl, hit-Matches)

  later-Matches : Matches key window ts hits history
  later-Matches = record { distinct = m.distinct; agrees = Agrees-later ts l m.agrees }

  -- A call on another key leaves the key's hits alone, but for a sweep that loses nothing.
  other_step-Matches :
      (call : Call)
      → key_of call ≢ key
      → window ≤ window_of call
      → Matches key window ts (step call ts hits).0 history
  unfolding step allow check record_hit
  other_step-Matches (allow_call k limit w) ne long =
      elim (Bool-cases (leb limit (length (pruned ts w k hits)))) [
        | inl e ↦ rw e (insert-Matches_ne k _ ne later-Matches)
        | inr e ↦ rw e (sweep-Matches w long (insert-Matches_ne k _ ne later-Matches))
      ]
  other_step-Matches (check_call k limit w) ne long = insert-Matches_ne k _ ne later-Matches
  other_step-Matches (record_call k w) ne long =
      sweep-Matches w long (insert-Matches_ne k _ ne later-Matches)

answers-eq :
    (key : String) (window now : ℕ) (calls : List (Call × ℕ)) (hits : Hits) (history : List ℕ)
    → Fits key window now calls
    → Matches key window now hits history
    → answers key calls hits ≡ spec_answers key window calls history
unfolding answers spec_answers
answers-eq key window now [] hits history f m = refl
answers-eq key window now ((call, ts) ∷ rest) hits history f m =
    elim (Bool-cases (str_eq (key_of call) key)) [
      | inl e ↦
          let own =
            own_step-Follows ts f.0 m call ((eq_iff (key_of call) key).0 e)
              (f.2 ((eq_iff (key_of call) key).0 e)) in
          rw e (
            ap₂ ◌∷◌ own.0 (
              answers-eq key window ts rest (step call ts hits).0
                (spec_step window call ts history).0 f.3 own.1))
      | inr e ↦ rw e (
          answers-eq key window ts rest (step call ts hits).0 history f.3 (
            other_step-Matches ts f.0 m call (λ same. cc (e, (eq_iff (key_of call) key).1 same))
              f.1))
    ]

-- From an empty table, whatever calls on whatever keys come in between, the calls on `key` get the
-- answers of the single-key contract, if times do not go back, every call's window is at least the
-- key's own, and the calls on `key` use the key's window.
pub answers-eq-spec :
    (key : String) (window : ℕ) (calls : List (Call × ℕ))
    → Fits key window 0 calls
    → answers key calls [] ≡ spec_answers key window calls []
answers-eq-spec key window calls f = answers-eq key window 0 calls [] [] f (record {
  distinct = tt;
  agrees = unfold lookup in record { sorted = tt; past = tt; same = λ ts h. refl };
})
