-- ===== src/Limiter/Budget.antt =====
-- At most `limit` hits are granted in any window: of the contract, and so of the table.
use gpu_watch.Prelude.{
  ℕ, ◌+◌, ◌≤◌, ◌<◌, ltb→lt, Bool, false, ◌&&◌, Option, none, some, List, [], ◌∷◌, leb, ltb,
  if◌then◌else◌, length, filter, String, str_eq, arith, ◌≡◌, Bool-cases, inl, inr, eq_iff,
}
use gpu_watch.Limiter.{Call, allow_call, key_of, answers}
use gpu_watch.Limiter.Spec.{live, spec_step, spec_answers}
use gpu_watch.Limiter.Refinement.{Fits, answers-eq-spec}

abbrev pub is_grant : Option Bool → Bool
is_grant none = false
is_grant (some answer) = answer

-- The times at which a call on `key` was answered with `true`.
abbrev pub granted : String → List (Call × ℕ) → List (Option Bool) → List ℕ
granted key [] replies = []
granted key ((call, ts) ∷ rest) replies =
    let other = granted key rest replies in
    let own : List ℕ = elim replies [
      | [] ↦ []
      | reply ∷ more ↦
          (if is_grant reply then ts ∷ granted key rest more else granted key rest more)
    ] in
    if str_eq (key_of call) key then own else other

-- How many of the hits lie in the window that ends at `ts`.
abbrev pub hits_in : ℕ → ℕ → List ℕ → ℕ
hits_in ts window hits = length (filter (λ hit. leb hit ts && ltb ts (hit + window)) hits)

-- Every call on the key is an `allow` with this limit.
abbrev pub OnlyAllows : String → ℕ → List (Call × ℕ) → Type 0
OnlyAllows key limit [] = Unit
OnlyAllows key limit ((call, ts) ∷ rest) =
    ((key_of call ≡ key) → (window : ℕ) × (call ≡ allow_call key limit window))
    × OnlyAllows key limit rest

hits_in-le-live :
    (window ts later : ℕ) (history : List ℕ)
    → ts ≤ later
    → hits_in later window history ≤ live ts window history
unfolding live
hits_in-le-live window ts later [] h = omega arith
hits_in-le-live window ts later (hit ∷ history) h =
    ground (arith, hits_in-le-live window ts later history h)

module _ (key : String) (limit window : ℕ) where
  -- A hit that is granted fits into every window that holds it.
  next_capped :
      (now : ℕ) (history : List ℕ)
      → ((ts : ℕ) → hits_in ts window history ≤ limit)
      → live now window history < limit
      → (ts : ℕ) → hits_in ts window (now ∷ history) ≤ limit
  next_capped now history h room ts = ground (arith, h ts, hits_in-le-live window now ts history)

  spec_budget :
      (calls : List (Call × ℕ)) (history : List ℕ)
      → OnlyAllows key limit calls
      → ((ts : ℕ) → hits_in ts window history ≤ limit)
      → (ts : ℕ)
      → hits_in ts window (granted key calls (spec_answers key window calls history))
          + hits_in ts window history
        ≤ limit
  unfolding spec_answers spec_step
  spec_budget [] history o h ts = omega (arith, h ts)
  spec_budget ((call, now) ∷ rest) history o h ts = elim (Bool-cases (str_eq (key_of call) key)) [
    | inr e ↦ rw e (spec_budget rest history o.1 h ts)
    | inl e ↦
        let (w, same) = o.0 ((eq_iff (key_of call) key).0 e) in
        rw (e, same)
          (elim (Bool-cases (ltb (live now window history) limit)) [
            | inr full ↦ rw full (spec_budget rest history o.1 h ts)
            | inl room ↦ rw room (
                ground (
                  arith,
                  spec_budget rest (now ∷ history) o.1 (next_capped now history h (ltb→lt _ _ room))
                      ts,
                ))
          ])
  ]

-- In any window that ends at `ts`, an empty table has granted at most `limit` of the hits that were
-- asked for on a key, if all calls on the key are `allow` with that limit, whatever the other calls
-- are, as long as times do not go back and no call's window is shorter than the key's.
pub granted-le-limit :
    (key : String) (limit window : ℕ) (calls : List (Call × ℕ)) (ts : ℕ)
    → Fits key window 0 calls
    → OnlyAllows key limit calls
    → hits_in ts window (granted key calls (answers key calls [])) ≤ limit
granted-le-limit key limit window calls ts f o =
    rw (answers-eq-spec key window calls f)
      (omega (arith, spec_budget key limit window calls [] o (λ t. omega arith) ts))
