-- ===== src/Processes/Carry.antt =====
-- An owner is carried over to a later sample only where the same generation of the PID is proved.
use gpu_watch.Prelude.{
  Bool, true, false, not, ◌&&◌, Option, none, some, List, [], ◌∷◌, ◌==◌, ◌≡◌, ◌≢◌, ◌⊎◌, refl, inl,
  inr, arith, Bool-cases,
}
use gpu_watch.Processes.{
  Process, identity_of, identities, same_generation, same_process_cohort, carry_from, user_of,
  is_unknown, times_listed, unique_process, carry_owner,
}

all_passed :
    (a b c d e : Bool)
    → (a && (not b && (c && (d && not e)))) ≡ true
    → (a ≡ true) × (b ≡ false) × (c ≡ true) × (d ≡ true) × (e ≡ false)
all_passed a b c d e h = ground arith

-- Two single processes form one cohort exactly if they have one positive PID and one generation.
pub same_process_cohort_single :
    (old process : Process)
    → same_process_cohort (old ∷ []) (process ∷ []) ≡ true
    → (old.pid ≡ process.pid)
      × (process.pid ≢ 0)
      × (same_generation (identity_of old) (identity_of process) ≡ true)
unfolding same_process_cohort identities
same_process_cohort_single old process h = ground arith

-- What it takes to name an owner for `process`: the same PID, listed once in both samples and
-- positive, with the same start, whose owner was known and is not known now.
pub record Proves (previous current : List Process) (process old : Process) : Type 0 where
  pub found : unique_process process.pid previous ≡ some old
  pub once : times_listed process.pid current ≡ 1
  pub positive : process.pid ≢ 0
  pub generation : same_generation (identity_of old) (identity_of process) ≡ true
  pub unknown : is_unknown (user_of process) ≡ true
  pub known : is_unknown (user_of old) ≡ false

carry_from_sound :
    (previous current : List Process) (process : Process) (found : Option Process)
    → unique_process process.pid previous ≡ found
    → (carry_from current process found ≡ process)
      ⊎ ((old : Process) × Proves previous current process old
          × (carry_from current process found ≡ record process { user = user_of old }))
unfolding carry_from
carry_from_sound previous current process none e = inl refl
carry_from_sound previous current process (some old) e =
    elim (Bool-cases (
      times_listed process.pid current == 1
      && (not (process.pid == 0)
          && (same_process_cohort (old ∷ []) (process ∷ [])
              && (is_unknown (user_of process) && not (is_unknown (user_of old))))))) [
                | inr refused ↦ inl (rw refused)
                | inl proved ↦
                    let (once, positive, cohort, unknown, known) =
                      all_passed (times_listed process.pid current == 1) (process.pid == 0)
                        (same_process_cohort (old ∷ []) (process ∷ []))
                        (is_unknown (user_of process)) (is_unknown (user_of old)) proved in
                    let (_, nonzero, same) = same_process_cohort_single old process cohort in
                    inr (
                      old,
                      record {
                        found = e;
                        once = ground arith;
                        positive = nonzero;
                        generation = same;
                        unknown = unknown;
                        known = known;
                      },
                      rw proved,
                    )
              ]

-- A process of the current sample is left as it is, or it is given the owner that the evidence
-- names and nothing else of it changes.
pub carry_owner_sound :
    (previous current : List Process) (process : Process)
    → (carry_owner previous current process ≡ process)
      ⊎ ((old : Process) × Proves previous current process old
          × (carry_owner previous current process ≡ record process { user = user_of old }))
carry_owner_sound previous current process =
    unfold carry_owner in
    carry_from_sound previous current process (unique_process process.pid previous) refl
