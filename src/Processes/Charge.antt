-- ===== src/Processes/Charge.antt =====
-- The time of an interval is shared among the owners that are known, only if all are.
use native.Mathlib.Nat.{div-add-mod}
use gpu_watch.Prelude.{
  ℕ, ◌+◌, ◌*◌, ◌/◌, ◌%◌, Bool, true, false, not, ◌&&◌, ◌||◌, List, [], ◌∷◌, String, str_eq,
  if◌then◌else◌, ◌==◌, length, ◌≡◌, refl, ◌∙◌, inl, inr, arith, Bool-cases, eq_iff,
}
use gpu_watch.Prelude.Dict.{Dict, lookup, get_or, insert}
use gpu_watch.Prelude.{ap}
use gpu_watch.Processes.{
  Process, user_of, is_unknown, is_empty, insert_name, confirmed_process_users, any_unknown,
  attributable_process_users, add_shares, add_user_seconds,
}

-- The seconds of all users.
unfoldable pub total : Dict ℕ → ℕ
total [] = 0
total ((user, seconds) ∷ rest) = seconds + total rest

total-insert :
    (user : String) (value : ℕ) (target : Dict ℕ)
    → total (insert user value target) + get_or user 0 target ≡ total target + value
unfolding total insert lookup
total-insert user value [] = omega arith
total-insert user value ((name, seconds) ∷ rest) = ground (arith, total-insert user value rest)

total-add_shares :
    (share : ℕ) (users : List String) (target : Dict ℕ)
    → total (add_shares share users target) ≡ total target + length users * share
unfolding add_shares
total-add_shares share [] target = omega arith
total-add_shares share (user ∷ users) target = omega (
  arith,
  total-add_shares share users (insert user (get_or user 0 target + share) target),
  total-insert user (get_or user 0 target + share) target,
)

-- With shares in whole milliseconds, charging an interval to one or more users adds its length, but for
-- what this rounding drops; charging it to nobody adds nothing.
pub total-add_user_seconds :
    (target : Dict ℕ) (users : List String) (seconds : ℕ)
    → total (add_user_seconds target users seconds)
        + (if is_empty users then seconds else seconds % length users)
      ≡ total target + seconds
unfolding add_user_seconds
total-add_user_seconds target [] seconds = ground arith
total-add_user_seconds target (user ∷ users) seconds = elim (Bool-cases (seconds == 0)) [
  | inl e ↦ rw e (let none_left : seconds ≡ 0 = ground arith in omega arith)
  | inr e ↦ rw e (
      omega (
        arith,
        total-add_shares (seconds / length (user ∷ users)) (user ∷ users) target,
        div-add-mod seconds (length (user ∷ users)),
      ))
]

-- `name in users`
abbrev pub contains : String → List String → Bool
contains name [] = false
contains name (x ∷ xs) = str_eq x name || contains name xs

-- Whether some process of the list belongs to `name`.
abbrev pub owns : String → List Process → Bool
owns name [] = false
owns name (process ∷ rest) = str_eq (user_of process) name || owns name rest

contains-insert_name :
    (name user : String) (users : List String)
    → contains name (insert_name user users) ≡ (str_eq user name || contains name users)
unfolding insert_name
contains-insert_name name user [] = refl
contains-insert_name name user (x ∷ xs) =
    ground
      (arith, eq_iff user x, eq_iff user name, eq_iff x name, contains-insert_name name user xs)

contains-confirmed :
    (name : String) (processes : List Process)
    → contains name (confirmed_process_users processes)
      ≡ (not (is_unknown name) && owns name processes)
unfolding confirmed_process_users
contains-confirmed name [] = ground arith
contains-confirmed name (process ∷ rest) = elim (Bool-cases (is_unknown (user_of process))) [
  | inl e ↦ rw e (contains-confirmed name rest ∙ skip (user_of process) name (owns name rest) e)
  | inr e ↦ rw e (
      contains-insert_name name (user_of process) (confirmed_process_users rest)
      ∙ (ap (λ b. str_eq (user_of process) name || b) (contains-confirmed name rest)
          ∙ take (user_of process) name (owns name rest) e))
]
  where
    skip :
        (user name : String) (b : Bool)
        → is_unknown user ≡ true
        → (not (is_unknown name) && b) ≡ (not (is_unknown name) && (str_eq user name || b))
    skip user name b e = elim (Bool-cases (str_eq user name)) [
      | inr other ↦ rw other
      | inl same ↦ let eq = (eq_iff user name).0 same in rw (← eq, e)
    ]

    take :
        (user name : String) (b : Bool)
        → is_unknown user ≡ false
        → (str_eq user name || (not (is_unknown name) && b))
          ≡ (not (is_unknown name) && (str_eq user name || b))
    take user name b e = elim (Bool-cases (str_eq user name)) [
      | inr other ↦ rw other
      | inl same ↦ let eq = (eq_iff user name).0 same in rw (same, ← eq, e)
    ]

owns_known :
    (name : String) (processes : List Process)
    → any_unknown processes ≡ false
    → (not (is_unknown name) && owns name processes) ≡ owns name processes
unfolding any_unknown
owns_known name [] e = ground arith
owns_known name (process ∷ rest) e = elim (Bool-cases (str_eq (user_of process) name)) [
  | inl same ↦
      let eq = (eq_iff (user_of process) name).0 same in
      let known : is_unknown (user_of process) ≡ false = ground arith in rw (same, ← eq, known)
  | inr other ↦ rw other (owns_known name rest (ground arith))
]

-- A name is charged exactly if it owns a process of the list and every process has a known owner.
pub contains-attributable :
    (name : String) (processes : List Process)
    → contains name (attributable_process_users processes)
      ≡ (not (any_unknown processes) && owns name processes)
unfolding attributable_process_users any_unknown
contains-attributable name [] = refl
contains-attributable name (process ∷ rest) = elim (Bool-cases (any_unknown (process ∷ rest))) [
  | inl e ↦ rw e
  | inr e ↦ rw e (contains-confirmed name (process ∷ rest) ∙ owns_known name (process ∷ rest) e)
]
