-- ===== src/Processes.antt =====
-- server.py: the functions that decide which users a GPU's time is charged to (clean_text applied to
-- the stored fields, same_process_cohort, confirmed_process_users, attributable_process_users,
-- carry_verified_process_owners, add_user_seconds), over the process records that
-- gpu_watch/processes.py, sanitize_process, produces.
pub mod Carry
pub mod Charge
use Prim.Native.Char.{code}
use Prim.Native.String
use gpu_watch.Prelude.{
  ℕ, ◌+◌, ◌/◌, Bool, true, false, not, ◌&&◌, ◌||◌, Option, none, some, List, [], ◌∷◌, map, String,
  ltb, ◌==◌, str_eq, if◌then◌else◌, length,
}
use gpu_watch.Prelude.Dict.{Dict, get_or, insert}
use gpu_watch.Text.{clean_text}

-- A sanitised process. A missing `start_identity` or `container_id` is `none`.
pub record Process : Type 0 where
  pub pid : ℕ
  pub user : String
  pub process_name : String
  pub command_summary : String
  pub used_memory : Option ℕ
  pub started : String
  pub container_name : String
  pub container_id : Option String
  pub start_identity : Option String

-- What identifies a generation of a PID: its start time, and its start ticks where they are known.
pub record Identity : Type 0 where
  pub started : String
  pub generation : String

unfoldable pub identity_of : Process → Identity
identity_of process = record {
  started = clean_text (some process.started) 64;
  generation = clean_text process.start_identity 32;
}

module _ {ℓ} {A : Type ℓ} where
  unfoldable pub find_pid : ℕ → List (ℕ × A) → Option A
  find_pid pid [] = none
  find_pid pid ((p, a) ∷ rest) = if p == pid then some a else find_pid pid rest

abbrev pub is_known {ℓ} : {A : Type ℓ} → Option A → Bool
is_known none = false
is_known (some a) = true

-- `identities(processes)`: `none` if a PID is not positive or is listed twice
unfoldable pub identities_from : List (ℕ × Identity) → List Process → Option (List (ℕ × Identity))
unfolding find_pid
identities_from result [] = some result
identities_from result (process ∷ rest) =
    let more = identities_from ((process.pid, identity_of process) ∷ result) rest in
    if process.pid == 0 || is_known (find_pid process.pid result) then none else more

unfoldable pub identities : List Process → Option (List (ℕ × Identity))
unfolding identities_from
identities processes = identities_from [] processes

unfoldable pub has_all_keys : List (ℕ × Identity) → List (ℕ × Identity) → Bool
has_all_keys [] other = true
has_all_keys ((pid, _) ∷ rest) other = is_known (find_pid pid other) && has_all_keys rest other

-- One round of the loop over the PIDs: the start times are known and equal, and if either sample has
-- start ticks, both have the same.
unfoldable pub same_generation : Identity → Identity → Bool
same_generation previous current =
    not (str_eq previous.started "")
    && (str_eq previous.started current.started
        && not (
            (not (str_eq previous.generation "") || not (str_eq current.generation ""))
            && (str_eq previous.generation ""
                || (str_eq current.generation ""
                    || not (str_eq previous.generation current.generation)))))

unfoldable pub all_same_generation : List (ℕ × Identity) → List (ℕ × Identity) → Bool
all_same_generation [] current = true
all_same_generation ((pid, previous) ∷ rest) current =
    elim (find_pid pid current) [ none ↦ false | some now ↦ same_generation previous now ]
    && all_same_generation rest current

abbrev pub is_empty {ℓ} : {A : Type ℓ} → List A → Bool
is_empty [] = true
is_empty (x ∷ xs) = false

unfoldable pub same_identities : Option (List (ℕ × Identity)) → Option (List (ℕ × Identity)) → Bool
same_identities none current = false
same_identities (some previous) none = false
same_identities (some previous) (some current) =
    not (is_empty previous || is_empty current)
    && (has_all_keys previous current
        && (has_all_keys current previous && all_same_generation previous current))

unfoldable pub same_process_cohort : List Process → List Process → Bool
unfolding identities same_identities has_all_keys all_same_generation find_pid same_generation
    identity_of
same_process_cohort previous current =
    not (is_empty previous || is_empty current)
    && same_identities (identities previous) (identities current)

-- Python orders texts by code points.
unfoldable pub text_le : String → String → Bool
text_le String.[] t = true
text_le (String.◌∷◌ c s) String.[] = false
text_le (String.◌∷◌ c s) (String.◌∷◌ d t) =
    ltb (code c) (code d) || (code c == code d && text_le s t)

-- One name put into a sorted list without repetitions: `sorted({...})` adds them one by one.
unfoldable pub insert_name : String → List String → List String
unfolding text_le
insert_name name [] = name ∷ []
insert_name name (x ∷ xs) =
    let rest = insert_name name xs in
    if str_eq name x then x ∷ xs else if text_le name x then name ∷ x ∷ xs else x ∷ rest

-- `clean_text(process.get("user"), 64)`
abbrev pub user_of : Process → String
user_of process = clean_text (some process.user) 64

-- `in ("", "?")`
abbrev pub is_unknown : String → Bool
is_unknown user = str_eq user "" || str_eq user "?"

unfoldable pub confirmed_process_users : List Process → List String
unfolding insert_name
confirmed_process_users [] = []
confirmed_process_users (process ∷ rest) =
    let users = confirmed_process_users rest in
    if is_unknown (user_of process) then users else insert_name (user_of process) users

unfoldable pub any_unknown : List Process → Bool
any_unknown [] = false
any_unknown (process ∷ rest) = is_unknown (user_of process) || any_unknown rest

unfoldable pub attributable_process_users : List Process → List String
unfolding any_unknown confirmed_process_users
attributable_process_users processes =
    if is_empty processes || any_unknown processes then [] else confirmed_process_users processes

-- How often a PID is listed.
unfoldable pub times_listed : ℕ → List Process → ℕ
times_listed pid [] = 0
times_listed pid (process ∷ rest) = (if process.pid == pid then 1 else 0) + times_listed pid rest

-- `unique_processes(processes).get(pid)`: a positive PID that is listed exactly once
unfoldable pub first_with : ℕ → List Process → Option Process
first_with pid [] = none
first_with pid (process ∷ rest) = if process.pid == pid then some process else first_with pid rest

unfoldable pub unique_process : ℕ → List Process → Option Process
unfolding first_with times_listed
unique_process pid processes =
    if not (pid == 0) && times_listed pid processes == 1 then first_with pid processes else none

-- What the loop does with one process of the current sample, given the unique process of that PID in
-- the previous one.
unfoldable pub carry_from : List Process → Process → Option Process → Process
unfolding times_listed
carry_from current process none = process
carry_from current process (some old) =
    if times_listed process.pid current == 1
      && (not (process.pid == 0)
          && (same_process_cohort (old ∷ []) (process ∷ [])
              && (is_unknown (user_of process) && not (is_unknown (user_of old)))))
    then record process { user = user_of old }
    else process

unfoldable pub carry_owner : List Process → List Process → Process → Process
unfolding carry_from unique_process
carry_owner previous current process =
    carry_from current process (unique_process process.pid previous)

-- The current processes after the call. (`changed` is whether any of them is another one.)
unfoldable pub carry_verified_process_owners : List Process → List Process → List Process
unfolding carry_owner
carry_verified_process_owners previous current = map (carry_owner previous current) current

-- `target[user] = target.get(user, 0.0) + share` for each user
unfoldable pub add_shares : ℕ → List String → Dict ℕ → Dict ℕ
add_shares share [] target = target
add_shares share (user ∷ users) target =
    add_shares share users (insert user (get_or user 0 target + share) target)

-- Times are whole milliseconds, so a share is rounded down to one.
unfoldable pub add_user_seconds : Dict ℕ → List String → ℕ → Dict ℕ
unfolding add_shares
add_user_seconds target users seconds =
    if seconds == 0 || is_empty users
    then target
    else add_shares (seconds / length users) users target
