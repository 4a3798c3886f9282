-- ===== src/Snapshots/Bounds.antt =====
-- Every value that is kept of a snapshot lies in its range.
use gpu_watch.Prelude.{
  ℕ, zero, suc, ◌≤◌, Bool, true, false, not, ◌||◌, Option, none, some, List, [], ◌∷◌, String, ◌≡◌,
  refl, inl, inr, arith, Bool-cases, str_eq, ◌==◌, leb, length, All, if◌then◌else◌,
}
use gpu_watch.Prelude.Signed.{ℤ, pos, negsuc}
use gpu_watch.Text.{size, take_text, clean_text}
use gpu_watch.Text.Clean.{size-take_text}
use gpu_watch.Json.{
  Json, null, bool, int, float, str, array, object, Fields, Number, finite, infinite, Python, get,
  items_of, take_items, number_of, int_of, is_truthy,
}
use gpu_watch.Redaction.{Regex}
use gpu_watch.Processes.{Process}
use gpu_watch.Snapshots.Tokens.{all_chars, is_hex, is_container_id, is_start_identity}
use gpu_watch.Snapshots.Process.{
  gpu_numeric_limit, bounded_text, safe_label, only_if, container_id_of, start_identity_of,
  owner_of, container_name_of, clamp_memory, pid_of, process_fields, with_pid, sanitize_process,
  keep_processes, sanitize_processes,
}
use gpu_watch.Snapshots.Labels.{IsSummary, safe_label-clean, safe_command_summary-IsSummary}

-- What holds of a value that is there.
abbrev pub Each {ℓ κ} : {A : Type ℓ} → (A → Type κ) → Option A → Type κ
Each P none = Unit
Each P (some a) = P a

pub record IsSafe (process : Process) : Type 0 where
  pub pid_pos : 1 ≤ process.pid
  pub pid-le : process.pid ≤ gpu_numeric_limit
  pub user_size : size process.user ≤ 64
  pub user_known : str_eq process.user "?" ≡ false
  pub name_size : size process.process_name ≤ 128
  pub summary : IsSummary process.process_name process.command_summary
  pub memory-le : Each (λ memory. memory ≤ gpu_numeric_limit) process.used_memory
  pub started_size : size process.started ≤ 64
  pub container_size : size process.container_name ≤ 128
  pub container_id : Each (λ id. (size id ≡ 12) × (all_chars is_hex id ≡ true)) process.container_id
  pub start_identity : Each (λ ticks. is_start_identity ticks ≡ true) process.start_identity

pub size-bounded_text :
    (py : Python) (re : Regex) (value : Json) (limit : ℕ)
    → size (bounded_text py re value limit) ≤ limit
unfolding bounded_text clean_text
size-bounded_text py re value limit = size-take_text limit _

size-safe_label :
    (py : Python) (re : Regex) (value : Json) (limit : ℕ) (fallback : String) (is_path : Bool)
    → size fallback ≤ limit
    → size (safe_label py re value limit fallback is_path) ≤ limit
size-safe_label py re value limit fallback is_path h =
    elim (safe_label-clean py re value limit fallback is_path) [
      | inl e ↦ rw e h
      | inr clean ↦ clean.0
    ]

take_text_chars :
    (test : ℕ → Bool) (n : ℕ) (s : String)
    → n ≤ size s
    → all_chars test s ≡ true
    → (size (take_text n s) ≡ n) × (all_chars test (take_text n s) ≡ true)
unfolding all_chars size take_text
take_text_chars test zero s h k = (refl, refl)
take_text_chars test (suc n) String.[] h k = absurd (omega arith)
take_text_chars test (suc n) (String.◌∷◌ c s) h k = ground (arith, take_text_chars test n s)

is_container_id_parts :
    (s : String) → is_container_id s ≡ true → (12 ≤ size s) × (all_chars is_hex s ≡ true)
unfolding is_container_id
is_container_id_parts s h = ground arith

container_id-safe :
    (py : Python) (re : Regex) (process : Fields)
    → Each (λ id. (size id ≡ 12) × (all_chars is_hex id ≡ true)) (container_id_of py re process)
unfolding container_id_of
container_id-safe py re process = go (bounded_text py re (get "container_id" process) 64)
  where
    go :
        (s : String)
        → Each
            (λ id. (size id ≡ 12) × (all_chars is_hex id ≡ true))
            (only_if (is_container_id s) (take_text 12 s))
    go s = elim (Bool-cases (is_container_id s)) [
      | inl e ↦
          rw e (
            take_text_chars is_hex 12 s (is_container_id_parts s e).0 (is_container_id_parts s e).1)
      | inr e ↦ rw e tt
    ]

start_identity-safe :
    (py : Python) (re : Regex) (process : Fields)
    → Each (λ ticks. is_start_identity ticks ≡ true) (start_identity_of py re process)
unfolding start_identity_of
start_identity-safe py re process =
    let ticks = bounded_text py re (get "start_identity" process) 32 in
    elim (Bool-cases (is_start_identity ticks)) [ inl e ↦ rw e e | inr e ↦ rw e tt ]

user-safe :
    (py : Python) (re : Regex) (process : Fields)
    → (size (owner_of py re process) ≤ 64) × (str_eq (owner_of py re process) "?" ≡ false)
unfolding owner_of size
user-safe py re process =
    let user = safe_label py re (get "user" process) 64 "" false in
    let short : size user ≤ 64 =
      size-safe_label py re (get "user" process) 64 "" false (omega arith) in
    elim (Bool-cases (str_eq user "?")) [
      | inl e ↦ rw e (omega arith, refl)
      | inr e ↦ rw e (short, e)
    ]

clamp_memory-le : (n : Option Number) → Each (λ memory. memory ≤ gpu_numeric_limit) (clamp_memory n)
unfolding clamp_memory
clamp_memory-le none = tt
clamp_memory-le (some infinite) = tt
clamp_memory-le (some (finite (pos n))) = omega arith
clamp_memory-le (some (finite (negsuc n))) = omega arith

container_label_size : size "container" ≤ 128
unfolding size
container_label_size = omega arith

size-if : (b : Bool) (s : String) → size s ≤ 128 → size (if b then s else "") ≤ 128
unfolding size
size-if true s h = h
size-if false s h = omega arith

container_name-size :
    (py : Python) (re : Regex) (process : Fields) → size (container_name_of py re process) ≤ 128
unfolding container_name_of
container_name-size py re process =
    let value = get "container_name" process in
    size-if (is_truthy value) (safe_label py re value 128 "container" false)
      (size-safe_label py re value 128 "container" false container_label_size)

pid_of-range : (raw : Option ℤ) → Each (λ pid. (1 ≤ pid) × (pid ≤ gpu_numeric_limit)) (pid_of raw)
unfolding pid_of
pid_of-range none = tt
pid_of-range (some (negsuc n)) = tt
pid_of-range (some (pos n)) = elim (Bool-cases (n == 0 || not (leb n gpu_numeric_limit))) [
  | inl e ↦ rw e tt
  | inr e ↦ rw e (ground arith, ground arith)
]

process_fields-IsSafe :
    (py : Python) (re : Regex) (process : Fields) (pid : ℕ)
    → 1 ≤ pid
    → pid ≤ gpu_numeric_limit
    → IsSafe (process_fields py re process pid)
unfolding process_fields size
process_fields-IsSafe py re process pid low high = record {
  pid_pos = low;
  pid-le = high;
  user_size = (user-safe py re process).0;
  user_known = (user-safe py re process).1;
  name_size = size-safe_label py re (get "process_name" process) 128 "process" true (omega arith);
  summary = safe_command_summary-IsSummary py re (get "command_summary" process) _;
  memory-le = clamp_memory-le (number_of py (get "used_memory" process));
  started_size = size-bounded_text py re (get "started" process) 64;
  container_size = container_name-size py re process;
  container_id = container_id-safe py re process;
  start_identity = start_identity-safe py re process;
}

-- A process that is kept is safe.
pub sanitize_process-IsSafe :
    (py : Python) (re : Regex) (process : Json) → Each IsSafe (sanitize_process py re process)
unfolding sanitize_process with_pid
sanitize_process-IsSafe py re (object process) =
    go (pid_of (int_of py (get "pid" process))) (pid_of-range (int_of py (get "pid" process)))
  where
    go :
        (pid : Option ℕ)
        → Each (λ n. (1 ≤ n) × (n ≤ gpu_numeric_limit)) pid
        → Each IsSafe (with_pid py re process pid)
    go none h = tt
    go (some n) h = process_fields-IsSafe py re process n h.0 h.1
sanitize_process-IsSafe py re null = tt
sanitize_process-IsSafe py re (bool b) = tt
sanitize_process-IsSafe py re (int z) = tt
sanitize_process-IsSafe py re (float s) = tt
sanitize_process-IsSafe py re (str s) = tt
sanitize_process-IsSafe py re (array values) = tt

-- Every process is safe, and there are at most as many as values.
keep_processes-IsSafe :
    (py : Python) (re : Regex) (items : List Json)
    → All IsSafe (keep_processes py re items) × (length (keep_processes py re items) ≤ length items)
unfolding keep_processes
keep_processes-IsSafe py re [] = (tt, omega arith)
keep_processes-IsSafe py re (item ∷ items) =
    let rest = keep_processes-IsSafe py re items in
    go (sanitize_process py re item) (sanitize_process-IsSafe py re item)
      (keep_processes py re items) rest.0 rest.1
  where
    go :
        (kept : Option Process)
        → Each IsSafe kept
        → (processes : List Process) → All IsSafe processes
        → length processes ≤ length items
        → All IsSafe (elim kept [ none ↦ processes | some process ↦ process ∷ processes ])
          × (length (elim kept [ none ↦ processes | some process ↦ process ∷ processes ])
              ≤ suc (length items))
    go none safe processes all_safe short = (all_safe, omega arith)
    go (some process) safe processes all_safe short = ((safe, all_safe), omega arith)

pub length-take_items : (n : ℕ) (values : List Json) → length (take_items n values) ≤ n
unfolding take_items
length-take_items zero values = omega arith
length-take_items (suc n) [] = omega arith
length-take_items (suc n) (value ∷ values) = omega (arith, length-take_items n values)

pub sanitize_processes-IsSafe :
    (py : Python) (re : Regex) (processes : Json) (limit : ℕ)
    → All IsSafe (sanitize_processes py re processes limit)
      × (length (sanitize_processes py re processes limit) ≤ limit)
unfolding sanitize_processes
sanitize_processes-IsSafe py re (array processes) limit =
    let items = take_items limit (items_of processes) in
    let kept = keep_processes-IsSafe py re items in
    (kept.0, omega (arith, kept.1, length-take_items limit (items_of processes)))
sanitize_processes-IsSafe py re null limit = (tt, omega arith)
sanitize_processes-IsSafe py re (bool b) limit = (tt, omega arith)
sanitize_processes-IsSafe py re (int z) limit = (tt, omega arith)
sanitize_processes-IsSafe py re (float s) limit = (tt, omega arith)
sanitize_processes-IsSafe py re (str s) limit = (tt, omega arith)
sanitize_processes-IsSafe py re (object fields) limit = (tt, omega arith)
