-- ===== src/Snapshots/Process.antt =====
-- gpu_watch/processes.py, _text, _safe_label, _safe_command_summary, sanitize_process and
-- sanitize_processes.
use Prim.Native.Char.{code}
use gpu_watch.Prelude.{
  ℕ, ◌+◌, ◌*◌, min, Bool, true, false, not, ◌&&◌, ◌||◌, Option, none, some, List, [], ◌∷◌, String,
  leb, ◌==◌, str_eq, if◌then◌else◌,
}
use gpu_watch.Prelude.Signed.{ℤ, pos, negsuc}
use gpu_watch.Text.{size, clean_text, take_text, split, codes, occurs_in}
use gpu_watch.Json.{
  Json, array, object, Fields, Number, finite, infinite, Python, get, items_of, take_items,
  is_truthy, text_of, number_of, int_of,
}
use gpu_watch.Redaction.{Regex, redact_sensitive_text}
use gpu_watch.Processes.{Process}
use gpu_watch.Snapshots.Tokens.{
  all_chars, is_alphanumeric, is_command_char, is_folded_letter, is_container_id, is_start_identity,
  is_token, is_command_token, is_module_name, fold_case, last_piece, basename,
}

abbrev pub gpu_numeric_limit : ℕ
gpu_numeric_limit = 2147483647

-- `.(py|pyw|...)`, of the folded text after the last dot
abbrev pub script_extensions : List String
script_extensions =
    "py" ∷ "pyw" ∷ "sh" ∷ "bash" ∷ "zsh" ∷ "js" ∷ "mjs" ∷ "cjs" ∷ "r" ∷ "pl" ∷ "rb" ∷ "lua" ∷ []

unfoldable pub equal_codes : List ℕ → List ℕ → Bool
equal_codes [] [] = true
equal_codes [] (d ∷ t) = false
equal_codes (c ∷ s) [] = false
equal_codes (c ∷ s) (d ∷ t) = c == d && equal_codes s t

unfoldable pub is_one_of : List ℕ → List String → Bool
unfolding equal_codes
is_one_of s [] = false
is_one_of s (text ∷ texts) = equal_codes s (codes text) || is_one_of s texts

-- The stem's first character, of any case.
unfoldable pub starts_like_word : String → Bool
starts_like_word String.[] = false
starts_like_word (String.◌∷◌ c s) = let n = code c in is_alphanumeric n || is_folded_letter n

-- `_SAFE_SCRIPT_NAME`: a stem of at most 128 characters, a dot and an extension, in any case
unfoldable pub is_script_name : String → Bool
unfolding starts_like_word all_chars size last_piece fold_case is_one_of
is_script_name s =
    let extension = last_piece "." s in
    starts_like_word s
    && (all_chars (λ c. is_command_char c || is_folded_letter c) s
        && (leb (size extension + 2) (size s)
            && (leb (size s) (size extension + 129)
                && is_one_of (fold_case extension) script_extensions)))

-- `label and "[redacted]" not in redact_sensitive_text(label, limit + len("[redacted]"))`
unfoldable pub is_clean_label : Regex → String → ℕ → Bool
unfolding redact_sensitive_text occurs_in
is_clean_label re label limit =
    not (str_eq label "")
    && not (occurs_in (codes "[redacted]") (codes (redact_sensitive_text re label (limit + 10))))

-- `_SAFE_COMMAND_TOKEN.fullmatch(parts[0])` and what follows, of the words of the summary
unfoldable pub summary_of : String → String → List String → String
unfolding is_script_name is_token
summary_of summary process_name [] = process_name
summary_of summary process_name (command ∷ arguments) =
    if not (str_eq command process_name) || not (is_command_token command)
    then process_name
    else elim arguments [
      | [] ↦ command
      | argument ∷ [] ↦ if is_script_name argument then summary else process_name
      | argument ∷ name ∷ [] ↦
          if str_eq argument "-m" && is_module_name name then summary else process_name
      | argument ∷ name ∷ other ∷ more ↦ process_name
    ]

-- `max(0, min(_GPU_NUMERIC_LIMIT, int(numeric_memory)))`
unfoldable pub clamp_memory : Option Number → Option ℕ
clamp_memory none = none
clamp_memory (some infinite) = none
clamp_memory (some (finite (pos n))) = some (min gpu_numeric_limit n)
clamp_memory (some (finite (negsuc n))) = some 0

-- A PID in its range, for `int(raw_pid)`.
unfoldable pub pid_of : Option ℤ → Option ℕ
pid_of none = none
pid_of (some (negsuc n)) = none
pid_of (some (pos n)) = if n == 0 || not (leb n gpu_numeric_limit) then none else some n

abbrev pub only_if : Bool → String → Option String
only_if keep s = if keep then some s else none

module _ (py : Python) (re : Regex) where
  -- `_text(value, limit)`
  unfoldable pub bounded_text : Json → ℕ → String
  unfolding text_of clean_text
  bounded_text value limit = clean_text (some (text_of py value)) limit

  -- The label before it is checked; `basename` tells that a path's last part is wanted.
  unfoldable pub label_text : Json → ℕ → Bool → String
  unfolding bounded_text take_text basename
  label_text value limit is_path =
      let label = bounded_text value (limit * 2) in
      take_text limit (if is_path then basename label else label)

  unfoldable pub safe_label : Json → ℕ → String → Bool → String
  unfolding label_text is_clean_label
  safe_label value limit fallback is_path =
      let label = label_text value limit is_path in
      if is_clean_label re label limit then label else fallback

  unfoldable pub safe_command_summary : Json → String → String
  unfolding bounded_text summary_of split
  safe_command_summary value process_name =
      let summary = bounded_text value 260 in
      summary_of summary process_name (if str_eq summary "" then [] else split " " summary)

  -- `_text(process.get("container_id"), 64)`, cut to 12 characters
  unfoldable pub container_id_of : Fields → Option String
  unfolding bounded_text is_container_id take_text get
  container_id_of process =
      let container_id = bounded_text (get "container_id" process) 64 in
      only_if (is_container_id container_id) (take_text 12 container_id)

  unfoldable pub start_identity_of : Fields → Option String
  unfolding bounded_text is_start_identity get
  start_identity_of process =
      let start_identity = bounded_text (get "start_identity" process) 32 in
      only_if (is_start_identity start_identity) start_identity

  unfoldable pub owner_of : Fields → String
  unfolding safe_label get
  owner_of process =
      let user = safe_label (get "user" process) 64 "" false in if str_eq user "?" then "" else user

  unfoldable pub container_name_of : Fields → String
  unfolding safe_label get
  container_name_of process =
      let value = get "container_name" process in
      if is_truthy value then safe_label value 128 "container" false else ""

  -- The fields of the result, for a PID in its range.
  unfoldable pub process_fields : Fields → ℕ → Process
  unfolding owner_of safe_label safe_command_summary clamp_memory number_of bounded_text
      container_name_of container_id_of start_identity_of get
  process_fields process pid =
      let process_name = safe_label (get "process_name" process) 128 "process" true in
      record {
        pid = pid;
        user = owner_of process;
        process_name = process_name;
        command_summary = safe_command_summary (get "command_summary" process) process_name;
        used_memory = clamp_memory (number_of py (get "used_memory" process));
        started = bounded_text (get "started" process) 64;
        container_name = container_name_of process;
        container_id = container_id_of process;
        start_identity = start_identity_of process;
      }

  unfoldable pub with_pid : Fields → Option ℕ → Option Process
  unfolding process_fields
  with_pid process none = none
  with_pid process (some pid) = some (process_fields process pid)

  unfoldable pub sanitize_process : Json → Option Process
  unfolding with_pid pid_of int_of get
  sanitize_process (object process) = with_pid process (pid_of (int_of py (get "pid" process)))
  sanitize_process _ = none

  unfoldable pub keep_processes : List Json → List Process
  unfolding sanitize_process
  keep_processes [] = []
  keep_processes (item ∷ items) =
      let rest = keep_processes items in
      elim (sanitize_process item) [ none ↦ rest | some process ↦ process ∷ rest ]

  unfoldable pub sanitize_processes : Json → ℕ → List Process
  unfolding keep_processes take_items items_of
  sanitize_processes (array processes) limit =
      keep_processes (take_items limit (items_of processes))
  sanitize_processes _ limit = []
