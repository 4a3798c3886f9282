-- ===== src/Redaction.antt =====
-- gpu_watch/security.py, redact_sensitive_text, and server.py, safe_probe_error.
--
-- The two patterns that find labels, and the substitutions of safe_probe_error, are those of the
-- sources, given to Python's library `re`, which is a parameter. A key has ASCII letters, digits and the
-- four other letters that the patterns, which ignore case, find in it.
pub mod Labels
use Prim.Native.Char.{code}
use Prim.Native.String
use gpu_watch.Prelude.{
  ℕ, ◌+◌, ◌*◌, min, max, Bool, true, false, not, ◌&&◌, ◌||◌, List, [], ◌∷◌, ◌++◌, String, leb, ◌==◌,
  if◌then◌else◌, map,
}
use gpu_watch.Text.{strip, take_text, codes}

-- What is used of the library `re`, each function with its pattern first.
pub record Regex : Type 0 where
  -- `finditer(text)`: of each match, its group `key` and where it ends
  pub find_labels : String → String → List (String × ℕ)
  -- `sub(pattern, replacement, text)`
  pub sub : String → String → String → String
  -- `bool(search(pattern, text))`
  pub search : String → String → Bool

-- `s + t`
unfoldable pub append : String → String → String
append String.[] t = t
append (String.◌∷◌ c s) t = String.◌∷◌ c (append s t)

abbrev pub assignment_label : String
assignment_label = "(?i)(?<![A-Za-z0-9_.-])[\"']?(?P<key>[A-Za-z0-9_.-]{1,128})[\"']?\\s*[:=]\\s*"

abbrev pub cli_option_label : String
cli_option_label = "(?i)(?<!\\S)--(?P<key>[A-Za-z0-9_.-]{1,128})(?:=|\\s+)"

abbrev pub sensitive_key_parts : List (List ℕ)
sensitive_key_parts = map codes (
    "auth" ∷ "authorization" ∷ "bearer" ∷ "cookie" ∷ "credential" ∷ "csrf" ∷ "key" ∷ "passcode"
    ∷ "passphrase" ∷ "passwd" ∷ "password" ∷ "pin" ∷ "secret" ∷ "session" ∷ "sessionid" ∷ "token"
    ∷ "xsrf" ∷ [])

abbrev pub sensitive_key_suffixes : List (List ℕ)
sensitive_key_suffixes = map codes (
    "accesskey" ∷ "apikey" ∷ "authorization" ∷ "cookie" ∷ "credential" ∷ "passcode" ∷ "passphrase"
    ∷ "passwd" ∷ "password" ∷ "privatekey" ∷ "secret" ∷ "secretkey" ∷ "sessionid" ∷ "token" ∷ [])

-- `re.sub(r"[^a-z0-9]+", "_", s)`; the flag tells that the run has already given its "_"
unfoldable pub underscored : Bool → List ℕ → List ℕ
underscored in_run [] = []
underscored in_run (c ∷ s) =
    let keep = (leb 97 c && leb c 122) || (leb 48 c && leb c 57) in
    let rest = underscored (not keep) s in
    if keep then c ∷ rest else if in_run then rest else 95 ∷ rest

-- `s.split("_")`
unfoldable pub split_parts : List ℕ → List ℕ × List (List ℕ)
split_parts [] = ([], [])
split_parts (c ∷ s) =
    let (part, parts) = split_parts s in if c == 95 then ([], part ∷ parts) else (c ∷ part, parts)

-- `s.replace("_", "")`
unfoldable pub joined : List ℕ → List ℕ
joined [] = []
joined (c ∷ s) = let rest = joined s in if c == 95 then rest else c ∷ rest

unfoldable pub same_codes : List ℕ → List ℕ → Bool
same_codes [] [] = true
same_codes [] (d ∷ t) = false
same_codes (c ∷ s) [] = false
same_codes (c ∷ s) (d ∷ t) = c == d && same_codes s t

unfoldable pub has_codes : List ℕ → List (List ℕ) → Bool
unfolding same_codes
has_codes s [] = false
has_codes s (t ∷ texts) = same_codes s t || has_codes s texts

-- `parts.intersection(_SENSITIVE_KEY_PARTS)`; none of these is empty
unfoldable pub any_sensitive : List (List ℕ) → Bool
unfolding has_codes
any_sensitive [] = false
any_sensitive (part ∷ parts) = has_codes part sensitive_key_parts || any_sensitive parts

unfoldable pub has_suffix : List ℕ → List ℕ → Bool
unfolding same_codes
has_suffix suffix [] = same_codes suffix []
has_suffix suffix (c ∷ s) = same_codes suffix (c ∷ s) || has_suffix suffix s

unfoldable pub any_suffix : List (List ℕ) → List ℕ → Bool
unfolding has_suffix
any_suffix [] s = false
any_suffix (suffix ∷ suffixes) s = has_suffix suffix s || any_suffix suffixes s

-- `key.lower()`, for the letters that a key can have: U+212A is lowered to "k", U+0130 to "i" with a
-- dot above (U+0307), and U+0131 and U+017F are lower-case letters.
unfoldable pub lower_key : List ℕ → List ℕ
lower_key [] = []
lower_key (c ∷ s) =
    let rest = lower_key s in
    if c == 304
    then 105 ∷ 775 ∷ rest
    else if c == 8490
    then 107 ∷ rest
    else if leb 65 c && leb c 90
    then (c + 32) ∷ rest
    else c ∷ rest

-- The test of one match. Stripping "_" of the key changes neither its parts nor the joined key.
unfoldable pub is_sensitive : String → Bool
unfolding lower_key underscored split_parts joined any_sensitive any_suffix
is_sensitive key =
    let normalized = underscored false (lower_key (codes key)) in
    let (part, parts) = split_parts normalized in
    any_sensitive (part ∷ parts) || any_suffix sensitive_key_suffixes (joined normalized)

unfoldable pub ends_of : List (String × ℕ) → List ℕ
unfolding is_sensitive
ends_of [] = []
ends_of ((key, stop) ∷ matches) =
    let rest = ends_of matches in if is_sensitive key then stop ∷ rest else rest

unfoldable pub lowest : ℕ → List ℕ → ℕ
lowest n [] = n
lowest n (m ∷ ms) = lowest (min n m) ms

-- `re.sub(r"[\r\n\t]+", " ", s)`; the flag tells that the run has already given its space
unfoldable pub join_lines : Bool → String → String
join_lines in_run String.[] = ""
join_lines in_run (String.◌∷◌ c s) =
    let control = code c == 13 || code c == 10 || code c == 9 in
    let rest = join_lines control s in
    if control then (if in_run then rest else String.◌∷◌ " " rest) else String.◌∷◌ c rest

module _ (re : Regex) where
  -- `sensitive_ends`
  unfoldable pub sensitive_ends : String → List ℕ
  unfolding ends_of
  sensitive_ends text =
      ends_of (re.find_labels assignment_label text)
      ++ ends_of (re.find_labels cli_option_label text)

  unfoldable pub cut_at : String → List ℕ → String
  unfolding append lowest
  cut_at text [] = text
  cut_at text (stop ∷ stops) = append (take_text (lowest stop stops) text) "[redacted]"

  -- The line in which labels are sought.
  unfoldable pub diagnostic_line : ℕ → String → String
  unfolding join_lines
  diagnostic_line maximum raw = strip (join_lines false (take_text (maximum * 8) raw))

  -- The argument is the text `str(value or "")`.
  unfoldable pub redact_sensitive_text : String → ℕ → String
  unfolding sensitive_ends cut_at diagnostic_line
  redact_sensitive_text value limit =
      let maximum = max 1 limit in
      let text = diagnostic_line maximum value in
      take_text maximum (cut_at text (sensitive_ends text))

  -- The part of safe_probe_error for a line that names a private key.
  unfoldable pub hide_paths : String → String
  hide_paths text =
      if re.search "(?i)private key" text
      then re.sub "(?<![A-Za-z0-9])(?:[A-Za-z]:[\\\\/]|/)[^\\s:,\"']+" "[redacted-path]"
          (re.sub "([\"'])(?:[A-Za-z]:[\\\\/]|/).*?\\1" "\\1[redacted-path]\\1" text)
      else text

  unfoldable pub safe_probe_error : String → ℕ → String
  unfolding redact_sensitive_text hide_paths
  safe_probe_error value max_length = take_text max_length (
      re.sub "\\b[A-Za-z0-9+/]{128,}={0,2}\\b" "[redacted-command]" (
        hide_paths (
          re.sub "(?i)(permissions \\d+ for\\s+).*$" "\\1[redacted-path]" (
            re.sub "(?i)((?:identity file|load key|load pubkey)\\s+).*$" "\\1[redacted-path]"
              (redact_sensitive_text value max_length)))))
