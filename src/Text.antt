-- ===== src/Text.antt =====
-- Python's text operations as the sources use them, over code points, and `clean_text` of server.py
-- (which gpu_watch/processes.py repeats as `_text`).
pub mod Clean
pub mod Lines
use Prim.Native.Char.{Char, code}
use Prim.Native.String
use gpu_watch.Prelude.{◌+◌}
use gpu_watch.Prelude.{
  ℕ, zero, suc, Bool, true, false, ◌&&◌, ◌||◌, Option, none, some, List, [], ◌∷◌, String, leb, ◌==◌,
  str_eq, if◌then◌else◌,
}

-- `str.isspace`, which is also what `\s` matches in a text pattern
unfoldable pub is_space : Char → Bool
is_space symbol =
    let c = code symbol in
    (leb 9 c && leb c 13)
    || (leb 28 c && leb c 32)
    || c == 133
    || c == 160
    || c == 5760
    || (leb 8192 c && leb c 8202)
    || c == 8232
    || c == 8233
    || c == 8239
    || c == 8287
    || c == 12288

unfoldable pub lstrip : String → String
lstrip String.[] = ""
lstrip (String.◌∷◌ c s) = let rest = lstrip s in if is_space c then rest else String.◌∷◌ c s

-- `c` before a stripped text: dropped if it is a space and nothing is left
unfoldable pub rstrip_cons : Char → String → String
rstrip_cons c String.[] = if is_space c then "" else String.◌∷◌ c ""
rstrip_cons c (String.◌∷◌ d s) = String.◌∷◌ c (String.◌∷◌ d s)

unfoldable pub rstrip : String → String
unfolding rstrip_cons
rstrip String.[] = ""
rstrip (String.◌∷◌ c s) = rstrip_cons c (rstrip s)

-- `s.strip()`
unfoldable pub strip : String → String
unfolding lstrip rstrip is_space
strip s = rstrip (lstrip s)

-- `re.sub(r"\s+", " ", s)`; the flag tells that a run of spaces has already given its space
unfoldable pub collapse_from : Bool → String → String
collapse_from in_run String.[] = ""
collapse_from in_run (String.◌∷◌ c s) =
    let rest = collapse_from (is_space c) s in
    if is_space c then (if in_run then rest else String.◌∷◌ " " rest) else String.◌∷◌ c rest

-- `s[:n]`
unfoldable pub take_text : ℕ → String → String
take_text zero s = ""
take_text (suc n) String.[] = ""
take_text (suc n) (String.◌∷◌ c s) = String.◌∷◌ c (take_text n s)

-- `len(s)`
unfoldable pub size : String → ℕ
size String.[] = 0
size (String.◌∷◌ c s) = suc (size s)

abbrev pub text_or : Option String → String
text_or none = ""
text_or (some s) = s

-- `text or None`
abbrev pub or_none : String → Option String
or_none s = if str_eq s "" then none else some s

-- `re.sub(r"\s+", " ", str(value or "")).strip()[:max_length]`, of a text or `None`
unfoldable pub clean_text : Option String → ℕ → String
unfolding strip collapse_from take_text
clean_text value max_length = take_text max_length (strip (collapse_from false (text_or value)))

-- `s.split(separator)`, for a separator of one character; `current` is the piece being read
unfoldable pub split_from : Char → String → String × List String
split_from separator String.[] = ("", [])
split_from separator (String.◌∷◌ c s) =
    let (piece, pieces) = split_from separator s in
    if code c == code separator then ("", piece ∷ pieces) else (String.◌∷◌ c piece, pieces)

unfoldable pub split : Char → String → List String
unfolding split_from
split separator s = let (piece, pieces) = split_from separator s in piece ∷ pieces

-- The code points of a text.
abbrev pub codes : String → List ℕ
codes String.[] = []
codes (String.◌∷◌ c s) = code c ∷ codes s

-- The code points of `s.lower()`, for texts whose letters are ASCII: others are left as they are.
unfoldable pub lower : String → List ℕ
lower String.[] = []
lower (String.◌∷◌ c s) = let n = code c in (if leb 65 n && leb n 90 then n + 32 else n) ∷ lower s

-- `s.startswith(prefix)`
unfoldable pub has_prefix : List ℕ → List ℕ → Bool
has_prefix [] s = true
has_prefix (c ∷ p) [] = false
has_prefix (c ∷ p) (d ∷ s) = c == d && has_prefix p s

-- `needle in s`
unfoldable pub occurs_in : List ℕ → List ℕ → Bool
unfolding has_prefix
occurs_in needle [] = has_prefix needle []
occurs_in needle (c ∷ s) = has_prefix needle (c ∷ s) || occurs_in needle s

-- `any(needle in s for needle in needles)`
unfoldable pub any_occurs : List String → List ℕ → Bool
any_occurs [] s = false
any_occurs (needle ∷ needles) s = occurs_in (codes needle) s || any_occurs needles s
