-- ===== src/Snapshots/Tokens.antt =====
-- gpu_watch/processes.py, the patterns _SAFE_*, as tests of characters, and `os.path.basename`.
use Prim.Native.Char.{Char, code}
use gpu_watch.Prelude.{
  ℕ, ◌+◌, Bool, true, false, ◌&&◌, ◌||◌, List, [], ◌∷◌, String, leb, ◌==◌, if◌then◌else◌,
}
use gpu_watch.Text.{size, split}

-- Every character passes the test.
unfoldable pub all_chars : (ℕ → Bool) → String → Bool
all_chars test String.[] = true
all_chars test (String.◌∷◌ c s) = test (code c) && all_chars test s

abbrev pub is_digit : ℕ → Bool
is_digit c = leb 48 c && leb c 57

abbrev pub is_alphanumeric : ℕ → Bool
is_alphanumeric c = is_digit c || (leb 65 c && leb c 90) || (leb 97 c && leb c 122)

abbrev pub is_hex : ℕ → Bool
is_hex c = is_digit c || (leb 65 c && leb c 70) || (leb 97 c && leb c 102)

-- `^[0-9a-fA-F]{12,64}$`
unfoldable pub is_container_id : String → Bool
unfolding all_chars size
is_container_id s = leb 12 (size s) && (leb (size s) 64 && all_chars is_hex s)

-- `^[0-9]{1,32}$`
unfoldable pub is_start_identity : String → Bool
unfolding all_chars size
is_start_identity s = leb 1 (size s) && (leb (size s) 32 && all_chars is_digit s)

-- `^[first][rest]{0,127}$`
unfoldable pub is_token : (ℕ → Bool) → (ℕ → Bool) → String → Bool
unfolding all_chars size
is_token first others String.[] = false
is_token first others (String.◌∷◌ c s) = first (code c) && (leb (size s) 127 && all_chars others s)

-- `_`, `.` and `-`
abbrev pub is_module_char : ℕ → Bool
is_module_char c = is_alphanumeric c || c == 95 || c == 46 || c == 45

abbrev pub is_command_char : ℕ → Bool
is_command_char c = is_module_char c || c == 43

-- `_SAFE_COMMAND_TOKEN`
abbrev pub is_command_token : String → Bool
is_command_token s = is_token is_alphanumeric is_command_char s

-- `_SAFE_MODULE_NAME`
abbrev pub is_module_name : String → Bool
is_module_name s = is_token is_alphanumeric is_module_char s

-- A letter that a pattern takes for an ASCII one when it ignores case: U+0130, U+0131, U+017F, U+212A.
abbrev pub is_folded_letter : ℕ → Bool
is_folded_letter c = c == 304 || c == 305 || c == 383 || c == 8490

-- The code points, with the letters that ignore case made small.
unfoldable pub fold_case : String → List ℕ
fold_case String.[] = []
fold_case (String.◌∷◌ c s) =
    let n = code c in
    (if leb 65 n && leb n 90 then n + 32 else if n == 383 then 115 else n) ∷ fold_case s

unfoldable pub last_of : String → List String → String
last_of piece [] = piece
last_of piece (next ∷ pieces) = last_of next pieces

-- The piece after the last separator: the whole text if there is none.
unfoldable pub last_piece : Char → String → String
unfolding split last_of
last_piece separator s = elim (split separator s) [
  | [] ↦ ""
  | piece ∷ pieces ↦ last_of piece pieces
]

-- `os.path.basename(path)`, of a POSIX path
unfoldable pub basename : String → String
unfolding last_piece
basename path = last_piece "/" path
