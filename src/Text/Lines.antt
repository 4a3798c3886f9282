-- ===== src/Text/Lines.antt =====
-- server.py, clean_multiline_text.
use Prim.Native.Char.{code}
use gpu_watch.Prelude.{ℕ, suc, Bool, false, ◌&&◌, Option, String, leb, ◌==◌, if◌then◌else◌}
use gpu_watch.Text.{strip, take_text, text_or}

-- `.replace("\r\n", "\n").replace("\r", "\n")`; the flag tells that a "\r" has just been read.
unfoldable pub unify_newlines : Bool → String → String
unify_newlines after_return String.[] = ""
unify_newlines after_return (String.◌∷◌ c s) =
    let rest = unify_newlines (code c == 13) s in
    if code c == 13
    then String.◌∷◌ "\n" rest
    else if after_return && code c == 10
    then rest
    else String.◌∷◌ c rest

-- `re.sub(r"\n{3,}", "\n\n", s)`; `run` is how many newlines stand before the text.
unfoldable pub limit_newlines : ℕ → String → String
limit_newlines run String.[] = ""
limit_newlines run (String.◌∷◌ c s) =
    let rest = limit_newlines (if code c == 10 then suc run else 0) s in
    if code c == 10 && leb 2 run then rest else String.◌∷◌ c rest

unfoldable pub clean_multiline_text : Option String → ℕ → String
unfolding strip take_text unify_newlines limit_newlines
clean_multiline_text value max_length =
    take_text max_length (strip (limit_newlines 0 (unify_newlines false (text_or value))))
