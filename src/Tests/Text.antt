-- ===== src/Tests/Text.antt =====
-- Runs of clean_text and of the users column's functions of server.py.
use gpu_watch.Prelude.{Option, some, String, ◌≡◌, refl}
use gpu_watch.Text.{is_space, clean_text, strip, split}
use gpu_watch.Store.Users.{split_user_text, normalize_user_text}

abbrev padded : Option String
padded = some "  kim \t\n lee  park "

padded_run : clean_text padded 9 ≡ "kim lee p"
unfolding clean_text is_space
padded_run = refl

users_run : normalize_user_text (some "kim,?, lee ,,kim") ≡ some "kim, lee"
unfolding normalize_user_text split_user_text split strip is_space
users_run = refl
