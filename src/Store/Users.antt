-- ===== src/Store/Users.antt =====
-- server.py, split_user_text and normalize_user_text: the users column of events and intervals.
use gpu_watch.Prelude.{
  Bool, false, ◌||◌, Option, none, some, List, [], ◌∷◌, String, str_eq, if◌then◌else◌,
}
use Prim.Native.String.{◌++◌ as text_append}
use gpu_watch.Text.{strip, split, text_or}

unfoldable pub is_seen : String → List String → Bool
is_seen name [] = false
is_seen name (x ∷ xs) = str_eq x name || is_seen name xs

-- The loop over the parts, with the set of the users seen so far.
unfoldable pub collect_users : List String → List String → List String
unfolding is_seen
collect_users seen [] = []
collect_users seen (part ∷ parts) =
    let user = strip part in
    let skipped = collect_users seen parts in
    let taken = user ∷ collect_users (user ∷ seen) parts in
    if str_eq user "" || (str_eq user "?" || is_seen user seen) then skipped else taken

unfoldable pub split_user_text : Option String → List String
unfolding collect_users split
split_user_text user_text = collect_users [] (split "," (text_or user_text))

-- `", ".join(users)`
unfoldable pub join_users : List String → String
join_users [] = ""
join_users (user ∷ []) = user
join_users (user ∷ next ∷ users) = text_append user (text_append ", " (join_users (next ∷ users)))

unfoldable pub normalize_user_text : Option String → Option String
unfolding split_user_text join_users
normalize_user_text user_text = elim (split_user_text user_text) [
  | [] ↦ none
  | user ∷ users ↦ some (join_users (user ∷ users))
]
