-- ===== src/Tests/Board.antt =====
-- Runs of the announcements.
use Prim.Native.Char.{code}
use gpu_watch.Prelude.{
  ◌≤◌, ◌<◌, true, false, ◌&&◌, ◌⊎◌, none, some, str_eq, leb, ◌≡◌, ◌≢◌, refl, List, [], ◌∷◌, arith,
  if◌then◌else◌,
}
use gpu_watch.Prelude.Signed.{pos}
use gpu_watch.Text.{size, is_space, clean_text}
use gpu_watch.Text.Lines.{clean_multiline_text}
use gpu_watch.Board.Content.{
  Python, Content, err, ok, not_found, last_time, validated_content,
  is_valid_announcement_passphrase,
}
use gpu_watch.Board.Content.Laws.{validated_content_lem}
use gpu_watch.Board.Notices.{
  Notice, Board, NoticeForm, is_active, active_count, max_active, begin_update, commit_update,
  commit_delete, updated_notice, deleted_notice, new_notice,
}
use gpu_watch.Board.Limit.{Commit, add_commit, run_commits, run_commits-bounded}
use gpu_watch.Board.Consent.{IsIn, IsAllowed, commit_update-IsAllowed, commit_update-lost}
use gpu_watch.Board.Listing.{announcements, shows, has_active, announcements-shows}

-- A library that reads one time and one number.
abbrev python : Python
python = record {
  strptime = λ text format.
      if str_eq text "2026-12-01" && str_eq format "%Y-%m-%d"
      then some (pos 1796050800000)
      else none;
  read_int = λ text. if str_eq text "600" then some (pos 600) else none;
  is_printable = λ c. leb 32 (code c);
}

abbrev form : NoticeForm
form = record {
  author = some "kim";
  message = some "GPU 3 is back";
  duration_seconds = some "600";
  expires_at = none;
}

abbrev content : Content
content = record {
  author = "kim";
  message = "GPU 3 is back";
  expires_ts = 601000;
  permanent = false;
}

accepted :
    validated_content python (some "kim") (some "GPU 3 is back") (some "600") none 1000 ≡ ok content
unfolding validated_content clean_text clean_multiline_text is_space
accepted = refl

validated_content_lem_example :
    (content.author ≡ clean_text (some "kim") 32)
    × (content.author ≢ "")
    × (size content.message ≤ 240)
    × (content.message ≢ "")
    × (content.permanent
        ≡ (str_eq (clean_text none 64) "" && str_eq (clean_text (some "600") 32) ""))
    × ((content.permanent ≡ true)
        ⊎ ((1000 < content.expires_ts) × (content.expires_ts ≤ last_time)))
validated_content_lem_example =
    validated_content_lem python (some "kim") (some "GPU 3 is back") (some "600") none 1000 content
      accepted

abbrev history : List Commit
history = add_commit content "hash-b" 3000 4000 ∷ add_commit content "hash-a" 1000 2000 ∷ []

run_commits-bounded_example : active_count 5000 (run_commits history).rows ≤ max_active
run_commits-bounded_example =
    run_commits-bounded history 5000 (omega arith, omega arith, (omega arith, omega arith, tt))
      (omega arith)

abbrev board : Board
board = record { rows = new_notice 1 1000 content "secret" ∷ []; next_id = 2 }

few : active_count 5000 board.rows ≤ max_active
unfolding active_count is_active
few = omega arith

announcements-shows_example : shows 1 (announcements 5000 board.rows) ≡ has_active 5000 1 board.rows
announcements-shows_example = announcements-shows 5000 1 board.rows few

abbrev seen : Notice
seen = new_notice 1 1000 content "secret"

abbrev new_content : Content
new_content = record {
  author = "kim";
  message = "GPU 3 is back";
  expires_ts = 605000;
  permanent = false;
}

begun : begin_update python str_eq 1 form (some "secret") none 5000 board ≡ ok (new_content, seen)
unfolding begin_update validated_content clean_text clean_multiline_text is_space
    is_valid_announcement_passphrase size is_active
begun = refl

abbrev after : Board
after = record { rows = updated_notice new_content 5000 seen ∷ []; next_id = 2 }

committed : commit_update new_content seen 5000 6000 board ≡ ok after
unfolding commit_update
committed = refl

commit_update-IsAllowed_example :
    (row : Notice) × IsIn row board.rows
    × IsIn (updated_notice new_content 5000 row) after.rows
    × (row.id ≡ 1)
    × (is_active 6000 row ≡ true)
    × IsAllowed str_eq "secret" none row
commit_update-IsAllowed_example =
    commit_update-IsAllowed python str_eq 1 form (some "secret") none 5000 6000 board board after
      new_content seen begun committed

another_time : seen.updated_ts ≢ some 5000
another_time = λ e. ground arith

commit_update-lost_example : commit_update content seen 5500 6500 after ≡ err not_found
commit_update-lost_example =
    commit_update-lost seen new_content 5000 6000 6500 (omega arith) content 5500 board after
      another_time committed

abbrev removed : Board
removed = record { rows = deleted_notice "owner" 5000 seen ∷ []; next_id = 2 }

deleted : commit_delete "owner" seen 5000 6000 board ≡ ok removed
unfolding commit_delete
deleted = refl
