-- ===== src/Board/Notices.antt =====
-- server.py, the table announcements, and Store.add_announcement, update_announcement and
-- delete_announcement.
--
-- Each operation runs in two transactions with the work on a passphrase between them, so other calls
-- may come in between: it is modelled by what it reads in the first one and by what it does in the
-- second, on a table that may be another one by then. `verify` is verify_pin, and the hash that
-- bounded_hash_passphrase makes for a new announcement is an argument.
use gpu_watch.Prelude.{
  ℕ, suc, ◌+◌, Bool, true, false, not, ◌&&◌, ◌||◌, Option, none, some, List, [], ◌∷◌, ◌++◌, String,
  leb, ltb, ◌==◌, str_eq, if◌then◌else◌,
}
use gpu_watch.Text.{text_or}
use gpu_watch.Board.Content.{
  Python, bad_passphrase, too_many, not_found, wrong_pin, Result, err, ok, ◌>>=◌, Content,
  is_valid_announcement_passphrase, validated_content,
}

pub record Notice : Type 0 where
  pub id : ℕ
  pub created_ts : ℕ
  pub content : Content
  pub pin_hash : String
  pub updated_ts : Option ℕ
  pub deleted_ts : Option ℕ
  pub deleted_by : Option String

-- The table announcements, oldest row first; `next_id` is what `autoincrement` gives next.
pub record Board : Type 0 where
  pub rows : List Notice
  pub next_id : ℕ

abbrev pub is_kept : Option ℕ → Bool
is_kept none = true
is_kept (some ts) = false

-- `deleted_ts is null and (permanent=1 or expires_ts>?)`
unfoldable pub is_active : ℕ → Notice → Bool
is_active ts row =
    is_kept row.deleted_ts && (row.content.permanent || ltb ts row.content.expires_ts)

-- `select count(*) ...`
unfoldable pub active_count : ℕ → List Notice → ℕ
active_count ts [] = 0
active_count ts (row ∷ rows) = (if is_active ts row then 1 else 0) + active_count ts rows

-- MAX_ACTIVE_ANNOUNCEMENTS
abbrev pub max_active : ℕ
max_active = 20

-- `... where id=? and <active>`, the primary key
unfoldable pub find_active : ℕ → ℕ → List Notice → Option Notice
find_active ts id [] = none
find_active ts id (row ∷ rows) =
    if row.id == id && is_active ts row then some row else find_active ts id rows

-- The arguments of a request for an announcement.
pub record NoticeForm : Type 0 where
  pub author : Option String
  pub message : Option String
  pub duration_seconds : Option String
  pub expires_at : Option String

abbrev pub new_notice : ℕ → ℕ → Content → String → Notice
new_notice id ts content pin_hash = record {
  id = id;
  created_ts = ts;
  content = content;
  pin_hash = pin_hash;
  updated_ts = some ts;
  deleted_ts = none;
  deleted_by = none;
}

-- Equality of two nullable times, where `=` on a null holds of nothing.
abbrev pub same_time : Option ℕ → Option ℕ → Bool
same_time none b = false
same_time (some a) none = false
same_time (some a) (some b) = a == b

-- `where id=? and <active> and pin_hash=? and updated_ts=?`
unfoldable pub is_unchanged : ℕ → Notice → Notice → Bool
unfolding is_active
is_unchanged now seen row =
    row.id == seen.id
    && (is_active now row
        && (str_eq row.pin_hash seen.pin_hash && same_time row.updated_ts seen.updated_ts))

-- The rows after the update, and its rowcount.
unfoldable pub update_rows : (Notice → Bool) → (Notice → Notice) → List Notice → List Notice × ℕ
update_rows test change [] = ([], 0)
update_rows test change (row ∷ rows) =
    let (rest, count) = update_rows test change rows in
    if test row then (change row ∷ rest, suc count) else (row ∷ rest, count)

-- The second transaction of an update or a deletion.
unfoldable pub commit_change : (Notice → Bool) → (Notice → Notice) → Board → Result Board
unfolding update_rows
commit_change test change board =
    let (rows, count) = update_rows test change board.rows in
    if count == 1 then ok (record board { rows = rows }) else err not_found

-- `verify_pin(supplied_pin, hash)`, with its `None`
abbrev pub verify_with : (String → String → Bool) → String → Option String → Bool
verify_with verify supplied_pin none = false
verify_with verify supplied_pin (some hash) = verify supplied_pin hash

abbrev pub updated_notice : Content → ℕ → Notice → Notice
updated_notice content ts row = record row { content = content; updated_ts = some ts }

abbrev pub deleted_notice : String → ℕ → Notice → Notice
deleted_notice by ts row = record row { deleted_ts = some ts; deleted_by = some by }

module _ (python : Python) (verify : String → String → Bool) where
  -- add_announcement up to the first count
  unfoldable pub begin_add : NoticeForm → Option String → ℕ → Board → Result Content
  unfolding active_count
  begin_add form pin ts board =
      validated_content python form.author form.message form.duration_seconds form.expires_at ts
      >>= λ content.
          if not (is_valid_announcement_passphrase python pin)
          then err bad_passphrase
          else if leb max_active (active_count ts board.rows)
          then err too_many
          else ok content

  -- Who may change the row.
  unfoldable pub authorized : String → Option String → Notice → Option String
  authorized supplied_pin admin_pin_hash row =
      if verify supplied_pin row.pin_hash
      then some "owner"
      else if verify_with verify supplied_pin admin_pin_hash
      then some "admin"
      else none

  abbrev pub require_row : Option Notice → Result Notice
  require_row none = err not_found
  require_row (some row) = ok row

  abbrev pub require_owner : Notice → Option String → Result (Notice × String)
  require_owner row none = err wrong_pin
  require_owner row (some by) = ok (row, by)

  -- The row that was read, and by whom it may be changed.
  unfoldable pub begin_change :
      ℕ → Option String → Option String → ℕ → Board → Result (Notice × String)
  unfolding find_active authorized
  begin_change id pin admin_pin_hash ts board =
      if not (is_valid_announcement_passphrase python (some (text_or pin)))
      then err bad_passphrase
      else require_row (find_active ts id board.rows) >>= λ row.
          require_owner row (authorized (text_or pin) admin_pin_hash row)

  -- update_announcement up to the second transaction
  unfoldable pub begin_update :
      ℕ → NoticeForm → Option String → Option String → ℕ → Board → Result (Content × Notice)
  unfolding begin_change
  begin_update id form pin admin_pin_hash ts board =
      validated_content python form.author form.message form.duration_seconds form.expires_at ts
      >>= λ content. begin_change id pin admin_pin_hash ts board >>= λ seen. ok (content, seen.0)

-- The second transaction of add_announcement, and the new id.
unfoldable pub commit_add : Content → String → ℕ → Board → Result (Board × ℕ)
unfolding active_count
commit_add content pin_hash ts board =
    if leb max_active (active_count ts board.rows)
    then err too_many
    else ok (
      record {
        rows = board.rows ++ new_notice board.next_id ts content pin_hash ∷ [];
        next_id = suc board.next_id;
      },
      board.next_id,
    )

-- The second transactions of the others; `now` is their own reading of the clock.
unfoldable pub commit_update : Content → Notice → ℕ → ℕ → Board → Result Board
unfolding commit_change is_unchanged
commit_update content seen ts now board =
    commit_change (is_unchanged now seen) (updated_notice content ts) board

unfoldable pub commit_delete : String → Notice → ℕ → ℕ → Board → Result Board
unfolding commit_change is_unchanged
commit_delete by seen ts now board =
    commit_change (is_unchanged now seen) (deleted_notice by ts) board
