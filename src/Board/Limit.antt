-- ===== src/Board/Limit.antt =====
-- How many announcements are active at once.
use gpu_watch.Prelude.{
  ℕ, ◌+◌, ◌≤◌, ◌≡◌, Bool, true, List, [], ◌∷◌, ◌++◌, String, leb, arith, Bool-cases, inl, inr,
}
use gpu_watch.Board.Content.{Content, Result, err, ok}
use gpu_watch.Board.Notices.{
  Notice, Board, is_active, active_count, max_active, new_notice, is_unchanged, update_rows,
  commit_change, updated_notice, deleted_notice, commit_add, commit_update, commit_delete,
}

-- Fewer are active later.
active_count_later :
    (ts now : ℕ) (rows : List Notice) → ts ≤ now → active_count now rows ≤ active_count ts rows
unfolding active_count is_active
active_count_later ts now [] h = omega arith
active_count_later ts now (row ∷ rows) h = ground (arith, active_count_later ts now rows)

active_count-append :
    (ts : ℕ) (rows more : List Notice)
    → active_count ts (rows ++ more) ≡ active_count ts rows + active_count ts more
unfolding active_count
active_count-append ts [] more = omega arith
active_count-append ts (row ∷ rows) more = omega (arith, active_count-append ts rows more)

-- A change of active rows does not make more of them active.
active_count-update_rows :
    (now : ℕ) (test : Notice → Bool) (change : Notice → Notice) (rows : List Notice)
    → ((row : Notice) → test row ≡ true → is_active now row ≡ true)
    → active_count now (update_rows test change rows).0 ≤ active_count now rows
unfolding active_count update_rows
active_count-update_rows now test change [] h = omega arith
active_count-update_rows now test change (row ∷ rows) h =
    let rest = active_count-update_rows now test change rows h in
    elim (Bool-cases (test row)) [
      | inl e ↦ let active = h row e in rw (e, active) (ground (arith, rest))
      | inr e ↦ rw e (omega (arith, rest))
    ]

-- The second transaction of a call, with the time at which it runs.
pub data Commit : Type 0 where
  add_commit : Content → String → ℕ → ℕ → Commit
  update_commit : Content → Notice → ℕ → ℕ → Commit
  delete_commit : String → Notice → ℕ → ℕ → Commit

abbrev pub time_of : Commit → ℕ
time_of (add_commit content pin_hash ts now) = now
time_of (update_commit content seen ts now) = now
time_of (delete_commit by seen ts now) = now

-- A refused call leaves the table as it was.
abbrev pub after_change : Board → Result Board → Board
after_change before (err error) = before
after_change before (ok after) = after

abbrev pub after_add : Board → Result (Board × ℕ) → Board
after_add before (err error) = before
after_add before (ok (after, id)) = after

unfoldable pub run_commit : Commit → Board → Board
run_commit (add_commit content pin_hash ts now) board =
    after_add board (commit_add content pin_hash ts board)
run_commit (update_commit content seen ts now) board =
    after_change board (commit_update content seen ts now board)
run_commit (delete_commit by seen ts now) board =
    after_change board (commit_delete by seen ts now board)

-- All the second transactions, the oldest last.
unfoldable pub run_commits : List Commit → Board
unfolding run_commit
run_commits [] = record { rows = []; next_id = 1 }
run_commits (c ∷ earlier) = run_commit c (run_commits earlier)

-- An add starts before it commits.
abbrev pub IsStarted : Commit → Type 0
IsStarted (add_commit content pin_hash ts now) = ts ≤ now
IsStarted (update_commit content seen ts now) = Unit
IsStarted (delete_commit by seen ts now) = Unit

abbrev pub last_time_of : List Commit → ℕ
last_time_of [] = 0
last_time_of (c ∷ earlier) = time_of c

-- The transactions run one after another.
abbrev pub IsHistory : List Commit → Type 0
IsHistory [] = Unit
IsHistory (c ∷ earlier) = IsStarted c × (last_time_of earlier ≤ time_of c) × IsHistory earlier

commit_change-le :
    (now : ℕ) (test : Notice → Bool) (change : Notice → Notice) (board : Board)
    → ((row : Notice) → test row ≡ true → is_active now row ≡ true)
    → active_count now (after_change board (commit_change test change board)).rows
      ≤ active_count now board.rows
unfolding commit_change
commit_change-le now test change board h =
    ground (arith, active_count-update_rows now test change board.rows h)

unchanged-active :
    (now : ℕ) (seen row : Notice) → is_unchanged now seen row ≡ true → is_active now row ≡ true
unfolding is_unchanged
unchanged-active now seen row h = ground arith

active_count-one : (ts : ℕ) (row : Notice) → active_count ts (row ∷ []) ≤ 1
unfolding active_count
active_count-one ts row = ground arith

run_commit-bounded :
    (c : Commit) (board : Board)
    → IsStarted c
    → active_count (time_of c) board.rows ≤ max_active
    → active_count (time_of c) (run_commit c board).rows ≤ max_active
unfolding run_commit commit_add commit_update commit_delete
run_commit-bounded (add_commit content pin_hash ts now) board h bound =
    elim (Bool-cases (leb max_active (active_count ts board.rows))) [
      | inl full ↦ rw full bound
      | inr room ↦
          let added =
            active_count-append ts board.rows (new_notice board.next_id ts content pin_hash ∷ []) in
          let one = active_count-one ts (new_notice board.next_id ts content pin_hash) in
          let later =
            active_count_later ts now
              (board.rows ++ new_notice board.next_id ts content pin_hash ∷ []) h in
          rw room (ground (arith, added, one, later))
    ]
run_commit-bounded (update_commit content seen ts now) board h bound = omega (
  arith,
  commit_change-le now (is_unchanged now seen) (updated_notice content ts) board
      (unchanged-active now seen),
)
run_commit-bounded (delete_commit by seen ts now) board h bound = omega (
  arith,
  commit_change-le now (is_unchanged now seen) (deleted_notice by ts) board
      (unchanged-active now seen),
)

-- However the calls of add, update and delete come in between one another, no more than 20
-- announcements are active from the last transaction on.
pub run_commits-bounded :
    (history : List Commit) (ts : ℕ)
    → IsHistory history
    → last_time_of history ≤ ts
    → active_count ts (run_commits history).rows ≤ max_active
unfolding run_commits active_count
run_commits-bounded [] ts h late = omega arith
run_commits-bounded (c ∷ earlier) ts h late =
    let before = run_commits-bounded earlier (time_of c) h.2 h.1 in
    let after = run_commit-bounded c (run_commits earlier) h.0 before in
    omega (arith, active_count_later (time_of c) ts (run_commit c (run_commits earlier)).rows late)
