-- ===== src/Board/Consent.antt =====
-- An announcement is changed only with its own passphrase or the administrator's, and only as it was
-- when the passphrase was checked.
use gpu_watch.Prelude.{
  ℕ, suc, ◌≤◌, ◌≡◌, ◌≢◌, ◌⊎◌, refl, Bool, true, false, ◌&&◌, Option, none, some, List, [], ◌∷◌,
  String, ◌==◌, arith, Bool-cases, inl, inr, eq_iff, All, ap, sym, subst,
}
use gpu_watch.Prelude.{◌∙◌, Option-cases}
use gpu_watch.Text.{text_or}
use gpu_watch.Board.Content.{
  Python, not_found, Content, Result, err, ok, is_valid_announcement_passphrase, validated_content,
}
use gpu_watch.Board.Notices.{
  Notice, Board, NoticeForm, is_active, is_unchanged, update_rows, commit_change, verify_with,
  authorized, find_active, begin_change, begin_update, commit_update, commit_delete, updated_notice,
  deleted_notice, same_time,
}

-- The row is among the rows.
abbrev pub IsIn : Notice → List Notice → Type 0
IsIn row [] = ⊥
IsIn row (r ∷ rows) = (r ≡ row) ⊎ IsIn row rows

none_changed :
    (test : Notice → Bool) (change : Notice → Notice) (rows : List Notice)
    → All (λ row. test row ≡ false) rows
    → (update_rows test change rows).1 ≡ 0
unfolding update_rows
none_changed test change [] h = refl
none_changed test change (row ∷ rows) h = rw h.0 (none_changed test change rows h.1)

all_refused :
    (test later : Notice → Bool) (change : Notice → Notice) (rows : List Notice)
    → ((row : Notice) → test row ≡ true → later (change row) ≡ false)
    → ((row : Notice) → test row ≡ false → later row ≡ false)
    → All (λ row. later row ≡ false) (update_rows test change rows).0
unfolding update_rows
all_refused test later change [] changed kept = tt
all_refused test later change (row ∷ rows) changed kept =
    let rest = all_refused test later change rows changed kept in
    elim (Bool-cases (test row)) [
      | inl e ↦ rw e (changed row e, rest)
      | inr e ↦ rw e (kept row e, rest)
    ]

commit_change-ok :
    (test : Notice → Bool) (change : Notice → Notice) (board : Board) {after : Board}
    → commit_change test change board ≡ ok after
    → ((update_rows test change board.rows).1 ≡ 1)
      × (after.rows ≡ (update_rows test change board.rows).0)
unfolding commit_change
commit_change-ok test change board {after} done =
    elim (Bool-cases ((update_rows test change board.rows).1 == 1)) [
      | inl e ↦
          let same : ok (record board { rows = (update_rows test change board.rows).0 })
              ≡ ok after =
            rw e at done in
          let eq : record board { rows = (update_rows test change board.rows).0 } ≡ after =
            cc same in
          (ground arith, ap (λ (b : Board). b.rows) (sym eq))
      | inr e ↦ let other : err not_found ≡ ok after = rw e at done in cc
    ]

-- A second transaction finds nothing to change after another one of the same reading.
commit_twice :
    (test later : Notice → Bool) (change change' : Notice → Notice) (board after : Board)
    → ((row : Notice) → test row ≡ true → later (change row) ≡ false)
    → ((row : Notice) → test row ≡ false → later row ≡ false)
    → commit_change test change board ≡ ok after
    → commit_change later change' after ≡ err not_found
commit_twice test later change change' board after changed kept done =
    let (one, rows) = commit_change-ok test change board done in
    let all : All (λ row. later row ≡ false) after.rows =
      subst (λ rs. All (λ row. later row ≡ false) rs) (sym rows)
        (all_refused test later change board.rows changed kept) in
    let none = none_changed later change' after.rows all in unfold commit_change in rw none

found-IsIn :
    (test : Notice → Bool) (change : Notice → Notice) (rows : List Notice) (n : ℕ)
    → (update_rows test change rows).1 ≡ suc n
    → (row : Notice) × IsIn row rows
      × (test row ≡ true)
      × IsIn (change row) (update_rows test change rows).0
unfolding update_rows
found-IsIn test change [] n h = cc
found-IsIn test change (row ∷ rows) n h = elim (Bool-cases (test row)) [
  | inl e ↦ (row, inl refl, e, rw e (inl refl))
  | inr e ↦
      let (found, member, passes, after) = found-IsIn test change rows n (rw e at h) in
      (found, inr member, passes, rw e (inr after))
]

same_time_ne : (a : Option ℕ) (b : ℕ) → a ≢ some b → same_time (some b) a ≡ false
same_time_ne none b h = refl
same_time_ne (some a) b h = elim (Bool-cases (b == a)) [
  | inr e ↦ e
  | inl e ↦ let same : a ≡ b = ground arith in absurd (h (ap some same))
]

unchanged_parts :
    (now : ℕ) (seen row : Notice)
    → is_unchanged now seen row ≡ true
    → (row.id ≡ seen.id) × (is_active now row ≡ true) × (row.pin_hash ≡ seen.pin_hash)
unfolding is_unchanged
unchanged_parts now seen row h =
    (ground arith, ground arith, ground (arith, eq_iff row.pin_hash seen.pin_hash))

module _ (seen : Notice) (content : Content) (ts now now' : ℕ) (order : now ≤ now') where
  unchanged_earlier :
      (row : Notice) → is_unchanged now seen row ≡ false → is_unchanged now' seen row ≡ false
  unfolding is_unchanged is_active
  unchanged_earlier row h = ground arith

  stale_update :
      seen.updated_ts ≢ some ts
      → (row : Notice) → is_unchanged now' seen (updated_notice content ts row) ≡ false
  unfolding is_unchanged is_active
  stale_update different row = rw (same_time_ne seen.updated_ts ts different) (ground arith)

  -- Of two updates that checked a passphrase against the same state of an announcement, the later
  -- one is refused, if the first gives it another time of update.
  pub commit_update-lost :
      (content' : Content) (ts' : ℕ) (board after : Board)
      → seen.updated_ts ≢ some ts
      → commit_update content seen ts now board ≡ ok after
      → commit_update content' seen ts' now' after ≡ err not_found
  unfolding commit_update
  commit_update-lost content' ts' board after different done =
      commit_twice (is_unchanged now seen) (is_unchanged now' seen) (updated_notice content ts)
        (updated_notice content' ts') board after (λ row e. stale_update different row)
        unchanged_earlier done

  -- An update does not bring a deleted announcement back.
  pub commit_delete-lost :
      (by : String) (ts' : ℕ) (board after : Board)
      → commit_delete by seen ts now board ≡ ok after
      → commit_update content seen ts' now' after ≡ err not_found
  unfolding commit_update commit_delete
  commit_delete-lost by ts' board after done =
      commit_twice (is_unchanged now seen) (is_unchanged now' seen) (deleted_notice by ts)
        (updated_notice content ts') board after (λ row e. gone row) unchanged_earlier done
    where
      gone : (row : Notice) → is_unchanged now' seen (deleted_notice by ts row) ≡ false
      gone row = unfold is_unchanged is_active in ground arith

-- What a change asks for.
abbrev pub IsAllowed : (String → String → Bool) → String → Option String → Notice → Type 0
IsAllowed verify supplied_pin admin_pin_hash row =
    (verify supplied_pin row.pin_hash ≡ true)
    ⊎ (verify_with verify supplied_pin admin_pin_hash ≡ true)

module _ (python : Python) (verify : String → String → Bool) where
  find_active-id :
      (ts id : ℕ) (rows : List Notice) (row : Notice)
      → find_active ts id rows ≡ some row
      → row.id ≡ id
  unfolding find_active
  find_active-id ts id [] row e = cc
  find_active-id ts id (r ∷ rows) row e = elim (Bool-cases (r.id == id && is_active ts r)) [
    | inl h ↦
        let same : r ≡ row = cc (rw h at e) in subst (λ (n : Notice). n.id ≡ id) same (ground arith)
    | inr h ↦ find_active-id ts id rows row (rw h at e)
  ]

  authorized-IsAllowed :
      (supplied_pin : String) (admin_pin_hash : Option String) (row : Notice) (by : String)
      → authorized python verify supplied_pin admin_pin_hash row ≡ some by
      → IsAllowed verify supplied_pin admin_pin_hash row
  unfolding authorized
  authorized-IsAllowed supplied_pin admin_pin_hash row by e =
      elim (Bool-cases (verify supplied_pin row.pin_hash)) [
        | inl own ↦ inl own
        | inr other ↦ elim (Bool-cases (verify_with verify supplied_pin admin_pin_hash)) [
          | inl admin ↦ inr admin
          | inr neither ↦ cc (rw (other, neither) at e)
        ]
      ]

  begin_change-IsAllowed :
      (id : ℕ) (pin admin_pin_hash : Option String) (ts : ℕ) (board : Board) (seen : Notice)
      (by : String)
      → begin_change python verify id pin admin_pin_hash ts board ≡ ok (seen, by)
      → (seen.id ≡ id) × IsAllowed verify (text_or pin) admin_pin_hash seen
  unfolding begin_change
  begin_change-IsAllowed id pin admin_pin_hash ts board seen by e =
      elim (Bool-cases (is_valid_announcement_passphrase python (some (text_or pin)))) [
        | inr bad ↦ cc (rw bad at e)
        | inl good ↦ elim (Option-cases (find_active ts id board.rows)) [
          | inl missing ↦ cc (rw (good, missing) at e)
          | inr (row, found) ↦
              elim (Option-cases (authorized python verify (text_or pin) admin_pin_hash row)) [
                | inl refused ↦ cc (rw (good, found, refused) at e)
                | inr (who, allowed) ↦
                    let eq : ok (row, who) ≡ ok (seen, by) = rw (good, found, allowed) at e in
                    let same : row ≡ seen = cc eq in
                    subst
                      (λ (n : Notice).
                        (n.id ≡ id) × IsAllowed verify (text_or pin) admin_pin_hash n)
                      same
                      (
                        find_active-id ts id board.rows row found,
                        authorized-IsAllowed (text_or pin) admin_pin_hash row who allowed,
                      )
              ]
        ]
      ]

  begin_update-change :
      (id : ℕ) (form : NoticeForm) (pin admin_pin_hash : Option String) (ts : ℕ) (board : Board)
      (content : Content) (seen : Notice)
      → begin_update python verify id form pin admin_pin_hash ts board ≡ ok (content, seen)
      → (by : String) × (begin_change python verify id pin admin_pin_hash ts board ≡ ok (seen, by))
  unfolding begin_update
  begin_update-change id form pin admin_pin_hash ts board content seen e =
      go
        (validated_content python form.author form.message form.duration_seconds form.expires_at ts)
        (begin_change python verify id pin admin_pin_hash ts board) refl refl
    where
      go :
          (validated : Result Content) (change : Result (Notice × String))
          → validated_content python form.author form.message form.duration_seconds form.expires_at
              ts
            ≡ validated
          → begin_change python verify id pin admin_pin_hash ts board ≡ change
          → (by : String) × (begin_change python verify id pin admin_pin_hash ts board
              ≡ ok (seen, by))
      go (err error) change v c = cc (rw v at e)
      go (ok checked) (err error) v c = cc (rw (v, c) at e)
      go (ok checked) (ok (row, who)) v c =
          let eq : ok (checked, row) ≡ ok (content, seen) = rw (v, c) at e in
          let same : row ≡ seen = cc eq in (who, c ∙ ap (λ n. ok (n, who)) same)

  -- The row that an update changes is the one asked for, is active, and has a passphrase hash that
  -- the supplied passphrase matches, or the administrator's does, whatever came in between the two
  -- transactions.
  pub commit_update-IsAllowed :
      (id : ℕ) (form : NoticeForm) (pin admin_pin_hash : Option String) (ts now : ℕ)
      (board board' after : Board) (content : Content) (seen : Notice)
      → begin_update python verify id form pin admin_pin_hash ts board ≡ ok (content, seen)
      → commit_update content seen ts now board' ≡ ok after
      → (row : Notice) × IsIn row board'.rows
        × IsIn (updated_notice content ts row) after.rows
        × (row.id ≡ id)
        × (is_active now row ≡ true)
        × IsAllowed verify (text_or pin) admin_pin_hash row
  unfolding commit_update
  commit_update-IsAllowed id form pin admin_pin_hash ts now board board' after content seen begun
        done =
      let (by, change) =
        begin_update-change id form pin admin_pin_hash ts board content seen begun in
      let (same_id, allowed) =
        begin_change-IsAllowed id pin admin_pin_hash ts board seen by change in
      let (one, rows) =
        commit_change-ok (is_unchanged now seen) (updated_notice content ts) board' done in
      let (row, member, unchanged, changed) =
        found-IsIn (is_unchanged now seen) (updated_notice content ts) board'.rows 0 one in
      let (own_id, active, hash) = unchanged_parts now seen row unchanged in
      (
        row,
        member,
        subst (IsIn (updated_notice content ts row)) (sym rows) changed,
        own_id ∙ same_id,
        active,
        same_hash row hash allowed,
      )
    where
      same_hash :
          (row : Notice)
          → row.pin_hash ≡ seen.pin_hash
          → IsAllowed verify (text_or pin) admin_pin_hash seen
          → IsAllowed verify (text_or pin) admin_pin_hash row
      same_hash row h (inl own) = inl (ap (verify (text_or pin)) h ∙ own)
      same_hash row h (inr admin) = inr admin
