-- ===== src/Board/Listing.antt =====
-- server.py, Store.announcements: what a reader sees.
use gpu_watch.Prelude.{
  ℕ, zero, suc, ◌-◌, ◌≤◌, ◌≡◌, refl, Bool, false, ◌&&◌, ◌||◌, Option, none, some, List, [], ◌∷◌,
  String, leb, ltb, ◌==◌, if◌then◌else◌, length, arith, filter, map, ap, ◌∙◌,
}
use gpu_watch.Board.Notices.{Notice, is_active, active_count, max_active}

-- A notice as it is shown; times are given by iso().
pub record NoticeView : Type 0 where
  pub id : ℕ
  pub author : String
  pub message : String
  pub created_at : ℕ
  pub expires_at : Option ℕ
  pub remaining_seconds : Option ℕ
  pub permanent : Bool
  pub updated_at : ℕ

-- `coalesce(updated_ts, created_ts)`
abbrev pub time_or : ℕ → Option ℕ → ℕ
time_or default none = default
time_or default (some ts) = ts

unfoldable pub view_of : ℕ → Notice → NoticeView
view_of now row = record {
  id = row.id;
  author = row.content.author;
  message = row.content.message;
  created_at = row.created_ts;
  expires_at = if row.content.permanent then none else some row.content.expires_ts;
  remaining_seconds = if row.content.permanent then none else some (row.content.expires_ts - now);
  permanent = row.content.permanent;
  updated_at = time_or row.created_ts row.updated_ts;
}

-- Whether `a` comes before `b` under `order by created_ts desc, id desc`.
abbrev pub is_newer : Notice → Notice → Bool
is_newer a b = ltb b.created_ts a.created_ts || (a.created_ts == b.created_ts && leb b.id a.id)

unfoldable pub insert_sorted : Notice → List Notice → List Notice
insert_sorted row [] = row ∷ []
insert_sorted row (r ∷ rows) =
    let rest = insert_sorted row rows in if is_newer row r then row ∷ r ∷ rows else r ∷ rest

unfoldable pub newest_first : List Notice → List Notice
unfolding insert_sorted
newest_first [] = []
newest_first (row ∷ rows) = insert_sorted row (newest_first rows)

-- `limit n`
unfoldable pub take_rows : ℕ → List Notice → List Notice
take_rows zero rows = []
take_rows (suc n) [] = []
take_rows (suc n) (row ∷ rows) = row ∷ take_rows n rows

unfoldable pub announcements : ℕ → List Notice → List NoticeView
unfolding newest_first take_rows view_of
announcements now rows =
    map (view_of now) (take_rows 20 (newest_first (filter (is_active now) rows)))

-- Whether a notice with this id is shown.
unfoldable pub shows : ℕ → List NoticeView → Bool
shows id [] = false
shows id (view ∷ views) = view.id == id || shows id views

-- Whether an active row has this id.
unfoldable pub has_active : ℕ → ℕ → List Notice → Bool
has_active now id [] = false
has_active now id (row ∷ rows) = (row.id == id && is_active now row) || has_active now id rows

abbrev has_id : ℕ → List Notice → Bool
has_id id [] = false
has_id id (row ∷ rows) = row.id == id || has_id id rows

shows-map : (now id : ℕ) (rows : List Notice) → shows id (map (view_of now) rows) ≡ has_id id rows
unfolding shows view_of
shows-map now id [] = refl
shows-map now id (row ∷ rows) = ap (λ rest. row.id == id || rest) (shows-map now id rows)

take_rows_all : (n : ℕ) (rows : List Notice) → length rows ≤ n → take_rows n rows ≡ rows
unfolding take_rows
take_rows_all zero [] h = refl
take_rows_all zero (row ∷ rows) h = absurd (omega arith)
take_rows_all (suc n) [] h = refl
take_rows_all (suc n) (row ∷ rows) h = ap (λ rest. row ∷ rest) (take_rows_all n rows (omega arith))

insert_sorted_lem :
    (id : ℕ) (row : Notice) (rows : List Notice)
    → (has_id id (insert_sorted row rows) ≡ (row.id == id || has_id id rows))
      × (length (insert_sorted row rows) ≡ suc (length rows))
unfolding insert_sorted
insert_sorted_lem id row [] = (refl, refl)
insert_sorted_lem id row (r ∷ rows) = ground (arith, insert_sorted_lem id row rows)

newest_first_lem :
    (id : ℕ) (rows : List Notice)
    → (has_id id (newest_first rows) ≡ has_id id rows) × (length (newest_first rows) ≡ length rows)
unfolding newest_first
newest_first_lem id [] = (refl, refl)
newest_first_lem id (row ∷ rows) =
    ground (arith, insert_sorted_lem id row (newest_first rows), newest_first_lem id rows)

active_lem :
    (now id : ℕ) (rows : List Notice)
    → (has_id id (filter (is_active now) rows) ≡ has_active now id rows)
      × (length (filter (is_active now) rows) ≡ active_count now rows)
unfolding has_active active_count
active_lem now id [] = (refl, refl)
active_lem now id (row ∷ rows) = ground (arith, active_lem now id rows)

-- While the limit on active announcements holds, exactly the active ones are shown.
pub announcements-shows :
    (now id : ℕ) (rows : List Notice)
    → active_count now rows ≤ max_active
    → shows id (announcements now rows) ≡ has_active now id rows
unfolding announcements
announcements-shows now id rows h =
    let active = filter (is_active now) rows in
    let (kept, count) = active_lem now id rows in
    let (same, size) = newest_first_lem id active in
    let all : take_rows 20 (newest_first active) ≡ newest_first active =
      take_rows_all 20 (newest_first active) (omega (arith, size, count)) in
    ap (λ shown. shows id (map (view_of now) shown)) all
    ∙ (shows-map now id (newest_first active) ∙ (same ∙ kept))
