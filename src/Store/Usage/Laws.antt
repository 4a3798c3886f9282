-- ===== src/Store/Usage/Laws.antt =====
-- A busy interval is recorded once, for the users that the text names.
use gpu_watch.Prelude.{
  ℕ, ◌≤◌, ◌<◌, ◌≡◌, ◌≢◌, refl, inl, inr, true, false, ◌||◌, Option, none, some, List, [], ◌∷◌,
  String, leb, str_eq, arith, Bool-cases, All, eq_iff, ne_of_str_eq,
}
use Prim.Native.String.{◌++◌ as text_append}
use mathlib.Core.Bool.{false≢true}
use text.Mathlib.TextLemmas.{cons-append}
use gpu_watch.Text.{text_or, strip, split}
use gpu_watch.Store.Users.{is_seen, collect_users, normalize_user_text, split_user_text, join_users}
use gpu_watch.Store.Timeline.{IntervalRow, of_gpu, latest, IsValid, EndedBy}
use gpu_watch.Store.Timeline.Record.{Records, recorded_from, extend_or_insert-Records}
use gpu_watch.Store.Timeline.Tags.{AllTags, extend_or_insert-AllTags}
use gpu_watch.Store.Timeline.Extend.{Has-All}
use gpu_watch.Store.Usage.{UsageTable, same_users, has_duplicate, record_busy_interval}

-- A users column as it is stored: never an empty text.
abbrev pub IsStored : Option String → Type 0
IsStored users = users ≢ some ""

same_users_sound :
    (previous users : Option String)
    → IsStored previous
    → same_users previous users ≡ true
    → previous ≡ users
same_users_sound none none s h = refl
same_users_sound none (some b) s h = cc
same_users_sound (some a) none s h = elim (Bool-cases (str_eq a "")) [
  | inl e ↦ absurd (s (cc ((eq_iff a "").0 e)))
  | inr e ↦ absurd (false≢true (rw e at h))
]
same_users_sound (some a) (some b) s h = elim (Bool-cases (str_eq a "")) [
  | inl e ↦ absurd (s (cc ((eq_iff a "").0 e)))
  | inr e ↦ cc ((eq_iff a b).0 (rw e at h))
]

collected_not_empty :
    (seen parts : List String) → All (λ user. user ≢ "") (collect_users seen parts)
unfolding collect_users
collected_not_empty seen [] = tt
collected_not_empty seen (part ∷ parts) =
    elim (Bool-cases
      (str_eq (strip part) "" || (str_eq (strip part) "?" || is_seen (strip part) seen))) [
        | inl skip ↦ rw skip (collected_not_empty seen parts)
        | inr take ↦ rw take (
          ne_of_str_eq (strip part) "" (ground arith),
          collected_not_empty (strip part ∷ seen) parts,
        )
      ]

append_not_empty : (s t : String) → s ≢ "" → text_append s t ≢ ""
append_not_empty String.[] t h = absurd (h refl)
append_not_empty (String.◌∷◌ c s) t h = rw cons-append (λ e. cc e)

join_not_empty : (user : String) (users : List String) → user ≢ "" → join_users (user ∷ users) ≢ ""
unfolding join_users
join_not_empty user [] h = h
join_not_empty user (next ∷ users) h = append_not_empty user _ h

-- What is written to the users column is never an empty text.
pub normalize_user_text-IsStored : (users : Option String) → IsStored (normalize_user_text users)
unfolding normalize_user_text split_user_text
normalize_user_text-IsStored users =
    go (collect_users [] (split "," (text_or users)))
      (collected_not_empty [] (split "," (text_or users)))
  where
    go :
        (found : List String)
        → All (λ user. user ≢ "") found
        → IsStored (elim found [ [] ↦ none | user ∷ more ↦ some (join_users (user ∷ more)) ])
    go [] h = λ e. cc e
    go (user ∷ more) h = λ e. join_not_empty user more h.0 (cc e)

no_duplicate :
    (host : String) (gpu_index start_ts end_ts : ℕ) (users : Option String)
    (rows : List (IntervalRow (Option String)))
    → start_ts < end_ts
    → EndedBy host gpu_index start_ts rows
    → has_duplicate host gpu_index start_ts end_ts users rows ≡ false
unfolding has_duplicate
no_duplicate host gpu_index start_ts end_ts users [] h l = refl
no_duplicate host gpu_index start_ts end_ts users (row ∷ rows) h l =
    elim (Bool-cases (of_gpu host gpu_index row)) [
      | inl mine ↦
          let k : row.end_ts ≤ start_ts = l.0 mine in
          ground (arith, no_duplicate host gpu_index start_ts end_ts users rows h l.1)
      | inr foreign ↦ ground (arith, no_duplicate host gpu_index start_ts end_ts users rows h l.1)
    ]

-- A busy interval that starts after everything recorded for its GPU is recorded for the normalised
-- users, from its start (or the end of the row that it extends, at most a second before) to its end;
-- the table stays valid, and its users columns are never empty texts.
pub record_busy_interval-Records :
    (host : String) (gpu_index start_ts end_ts : ℕ) (users : Option String) (table : UsageTable)
    → start_ts < end_ts
    → IsValid table
    → AllTags IsStored table.rows
    → EndedBy host gpu_index start_ts table.rows
    → Records host gpu_index start_ts end_ts
        (recorded_from same_users start_ts
          (normalize_user_text users)
          (latest host gpu_index table.rows))
        (normalize_user_text users)
        table
        (record_busy_interval host gpu_index start_ts end_ts users table)
      × AllTags IsStored (record_busy_interval host gpu_index start_ts end_ts users table).rows
unfolding record_busy_interval
record_busy_interval-Records host gpu_index start_ts end_ts users table h v s l =
    let proper : leb end_ts start_ts ≡ false = ground arith in
    rw
      (
        proper,
        no_duplicate host gpu_index start_ts end_ts (normalize_user_text users) table.rows h l,
      )
      (
        extend_or_insert-Records same_users host gpu_index start_ts end_ts
            (normalize_user_text users) table
            (λ p m e.
              same_users_sound p.tag (normalize_user_text users)
                (Has-All (λ r. IsStored r.tag) p table.rows s m) e)
            v l h,
        extend_or_insert-AllTags IsStored same_users host gpu_index start_ts end_ts
            (normalize_user_text users) table (normalize_user_text-IsStored users) s,
      )
