-- ===== src/Store/Timeline/Record.antt =====
-- Recording an interval sets the view of its GPU from the interval's start (or from the end of the
-- row that it extends, at most one second earlier) to its end, and changes nothing else.
use gpu_watch.Prelude.{
  ℕ, ◌+◌, ◌-◌, ◌≤◌, ◌<◌, ◌≡◌, refl, sym, ◌∙◌, ap, inl, inr, String, Bool, true, false, ◌&&◌, Option,
  none, some, List, [], ◌∷◌, leb, ◌==◌, if◌then◌else◌, arith, Bool-cases, All, All-map, leb→le,
}
use gpu_watch.Intervals.Cover.{inside}
use gpu_watch.Store.Timeline.{
  IntervalRow, Table, distance, of_gpu, EndedBy, IsValid, latest, extend_row, insert_row, extends,
  continue_from, extend_or_insert,
}
use gpu_watch.Store.Timeline.View.{
  covers, tag_at, tag_at-append, tag_at-ended, Has, IsLatest, latest-IsLatest,
}
use gpu_watch.Store.Timeline.Extend.{Has-All, tag_at-extend_row}
use gpu_watch.Store.Timeline.Chain.{
  of_gpu-eq, of_gpu-true, only_one, extend_row-IsValid, insert_row-IsValid,
}

module _ {Tag : Type 0} where
  tag_at-insert_row :
      (host : String) (gpu_index start_ts end_ts t : ℕ) (tag : Tag) (table : Table Tag)
      → EndedBy host gpu_index start_ts table.rows
      → tag_at host gpu_index t (insert_row host gpu_index start_ts end_ts tag table).rows
        ≡ (if inside t (start_ts, end_ts) then some tag else tag_at host gpu_index t table.rows)
  unfolding insert_row
  tag_at-insert_row host gpu_index start_ts end_ts t tag table l =
      tag_at-append host gpu_index t table.rows new ∙ finish
    where
      new : IntervalRow Tag
      new = record {
        id = table.next_id;
        host = host;
        gpu_index = gpu_index;
        start_ts = start_ts;
        end_ts = end_ts;
        tag = tag;
        seconds = end_ts - start_ts;
      }

      mine : of_gpu host gpu_index new ≡ true
      mine = of_gpu-true host gpu_index new refl refl

      finish :
          (elim (tag_at host gpu_index t table.rows) [
            | some old ↦ some old
            | none ↦ (if covers host gpu_index t new then some tag else none)
          ])
          ≡ (if inside t (start_ts, end_ts) then some tag else tag_at host gpu_index t table.rows)
      finish = elim (Bool-cases (leb start_ts t)) [
        | inl late ↦
            rw (tag_at-ended host gpu_index start_ts t table.rows l (leb→le _ _ late))
              (rw mine refl)
        | inr early ↦ ground (arith, mine)
      ]

  -- The instant from which the tag is recorded.
  abbrev pub recorded_from : (Tag → Tag → Bool) → ℕ → Tag → Option (IntervalRow Tag) → ℕ
  recorded_from same_tag start_ts tag none = start_ts
  recorded_from same_tag start_ts tag (some previous) =
      if extends same_tag start_ts tag previous then previous.end_ts else start_ts

  -- What recording an interval does to the view of its GPU.
  pub record Records (host : String) (gpu_index start_ts end_ts from : ℕ) (tag : Tag)
      (before after : Table Tag) : Type 0 where
    pub valid : IsValid after
    pub ended : EndedBy host gpu_index end_ts after.rows
    pub not_late : from ≤ start_ts
    pub not_early : start_ts ≤ from + 1000
    pub view :
        (t : ℕ)
        → tag_at host gpu_index t after.rows
          ≡ (if inside t (from, end_ts) then some tag else tag_at host gpu_index t before.rows)

  module _ (same_tag : Tag → Tag → Bool) (host : String) (gpu_index start_ts end_ts : ℕ) (tag : Tag)
      (table : Table Tag)
      (sound : (p : IntervalRow Tag) → Has p table.rows → same_tag p.tag tag ≡ true → p.tag ≡ tag)
      (v : IsValid table) (l : EndedBy host gpu_index start_ts table.rows)
      (h : start_ts < end_ts) where
    insert_row-Records :
        Records host gpu_index start_ts end_ts start_ts tag table
          (insert_row host gpu_index start_ts end_ts tag table)
    insert_row-Records =
        let (valid, ended) = insert_row-IsValid host gpu_index start_ts end_ts tag table v l h in
        record {
          valid = valid;
          ended = ended;
          not_late = omega arith;
          not_early = omega arith;
          view = λ t. tag_at-insert_row host gpu_index start_ts end_ts t tag table l;
        }

    extend_row-Records :
        (p : IntervalRow Tag)
        → IsLatest host gpu_index table.rows p
        → extends same_tag start_ts tag p ≡ true
        → Records host gpu_index start_ts end_ts p.end_ts tag table
            (record table { rows = extend_row p.id end_ts table.rows })
    extend_row-Records p found match =
        let before : p.end_ts ≤ start_ts =
          Has-All (λ r. of_gpu host gpu_index r ≡ true → r.end_ts ≤ start_ts) p table.rows l
            found.member found.mine in
        let near : distance p.end_ts start_ts ≤ 1000 = ground arith in
        let same : p.tag ≡ tag = sound p found.member (ground arith) in
        let (valid, ended) =
          extend_row-IsValid host gpu_index end_ts table p v found (omega arith) in
        record {
          valid = valid;
          ended = ended;
          not_late = before;
          not_early = omega arith;
          view = λ t.
              tag_at-extend_row host gpu_index t end_ts table.rows p v.chain found (omega arith)
              ∙ ap
                  (λ recorded.
                    if inside t (p.end_ts, end_ts)
                    then some recorded
                    else tag_at host gpu_index t table.rows)
                  same;
        }

    continue_from-Records :
        (previous : Option (IntervalRow Tag))
        → latest host gpu_index table.rows ≡ previous
        → Records host gpu_index start_ts end_ts
            (recorded_from same_tag start_ts tag previous)
            tag
            table
            (continue_from same_tag host gpu_index start_ts end_ts tag table previous)
    unfolding continue_from
    continue_from-Records none e = insert_row-Records
    continue_from-Records (some p) e = elim (Bool-cases (extends same_tag start_ts tag p)) [
      | inr no_match ↦ rw no_match insert_row-Records
      | inl match ↦
          rw match (extend_row-Records p (latest-IsLatest host gpu_index table.rows p e) match)
    ]

    pub extend_or_insert-Records :
        Records host gpu_index start_ts end_ts
          (recorded_from same_tag start_ts tag (latest host gpu_index table.rows))
          tag
          table
          (extend_or_insert same_tag host gpu_index start_ts end_ts tag table)
    unfolding extend_or_insert
    extend_or_insert-Records = continue_from-Records (latest host gpu_index table.rows) refl

  keep_found :
      {b : Bool}
      → b ≡ false
      → (c : Bool) (tag : Tag) (found : Option Tag)
      → (elim found [ some old ↦ some old | none ↦ (if b && c then some tag else none) ]) ≡ found
  keep_found e c tag none = rw e refl
  keep_found e c tag (some old) = refl

  extend_row_ne :
      (host : String) (gpu_index t id end_ts : ℕ) (rows : List (IntervalRow Tag))
      → All (λ row. row.id ≡ id → of_gpu host gpu_index row ≡ false) rows
      → tag_at host gpu_index t (extend_row id end_ts rows) ≡ tag_at host gpu_index t rows
  unfolding extend_row tag_at of_gpu
  extend_row_ne host gpu_index t id end_ts [] o = refl
  extend_row_ne host gpu_index t id end_ts (row ∷ rows) o = elim (Bool-cases (row.id == id)) [
    | inr other ↦ rw other (
        ap (λ rest. if covers host gpu_index t row then some row.tag else rest)
          (extend_row_ne host gpu_index t id end_ts rows o.1))
    | inl same ↦
        let foreign = o.0 (ground arith) in
        rw same (ground (arith, extend_row_ne host gpu_index t id end_ts rows o.1))
  ]

  module _ (host : String) (gpu_index : ℕ) (host' : String) (gpu_index' : ℕ)
      (different : host ≡ host' → gpu_index ≡ gpu_index' → ⊥) where
    foreign_row :
        (row : IntervalRow Tag)
        → of_gpu host gpu_index row ≡ true
        → of_gpu host' gpu_index' row ≡ false
    foreign_row row mine = elim (Bool-cases (of_gpu host' gpu_index' row)) [
      | inr other ↦ other
      | inl both ↦
          let (a, b) = of_gpu-eq host gpu_index row mine in
          let (c, d) = of_gpu-eq host' gpu_index' row both in
          absurd (different (sym a ∙ c) (sym b ∙ d))
    ]

    insert_row_ne :
        (start_ts end_ts t : ℕ) (tag : Tag) (table : Table Tag)
        → tag_at host' gpu_index' t (insert_row host gpu_index start_ts end_ts tag table).rows
          ≡ tag_at host' gpu_index' t table.rows
    unfolding insert_row
    insert_row_ne start_ts end_ts t tag table =
        let new : IntervalRow Tag = record {
          id = table.next_id;
          host = host;
          gpu_index = gpu_index;
          start_ts = start_ts;
          end_ts = end_ts;
          tag = tag;
          seconds = end_ts - start_ts;
        } in
        let foreign = foreign_row new (of_gpu-true host gpu_index new refl refl) in
        tag_at-append host' gpu_index' t table.rows new
        ∙ keep_found foreign (inside t (start_ts, end_ts)) tag
            (tag_at host' gpu_index' t table.rows)

    continue_from_ne :
        (same_tag : Tag → Tag → Bool) (start_ts end_ts t : ℕ) (tag : Tag) (table : Table Tag)
        (previous : Option (IntervalRow Tag))
        → IsValid table
        → latest host gpu_index table.rows ≡ previous
        → tag_at host' gpu_index' t
            (continue_from same_tag host gpu_index start_ts end_ts tag table previous).rows
          ≡ tag_at host' gpu_index' t table.rows
    unfolding continue_from
    continue_from_ne same_tag start_ts end_ts t tag table none v e =
        insert_row_ne start_ts end_ts t tag table
    continue_from_ne same_tag start_ts end_ts t tag table (some p) v e =
        elim (Bool-cases (extends same_tag start_ts tag p)) [
          | inr no_match ↦ rw no_match (insert_row_ne start_ts end_ts t tag table)
          | inl match ↦
              let found = latest-IsLatest host gpu_index table.rows p e in
              rw match (
                extend_row_ne host' gpu_index' t p.id end_ts table.rows (
                  All-map table.rows
                    (λ row only same_id. rw (only same_id) (foreign_row p found.mine))
                    (only_one p table.rows v.chain found.member)))
        ]

    -- In a valid table (different ids, each below the next one, proper rows, and no common instant of two
    -- rows of one GPU), recording an interval for one GPU changes nothing in the view of any other GPU, at
    -- any instant, whatever the tag test.
    pub extend_or_insert_ne :
        (same_tag : Tag → Tag → Bool) (start_ts end_ts t : ℕ) (tag : Tag) (table : Table Tag)
        → IsValid table
        → tag_at host' gpu_index' t
            (extend_or_insert same_tag host gpu_index start_ts end_ts tag table).rows
          ≡ tag_at host' gpu_index' t table.rows
    unfolding extend_or_insert
    extend_or_insert_ne same_tag start_ts end_ts t tag table v =
        continue_from_ne same_tag start_ts end_ts t tag table (latest host gpu_index table.rows) v
          refl
