-- ===== src/Store/Timeline/View.antt =====
-- The abstract view of an interval table: what is recorded for a GPU at an instant.
use gpu_watch.Prelude.{
  ℕ, ◌≤◌, ◌≡◌, refl, ◌⊎◌, inl, inr, String, Bool, true, ◌&&◌, Option, none, some, List, [], ◌∷◌,
  ◌++◌, if◌then◌else◌, arith, Bool-cases, Option-cases,
}
use native.Mathlib.Nat.{le_refl}
use gpu_watch.Intervals.Cover.{inside}
use gpu_watch.Store.Timeline.{IntervalRow, of_gpu, EndedBy, latest, better, beats}

module _ {Tag : Type 0} where
  abbrev pub covers : String → ℕ → ℕ → IntervalRow Tag → Bool
  covers host gpu_index t row = of_gpu host gpu_index row && inside t (row.start_ts, row.end_ts)

  -- The tag recorded for the GPU at the instant `t`.
  unfoldable pub tag_at : String → ℕ → ℕ → List (IntervalRow Tag) → Option Tag
  tag_at host gpu_index t [] = none
  tag_at host gpu_index t (row ∷ rows) =
      if covers host gpu_index t row then some row.tag else tag_at host gpu_index t rows

  pub tag_at-append :
      (host : String) (gpu_index t : ℕ) (rows : List (IntervalRow Tag)) (row : IntervalRow Tag)
      → tag_at host gpu_index t (rows ++ row ∷ []) ≡ elim (tag_at host gpu_index t rows) [
        | some tag ↦ some tag
        | none ↦ (if covers host gpu_index t row then some row.tag else none)
      ]
  unfolding tag_at
  tag_at-append host gpu_index t [] row = refl
  tag_at-append host gpu_index t (r ∷ rows) row = elim (Bool-cases (covers host gpu_index t r)) [
    | inl e ↦ rw e refl
    | inr e ↦ rw e (tag_at-append host gpu_index t rows row)
  ]

  -- Nothing is recorded after the last end.
  pub tag_at-ended :
      (host : String) (gpu_index ts t : ℕ) (rows : List (IntervalRow Tag))
      → EndedBy host gpu_index ts rows
      → ts ≤ t
      → tag_at host gpu_index t rows ≡ none
  unfolding tag_at
  tag_at-ended host gpu_index ts t [] h l = refl
  tag_at-ended host gpu_index ts t (row ∷ rows) h l =
      elim (Bool-cases (of_gpu host gpu_index row)) [
        | inl e ↦
            let k : row.end_ts ≤ ts = h.0 e in
            ground (arith, tag_at-ended host gpu_index ts t rows h.1)
        | inr e ↦ ground (arith, tag_at-ended host gpu_index ts t rows h.1)
      ]

  -- A row of the list.
  abbrev pub Has : IntervalRow Tag → List (IntervalRow Tag) → Type 0
  Has p [] = ⊥
  Has p (row ∷ rows) = (row ≡ p) ⊎ Has p rows

  -- What `latest` finds: a row of the GPU that no row of the GPU ends after.
  pub record IsLatest (host : String) (gpu_index : ℕ) (rows : List (IntervalRow Tag))
      (p : IntervalRow Tag) : Type 0 where
    pub member : Has p rows
    pub mine : of_gpu host gpu_index p ≡ true
    pub last : EndedBy host gpu_index p.end_ts rows

  pub EndedBy-weaken :
      (host : String) (gpu_index a b : ℕ) (rows : List (IntervalRow Tag))
      → a ≤ b
      → EndedBy host gpu_index a rows
      → EndedBy host gpu_index b rows
  EndedBy-weaken host gpu_index a b [] l h = tt
  EndedBy-weaken host gpu_index a b (row ∷ rows) l h = (
    (λ e. let k : row.end_ts ≤ a = h.0 e in omega arith),
    EndedBy-weaken host gpu_index a b rows l h.1,
  )

  pub none_of_gpu :
      (host : String) (gpu_index ts : ℕ) (rows : List (IntervalRow Tag))
      → latest host gpu_index rows ≡ none
      → EndedBy host gpu_index ts rows
  unfolding latest
  none_of_gpu host gpu_index ts [] h = tt
  none_of_gpu host gpu_index ts (row ∷ rows) h = elim (Bool-cases (of_gpu host gpu_index row)) [
    | inl e ↦ absurd (better_some row (latest host gpu_index rows) (rw e at h))
    | inr e ↦ ((λ mine. cc), none_of_gpu host gpu_index ts rows (rw e at h))
  ]
    where
      better_some : (r : IntervalRow Tag) (o : Option (IntervalRow Tag)) → better r o ≡ none → ⊥
      better_some r none k = cc
      better_some r (some b) k = ground arith

  IsLatest-skip :
      (host : String) (gpu_index : ℕ) (row : IntervalRow Tag) (rows : List (IntervalRow Tag))
      (p : IntervalRow Tag)
      → (of_gpu host gpu_index row ≡ true → row.end_ts ≤ p.end_ts)
      → IsLatest host gpu_index rows p
      → IsLatest host gpu_index (row ∷ rows) p
  IsLatest-skip host gpu_index row rows p h l = record {
    member = inr l.member;
    mine = l.mine;
    last = (h, l.last);
  }

  pub latest-IsLatest :
      (host : String) (gpu_index : ℕ) (rows : List (IntervalRow Tag)) (p : IntervalRow Tag)
      → latest host gpu_index rows ≡ some p
      → IsLatest host gpu_index rows p
  unfolding latest
  latest-IsLatest host gpu_index [] p h = cc
  latest-IsLatest host gpu_index (row ∷ rows) p h = elim (Bool-cases (of_gpu host gpu_index row)) [
    | inr e ↦
        IsLatest-skip host gpu_index row rows p (λ mine. cc)
          (latest-IsLatest host gpu_index rows p (rw e at h))
    | inl e ↦ elim (Option-cases (latest host gpu_index rows)) [
      | inl none_before ↦
          let k : some row ≡ some p = rw (e, none_before) at h in
          let same : row ≡ p = cc k in
          rw (← same) (record {
            member = inl refl;
            mine = e;
            last =
                ((λ _. le_refl row.end_ts), none_of_gpu host gpu_index row.end_ts rows none_before);
          })
      | inr (best, found) ↦
          let l = latest-IsLatest host gpu_index rows best found in
          elim (Bool-cases (beats best row)) [
            | inl wins ↦
                let k : some best ≡ some p = rw (e, found, wins) at h in
                let same : best ≡ p = cc k in
                rw (← same) (
                  IsLatest-skip host gpu_index row rows best
                    (λ _. let k : row.end_ts ≤ best.end_ts = ground arith in k) l)
            | inr loses ↦
                let k : some row ≡ some p = rw (e, found, loses) at h in
                let same : row ≡ p = cc k in
                rw (← same) (record {
                  member = inl refl;
                  mine = e;
                  last = (
                    (λ _. le_refl row.end_ts),
                    EndedBy-weaken host gpu_index best.end_ts row.end_ts rows
                        (let k : best.end_ts ≤ row.end_ts = ground arith in k) l.last,
                  );
                })
          ]
    ]
  ]
