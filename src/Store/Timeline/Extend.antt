-- ===== src/Store/Timeline/Extend.antt =====
-- The effect of the two writes on the view of an interval table: extending a GPU's last row, and
-- inserting a row after everything recorded for the GPU.
use gpu_watch.Prelude.{
  ℕ, ◌≤◌, ◌<◌, ◌≡◌, refl, ap, subst, ◌⊎◌, inl, inr, String, true, false, some, List, [], ◌∷◌, ◌==◌,
  if◌then◌else◌, arith, Bool-cases, All, All-map,
}
use gpu_watch.Intervals.Cover.{inside}
use gpu_watch.Store.Timeline.{IntervalRow, of_gpu, IsChain, extend_row}
use gpu_watch.Store.Timeline.View.{tag_at, Has, IsLatest}

module _ {Tag : Type 0} where
  -- Rows with greater ids are left alone.
  pub extend_row_above :
      (id end_ts : ℕ) (rows : List (IntervalRow Tag))
      → All (λ row. id < row.id) rows
      → extend_row id end_ts rows ≡ rows
  unfolding extend_row
  extend_row_above id end_ts [] h = refl
  extend_row_above id end_ts (row ∷ rows) h =
      let other : (row.id == id) ≡ false = ground arith in
      rw other (ap (λ rest. row ∷ rest) (extend_row_above id end_ts rows h.1))

  pub Has-All :
      (P : IntervalRow Tag → Type 0) (p : IntervalRow Tag) (rows : List (IntervalRow Tag))
      → All P rows
      → Has p rows
      → P p
  Has-All P p [] h m = absurd m
  Has-All P p (row ∷ rows) h (inl e) = subst P e h.0
  Has-All P p (row ∷ rows) h (inr m) = Has-All P p rows h.1 m

  extend_head :
      (host : String) (gpu_index t end_ts : ℕ) (row : IntervalRow Tag)
      (rows : List (IntervalRow Tag))
      → IsChain (row ∷ rows)
      → of_gpu host gpu_index row ≡ true
      → row.end_ts ≤ end_ts
      → tag_at host gpu_index t (extend_row row.id end_ts (row ∷ rows)) ≡ (
          if inside t (row.end_ts, end_ts)
          then some row.tag
          else tag_at host gpu_index t (row ∷ rows))
  unfolding tag_at extend_row of_gpu
  extend_head host gpu_index t end_ts row rows c mine h =
      let self : (row.id == row.id) ≡ true = ground arith in
      rw (self, extend_row_above row.id end_ts rows (All-map rows (λ s a. a.0) c.1)) (ground arith)

  extend_later :
      (host : String) (gpu_index t id end_ts old_end : ℕ) (tag : Tag) (row : IntervalRow Tag)
      (rows : List (IntervalRow Tag))
      → row.id < id
      → (of_gpu host gpu_index row ≡ true → row.end_ts ≤ old_end)
      → tag_at host gpu_index t (extend_row id end_ts rows)
        ≡ (if inside t (old_end, end_ts) then some tag else tag_at host gpu_index t rows)
      → tag_at host gpu_index t (extend_row id end_ts (row ∷ rows))
        ≡ (if inside t (old_end, end_ts) then some tag else tag_at host gpu_index t (row ∷ rows))
  unfolding tag_at extend_row
  extend_later host gpu_index t id end_ts old_end tag row rows below before ih =
      let other : (row.id == id) ≡ false = ground arith in
      rw other (elim (Bool-cases (of_gpu host gpu_index row)) [
        | inl mine ↦ let ended = before mine in ground arith
        | inr foreign ↦ ground arith
      ])

  -- Extending the last row of a GPU records its tag from its old end to the new one.
  pub tag_at-extend_row :
      (host : String) (gpu_index t end_ts : ℕ) (rows : List (IntervalRow Tag)) (p : IntervalRow Tag)
      → IsChain rows
      → IsLatest host gpu_index rows p
      → p.end_ts ≤ end_ts
      → tag_at host gpu_index t (extend_row p.id end_ts rows)
        ≡ (if inside t (p.end_ts, end_ts) then some p.tag else tag_at host gpu_index t rows)
  tag_at-extend_row host gpu_index t end_ts [] p c l h = absurd l.member
  tag_at-extend_row host gpu_index t end_ts (row ∷ rows) p c l h =
      go l.member (tag_at-extend_row host gpu_index t end_ts rows p)
    where
      go :
          (row ≡ p) ⊎ Has p rows
          → (IsChain rows
              → IsLatest host gpu_index rows p
              → p.end_ts ≤ end_ts
              → tag_at host gpu_index t (extend_row p.id end_ts rows) ≡ (
                  if inside t (p.end_ts, end_ts) then some p.tag else tag_at host gpu_index t rows))
          → tag_at host gpu_index t (extend_row p.id end_ts (row ∷ rows)) ≡ (
              if inside t (p.end_ts, end_ts)
              then some p.tag
              else tag_at host gpu_index t (row ∷ rows))
      go (inl e) ih =
          subst
            (λ (q : IntervalRow Tag).
              tag_at host gpu_index t (extend_row q.id end_ts (row ∷ rows)) ≡ (
                if inside t (q.end_ts, end_ts)
                then some q.tag
                else tag_at host gpu_index t (row ∷ rows)))
            e (extend_head host gpu_index t end_ts row rows c (rw e l.mine) (rw e h))
      go (inr m) ih =
          extend_later host gpu_index t p.id end_ts p.end_ts p.tag row rows
            (Has-All (λ s. row.id < s.id) p rows (All-map rows (λ s a. a.0) c.1) m) l.last.0
            (ih c.2 (record { member = m; mine = l.mine; last = l.last.1 }) h)
