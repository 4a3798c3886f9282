-- ===== src/Store/Timeline/Chain.antt =====
-- Both writes keep the rows of an interval table apart, and leave other GPUs' rows alone.
use native.Mathlib.Nat.{le_refl}
use gpu_watch.Prelude.{
  ℕ, suc, ◌-◌, ◌≤◌, ◌<◌, ◌≡◌, refl, sym, ◌∙◌, ap, subst, ◌⊎◌, inl, inr, String, true, List, [], ◌∷◌,
  ◌++◌, ◌==◌, if◌then◌else◌, arith, Bool-cases, All, All-map, All-append, eq_iff,
}
use gpu_watch.Store.Timeline.{
  IntervalRow, Table, of_gpu, EndedBy, IsChain, IsProper, Apart, IsValid, ending_at, extend_row,
  insert_row,
}
use gpu_watch.Store.Timeline.View.{Has, IsLatest}
use gpu_watch.Store.Timeline.Extend.{Has-All, extend_row_above}

module _ {Tag : Type 0} where
  -- `of_gpu` compares the two key columns.
  pub of_gpu-eq :
      (host : String) (gpu_index : ℕ) (row : IntervalRow Tag)
      → of_gpu host gpu_index row ≡ true
      → (row.host ≡ host) × (row.gpu_index ≡ gpu_index)
  unfolding of_gpu
  of_gpu-eq host gpu_index row h = ground (arith, eq_iff row.host host)

  pub of_gpu-true :
      (host : String) (gpu_index : ℕ) (row : IntervalRow Tag)
      → row.host ≡ host
      → row.gpu_index ≡ gpu_index
      → of_gpu host gpu_index row ≡ true
  unfolding of_gpu
  of_gpu-true host gpu_index row h k = ground (arith, eq_iff row.host host)

  -- Two rows of one GPU are of each other's GPU.
  pub of_gpu-same :
      (host : String) (gpu_index : ℕ) (r s : IntervalRow Tag)
      → of_gpu host gpu_index r ≡ true
      → of_gpu r.host r.gpu_index s ≡ true
      → of_gpu host gpu_index s ≡ true
  of_gpu-same host gpu_index r s h k =
      let (a, b) = of_gpu-eq host gpu_index r h in
      let (c, d) = of_gpu-eq r.host r.gpu_index s k in of_gpu-true host gpu_index s (c ∙ a) (d ∙ b)

  pub of_gpu-back :
      (host : String) (gpu_index : ℕ) (r s : IntervalRow Tag)
      → of_gpu host gpu_index s ≡ true
      → of_gpu r.host r.gpu_index s ≡ true
      → of_gpu host gpu_index r ≡ true
  of_gpu-back host gpu_index r s h k =
      let (a, b) = of_gpu-eq host gpu_index s h in
      let (c, d) = of_gpu-eq r.host r.gpu_index s k in
      of_gpu-true host gpu_index r (sym c ∙ a) (sym d ∙ b)

  -- A row is the only one with its id.
  pub only_one :
      (p : IntervalRow Tag) (rows : List (IntervalRow Tag))
      → IsChain rows
      → Has p rows
      → All (λ s. s.id ≡ p.id → s ≡ p) rows
  only_one p [] c m = tt
  only_one p (row ∷ rows) c (inl e) = (
    (λ _. e),
    All-map rows
        (λ s a i.
          let lt : row.id < s.id = a.0 in
          absurd (omega (arith, ap (λ (r : IntervalRow Tag). r.id) e)))
        c.1,
  )
  only_one p (row ∷ rows) c (inr m) = (
    (λ i.
        let lt : row.id < p.id =
          Has-All (λ s. row.id < s.id) p rows (All-map rows (λ s a. a.0) c.1) m in
        absurd (omega arith)),
    only_one p rows c.2 m,
  )

  IsChain-All : (rows : List (IntervalRow Tag)) → IsChain rows → All IsProper rows
  IsChain-All [] c = tt
  IsChain-All (row ∷ rows) c = (c.0, IsChain-All rows c.2)

  All-and :
      (P Q : IntervalRow Tag → Type 0) (rows : List (IntervalRow Tag))
      → All P rows
      → All Q rows
      → All (λ r. P r × Q r) rows
  All-and P Q [] h k = tt
  All-and P Q (row ∷ rows) h k = ((h.0, k.0), All-and P Q rows h.1 k.1)

  module _ (host : String) (gpu_index end_ts : ℕ) (p : IntervalRow Tag)
      (mine : of_gpu host gpu_index p ≡ true) (longer : p.end_ts ≤ end_ts) where
    -- The row that is extended stays apart from a row listed after it...
    Apart-extended :
        (s : IntervalRow Tag)
        → IsProper s
        → (of_gpu host gpu_index s ≡ true → s.end_ts ≤ p.end_ts)
        → Apart p s
        → Apart (ending_at end_ts p) s
    Apart-extended s proper before a = (
      a.0,
      λ same. elim (a.1 same) [
        | inl after ↦
            let ended = before (of_gpu-same host gpu_index p s mine same) in absurd (omega arith)
        | inr earlier ↦ inr earlier
      ],
    )

    -- ... and from a row listed before it.
    Apart-before_extended :
        (r s : IntervalRow Tag)
        → IsProper r
        → (of_gpu host gpu_index r ≡ true → r.end_ts ≤ p.end_ts)
        → (s.id ≡ p.id → s ≡ p)
        → Apart r s
        → Apart r (if s.id == p.id then ending_at end_ts s else s)
    Apart-before_extended r s proper before only a = elim (Bool-cases (s.id == p.id)) [
      | inr other ↦ rw other a
      | inl same_id ↦ rw same_id (a.0, later (only (ground arith)))
    ]
      where
        later :
            s ≡ p
            → of_gpu r.host r.gpu_index (ending_at end_ts s) ≡ true
            → (r.end_ts ≤ s.start_ts) ⊎ (end_ts ≤ r.start_ts)
        later e same =
            let same' : of_gpu r.host r.gpu_index s ≡ true = unfold of_gpu in same in
            let ends : s.end_ts ≡ p.end_ts = ap (λ (q : IntervalRow Tag). q.end_ts) e in
            let of_s : of_gpu host gpu_index s ≡ true = rw e mine in
            elim (a.1 same') [
              | inl after ↦ inl after
              | inr earlier ↦
                  let ended = before (of_gpu-back host gpu_index r s of_s same') in
                  absurd (omega arith)
            ]

    All-Apart-extended :
        (rows : List (IntervalRow Tag))
        → All IsProper rows
        → EndedBy host gpu_index p.end_ts rows
        → All (Apart p) rows
        → All (Apart (ending_at end_ts p)) rows
    All-Apart-extended [] c l a = tt
    All-Apart-extended (s ∷ rows) c l a =
        (Apart-extended s c.0 l.0 a.0, All-Apart-extended rows c.1 l.1 a.1)

    All-Apart-before :
        (r : IntervalRow Tag) (rows : List (IntervalRow Tag))
        → IsProper r
        → (of_gpu host gpu_index r ≡ true → r.end_ts ≤ p.end_ts)
        → All (λ s. s.id ≡ p.id → s ≡ p) rows
        → All (Apart r) rows
        → All (Apart r) (extend_row p.id end_ts rows)
    unfolding extend_row
    All-Apart-before r [] c l o a = tt
    All-Apart-before r (s ∷ rows) c l o a =
        (Apart-before_extended r s c l o.0 a.0, All-Apart-before r rows c l o.1 a.1)

    extend_head-IsChain :
        (row : IntervalRow Tag) (rows : List (IntervalRow Tag))
        → row ≡ p
        → EndedBy host gpu_index p.end_ts rows
        → IsChain (row ∷ rows)
        → IsChain (ending_at end_ts row ∷ extend_row p.id end_ts rows)
    extend_head-IsChain row rows e l c =
        let ends : row.end_ts ≡ p.end_ts = ap (λ (q : IntervalRow Tag). q.end_ts) e in
        let ids : row.id ≡ p.id = ap (λ (q : IntervalRow Tag). q.id) e in
        let above =
          All-map rows
            (λ s a. let k : row.id < s.id = a.0 in let k' : p.id < s.id = omega arith in k') c.1 in
        let apart =
          All-Apart-extended rows (IsChain-All rows c.2) l
            (subst (λ (q : IntervalRow Tag). All (Apart q) rows) e c.1) in
        rw (extend_row_above p.id end_ts rows above) (
          (omega (arith, c.0.0), refl),
          subst (λ (q : IntervalRow Tag). All (Apart (ending_at end_ts q)) rows) (sym e) apart,
          c.2,
        )

    extend_rest-IsChain :
        (rows : List (IntervalRow Tag))
        → All (λ s. s.id ≡ p.id → s ≡ p) rows
        → EndedBy host gpu_index p.end_ts rows
        → IsChain rows
        → IsChain (extend_row p.id end_ts rows)
    unfolding extend_row
    extend_rest-IsChain [] o l c = tt
    extend_rest-IsChain (row ∷ rows) o l c = elim (Bool-cases (row.id == p.id)) [
      | inr other ↦
          rw other
            (c.0, All-Apart-before row rows c.0 l.0 o.1 c.1, extend_rest-IsChain rows o.1 l.1 c.2)
      | inl same ↦ rw same (extend_head-IsChain row rows (o.0 (ground arith)) l.1 c)
    ]

    extend_row-EndedBy :
        (rows : List (IntervalRow Tag))
        → EndedBy host gpu_index p.end_ts rows
        → EndedBy host gpu_index end_ts (extend_row p.id end_ts rows)
    unfolding extend_row
    extend_row-EndedBy [] l = tt
    extend_row-EndedBy (row ∷ rows) l = elim (Bool-cases (row.id == p.id)) [
      | inr other ↦
          rw other (
            (λ e. let k : row.end_ts ≤ p.end_ts = l.0 e in omega arith),
            extend_row-EndedBy rows l.1,
          )
      | inl same ↦ rw same ((λ _. le_refl end_ts), extend_row-EndedBy rows l.1)
    ]

  extend_row-fresh :
      (id end_ts bound : ℕ) (rows : List (IntervalRow Tag))
      → All (λ row. row.id < bound) rows
      → All (λ row. row.id < bound) (extend_row id end_ts rows)
  unfolding extend_row
  extend_row-fresh id end_ts bound [] h = tt
  extend_row-fresh id end_ts bound (row ∷ rows) h = elim (Bool-cases (row.id == id)) [
    | inr other ↦ rw other (h.0, extend_row-fresh id end_ts bound rows h.1)
    | inl same ↦ rw same (h.0, extend_row-fresh id end_ts bound rows h.1)
  ]

  -- Extending a GPU's last row keeps the table valid.
  pub extend_row-IsValid :
      (host : String) (gpu_index end_ts : ℕ) (table : Table Tag) (p : IntervalRow Tag)
      → IsValid table
      → IsLatest host gpu_index table.rows p
      → p.end_ts ≤ end_ts
      → IsValid (record table { rows = extend_row p.id end_ts table.rows })
        × EndedBy host gpu_index end_ts (extend_row p.id end_ts table.rows)
  extend_row-IsValid host gpu_index end_ts table p v l h = (
    record {
      chain =
          extend_rest-IsChain host gpu_index end_ts p l.mine h table.rows
            (only_one p table.rows v.chain l.member) l.last v.chain;
      fresh = extend_row-fresh p.id end_ts table.next_id table.rows v.fresh;
    },
    extend_row-EndedBy host gpu_index end_ts p l.mine h table.rows l.last,
  )

  append-IsChain :
      (rows : List (IntervalRow Tag)) (row : IntervalRow Tag)
      → IsChain rows
      → IsProper row
      → All (λ r. Apart r row) rows
      → IsChain (rows ++ row ∷ [])
  append-IsChain [] row c p a = (p, tt, tt)
  append-IsChain (r ∷ rows) row c p a =
      (c.0, All-append (Apart r) rows (row ∷ []) c.1 (a.0, tt), append-IsChain rows row c.2 p a.1)

  -- Inserting an interval after everything recorded for the GPU keeps the table valid.
  pub insert_row-IsValid :
      (host : String) (gpu_index start_ts end_ts : ℕ) (tag : Tag) (table : Table Tag)
      → IsValid table
      → EndedBy host gpu_index start_ts table.rows
      → start_ts < end_ts
      → IsValid (insert_row host gpu_index start_ts end_ts tag table)
        × EndedBy host gpu_index end_ts (insert_row host gpu_index start_ts end_ts tag table).rows
  unfolding insert_row
  insert_row-IsValid host gpu_index start_ts end_ts tag table v l h = (
    record {
      chain = append-IsChain table.rows _ v.chain (h, refl) (apart table.rows v.fresh l);
      fresh =
          All-append _ table.rows _
            (All-map table.rows (λ r (k : r.id < table.next_id). omega arith) v.fresh)
            (le_refl (suc table.next_id), tt);
    },
    All-append _ table.rows _
        (All-map table.rows (λ r k e. let b : r.end_ts ≤ start_ts = k e in omega arith) l)
        ((λ _. le_refl end_ts), tt),
  )
    where
      new : IntervalRow Tag
      new = record {
        id = table.next_id;
        host = host;
        gpu_index = gpu_index;
        start_ts = start_ts;
        end_ts = end_ts;
        tag = tag;
        seconds = end_ts - start_ts;
      }

      apart :
          (rows : List (IntervalRow Tag))
          → All (λ row. row.id < table.next_id) rows
          → EndedBy host gpu_index start_ts rows
          → All (λ r. Apart r new) rows
      apart [] f e = tt
      apart (r ∷ rows) f e = (
        (
          f.0,
          λ same. inl (
              e.0
                (of_gpu-back host gpu_index r new (of_gpu-true host gpu_index new refl refl) same)),
        ),
        apart rows f.1 e.1,
      )
