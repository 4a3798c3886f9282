-- ===== src/Intervals/Union.antt =====
-- `merge_intervals` computes the canonical form of the set of instants that a list covers.
use gpu_watch.Prelude.{
  ℕ, suc, ◌≤◌, ◌<◌, Bool, true, false, ◌||◌, List, [], ◌∷◌, leb, ltb, filter, max, ◌≡◌, refl, sym,
  ◌∙◌, ap, ap₂, arith, Bool-cases, leb→le, leb_false→lt, inl, inr,
}
use native.Mathlib.Nat.{le_refl}
use gpu_watch.Intervals.{
  Interval, tuple_le, insort, sorted, is_proper, merge_from, merge_ordered, merge_intervals,
}
use gpu_watch.Intervals.Cover.{inside, covers, SeparatedFrom, covers_below}

-- Proper intervals in order of their starts, from `low` on.
abbrev OrderedFrom : ℕ → List Interval → Type 0
OrderedFrom low [] = Unit
OrderedFrom low ((start, end) ∷ rest) = (low ≤ start) × (start < end) × OrderedFrom start rest

covers-filter : (t : ℕ) (xs : List Interval) → covers t (filter is_proper xs) ≡ covers t xs
unfolding covers
covers-filter t [] = refl
covers-filter t ((start, end) ∷ xs) = ground (arith, covers-filter t xs)

covers-insort :
    (t : ℕ) (x : Interval) (xs : List Interval) → covers t (insort x xs) ≡ inside t x || covers t xs
unfolding covers insort
covers-insort t x [] = refl
covers-insort t x (y ∷ xs) = elim (Bool-cases (tuple_le x y)) [
  | inl e ↦ rw e refl
  | inr e ↦ rw e (rw (covers-insort t x xs) (swap (inside t x) (inside t y) (covers t xs)))
]
  where
    swap : (a b c : Bool) → b || (a || c) ≡ a || (b || c)
    swap a b c = ground arith

covers-sorted : (t : ℕ) (xs : List Interval) → covers t (sorted xs) ≡ covers t xs
unfolding covers sorted
covers-sorted t [] = refl
covers-sorted t (x ∷ xs) =
    covers-insort t x (sorted xs) ∙ ap (λ b. inside t x || b) (covers-sorted t xs)

insort-OrderedFrom :
    (low : ℕ) (x : Interval) (xs : List Interval)
    → low ≤ x.0
    → x.0 < x.1
    → OrderedFrom low xs
    → OrderedFrom low (insort x xs)
unfolding insort
insort-OrderedFrom low x [] l p o = (l, p, tt)
insort-OrderedFrom low x (y ∷ xs) l p o = elim (Bool-cases (tuple_le x y)) [
  | inl e ↦ rw e (l, p, ((let k : x.0 ≤ y.0 = ground arith in k), o.1, o.2))
  | inr e ↦
      rw e (o.0, o.1, insort-OrderedFrom y.0 x xs (let k : y.0 ≤ x.0 = ground arith in k) p o.2)
]

sorted-OrderedFrom : (xs : List Interval) → OrderedFrom 0 (sorted (filter is_proper xs))
unfolding sorted
sorted-OrderedFrom [] = tt
sorted-OrderedFrom ((start, end) ∷ xs) = elim (Bool-cases (ltb start end)) [
  | inl e ↦ rw e (
      insort-OrderedFrom 0 (start, end) (sorted (filter is_proper xs)) (omega arith) (ground arith)
        (sorted-OrderedFrom xs))
  | inr e ↦ rw e (sorted-OrderedFrom xs)
]

OrderedFrom-weaken :
    (low start : ℕ) (xs : List Interval) → low ≤ start → OrderedFrom start xs → OrderedFrom low xs
OrderedFrom-weaken low start [] l o = tt
OrderedFrom-weaken low start ((s, e) ∷ xs) l o = (omega arith, o.1, o.2)

-- Two intervals that touch or overlap cover what their hull covers.
inside-hull :
    (t start end s e : ℕ) (later : Bool)
    → start ≤ s
    → s ≤ end
    → (inside t (start, max end e) || later) ≡ (inside t (start, end) || (inside t (s, e) || later))
inside-hull t start end s e later l m = ground arith

covers-merge_from :
    (t start end : ℕ) (xs : List Interval)
    → start < end
    → OrderedFrom start xs
    → covers t (merge_from start end xs) ≡ (inside t (start, end) || covers t xs)
unfolding covers merge_from
covers-merge_from t start end [] p o = refl
covers-merge_from t start end ((s, e) ∷ xs) p o = elim (Bool-cases (leb s end)) [
  | inl touch ↦ rw touch (
      covers-merge_from t start (max end e) xs (omega arith) (OrderedFrom-weaken start s xs o.0 o.2)
      ∙ inside-hull t start end s e (covers t xs) o.0 (leb→le s end touch))
  | inr apart ↦ rw apart (ap (λ b. inside t (start, end) || b) (covers-merge_from t s e xs o.1 o.2))
]

-- The merged intervals cover exactly the instants that the given ones cover.
pub covers-merge_intervals :
    (t : ℕ) (intervals : List Interval) → covers t (merge_intervals intervals) ≡ covers t intervals
unfolding merge_intervals
covers-merge_intervals t intervals =
    ordered (sorted (filter is_proper intervals)) (sorted-OrderedFrom intervals)
    ∙ (covers-sorted t (filter is_proper intervals) ∙ covers-filter t intervals)
  where
    ordered : (xs : List Interval) → OrderedFrom 0 xs → covers t (merge_ordered xs) ≡ covers t xs
    ordered [] o = refl
    ordered ((start, end) ∷ xs) o = covers-merge_from t start end xs o.1 o.2 ∙ unfold covers in refl

merge_from-Separated :
    (low start end : ℕ) (xs : List Interval)
    → low ≤ start
    → start < end
    → OrderedFrom start xs
    → SeparatedFrom low (merge_from start end xs)
unfolding merge_from
merge_from-Separated low start end [] l p o = (l, p, tt)
merge_from-Separated low start end ((s, e) ∷ xs) l p o = elim (Bool-cases (leb s end)) [
  | inl touch ↦ rw touch (
      merge_from-Separated low start (max end e) xs l (omega arith)
        (OrderedFrom-weaken start s xs o.0 o.2))
  | inr apart ↦
      rw apart (l, p, merge_from-Separated (suc end) s e xs (leb_false→lt s end apart) o.1 o.2)
]

-- The merged intervals are proper, in order, and do not touch.
pub merge_intervals-Separated :
    (intervals : List Interval) → SeparatedFrom 0 (merge_intervals intervals)
unfolding merge_intervals
merge_intervals-Separated intervals =
    ordered (sorted (filter is_proper intervals)) (sorted-OrderedFrom intervals)
  where
    ordered : (xs : List Interval) → OrderedFrom 0 xs → SeparatedFrom 0 (merge_ordered xs)
    ordered [] o = tt
    ordered ((start, end) ∷ xs) o = merge_from-Separated 0 start end xs o.0 o.1 o.2

covers_nil : (t : ℕ) → covers t [] ≡ false
unfolding covers
covers_nil t = refl

head_covered :
    (start end : ℕ) (xs : List Interval) → start < end → covers start ((start, end) ∷ xs) ≡ true
unfolding covers
head_covered start end xs p = ground arith

-- Of two lists that cover the same instants, neither starts before the other...
starts_no_earlier :
    (low s e s' e' : ℕ) (xs ys : List Interval)
    → SeparatedFrom low ((s, e) ∷ xs)
    → SeparatedFrom low ((s', e') ∷ ys)
    → ((t : ℕ) → covers t ((s, e) ∷ xs) ≡ covers t ((s', e') ∷ ys))
    → s' ≤ s
starts_no_earlier low s e s' e' xs ys p q h = elim (Bool-cases (leb s' s)) [
  | inl ok ↦ leb→le s' s ok
  | inr early ↦ absurd (
      cc (
        head_covered s e xs p.1,
        h s,
        covers_below s' s ((s', e') ∷ ys) (le_refl s', q.1, q.2) (leb_false→lt s' s early),
      ))
]

-- ... and from one start, neither first interval ends before the other.
ends_no_earlier :
    (low s e s' e' : ℕ) (xs ys : List Interval)
    → s ≡ s'
    → SeparatedFrom low ((s, e) ∷ xs)
    → ((t : ℕ) → covers t ((s, e) ∷ xs) ≡ covers t ((s', e') ∷ ys))
    → e' ≤ e
unfolding covers
ends_no_earlier low s e s' e' xs ys es p h = elim (Bool-cases (leb e' e)) [
  | inl ok ↦ leb→le e' e ok
  | inr early ↦ ground (arith, h e, covers_below (suc e) e xs p.2)
]

rest_covers :
    (s e s' e' : ℕ) (xs ys : List Interval)
    → s ≡ s'
    → e ≡ e'
    → SeparatedFrom (suc e) xs
    → SeparatedFrom (suc e') ys
    → ((t : ℕ) → covers t ((s, e) ∷ xs) ≡ covers t ((s', e') ∷ ys))
    → (t : ℕ) → covers t xs ≡ covers t ys
unfolding covers
rest_covers s e s' e' xs ys es ee p q h t = elim (Bool-cases (ltb t (suc e))) [
  | inl before ↦ ground (arith, covers_below (suc e) t xs p, covers_below (suc e') t ys q)
  | inr after ↦ ground (arith, h t)
]

-- Separated lists that cover the same instants are the same list.
Separated-unique :
    (low : ℕ) (xs ys : List Interval)
    → SeparatedFrom low xs
    → SeparatedFrom low ys
    → ((t : ℕ) → covers t xs ≡ covers t ys)
    → xs ≡ ys
Separated-unique low [] [] p q h = refl
Separated-unique low [] ((s, e) ∷ ys) p q h =
    absurd (cc (head_covered s e ys q.1, h s, covers_nil s))
Separated-unique low ((s, e) ∷ xs) [] p q h =
    absurd (cc (head_covered s e xs p.1, h s, covers_nil s))
Separated-unique low ((s, e) ∷ xs) ((s', e') ∷ ys) p q h =
    let back = λ (t : ℕ). sym (h t) in
    let es : s ≡ s' = omega (
      arith,
      starts_no_earlier low s e s' e' xs ys p q h,
      starts_no_earlier low s' e' s e ys xs q p back,
    ) in
    let ee : e ≡ e' = omega (
      arith,
      ends_no_earlier low s e s' e' xs ys es p h,
      ends_no_earlier low s' e' s e ys xs (sym es) q back,
    ) in
    let q' : SeparatedFrom (suc e) ys = rw ee q.2 in
    ap₂ ◌∷◌ (ap₂ (λ (a b : ℕ). let x : Interval = (a, b) in x) es ee)
      (Separated-unique (suc e) xs ys p.2 q' (rest_covers s e s' e' xs ys es ee p.2 q.2 h))

-- `merge_intervals` depends only on the set of instants that its argument covers.
pub merge_intervals-canonical :
    (xs ys : List Interval)
    → ((t : ℕ) → covers t xs ≡ covers t ys)
    → merge_intervals xs ≡ merge_intervals ys
merge_intervals-canonical xs ys h =
    Separated-unique 0 (merge_intervals xs) (merge_intervals ys) (merge_intervals-Separated xs)
      (merge_intervals-Separated ys)
      (λ t. covers-merge_intervals t xs ∙ (h t ∙ sym (covers-merge_intervals t ys)))
