-- ===== src/Intervals/Cover.antt =====
-- The instants that a list of intervals covers, and how many there are.
use gpu_watch.Prelude.{
  ℕ, zero, suc, ◌+◌, ◌-◌, ◌*◌, ◌≤◌, ◌<◌, Bool, false, ◌&&◌, ◌||◌, List, [], ◌∷◌, leb, ltb,
  if◌then◌else◌, ◌≡◌, refl, arith, Bool-cases, inl, inr,
}
use gpu_watch.Intervals.{Interval, total_seconds}

abbrev pub inside : ℕ → Interval → Bool
inside t (start, end) = leb start t && ltb t end

unfoldable pub covers : ℕ → List Interval → Bool
covers t [] = false
covers t (x ∷ xs) = inside t x || covers t xs

-- How many instants below `bound` pass the test.
unfoldable pub count_below : ℕ → (ℕ → Bool) → ℕ
count_below zero test = 0
count_below (suc n) test = count_below n test + (if test n then 1 else 0)

pub count_below-ext :
    (n : ℕ) (f g : ℕ → Bool) → ((t : ℕ) → f t ≡ g t) → count_below n f ≡ count_below n g
unfolding count_below
count_below-ext zero f g h = refl
count_below-ext (suc n) f g h = rw (h n, count_below-ext n f g h)

pub count_below-or :
    (n : ℕ) (f g : ℕ → Bool)
    → ((t : ℕ) → f t && g t ≡ false)
    → count_below n (λ t. f t || g t) ≡ count_below n f + count_below n g
unfolding count_below
count_below-or zero f g h = omega arith
count_below-or (suc n) f g h = ground (arith, h n, count_below-or n f g h)

count_inside :
    (n start end : ℕ)
    → start ≤ end
    → count_below n (λ t. inside t (start, end)) + (start - n) + (end - n)
      ≡ (end - start) + 2 * (start - n)
unfolding count_below
count_inside zero start end h = omega arith
count_inside (suc n) start end h = ground (arith, count_inside n start end h)

count_none : (n : ℕ) → count_below n (λ t. false) ≡ 0
unfolding count_below
count_none zero = refl
count_none (suc n) = omega (arith, count_none n)

-- Non-empty intervals in order, each ending before the next one starts; all start at `low` or later.
abbrev pub SeparatedFrom : ℕ → List Interval → Type 0
SeparatedFrom low [] = Unit
SeparatedFrom low ((start, end) ∷ rest) =
    (low ≤ start) × (start < end) × SeparatedFrom (suc end) rest

pub covers_below :
    (low t : ℕ) (xs : List Interval) → SeparatedFrom low xs → t < low → covers t xs ≡ false
unfolding covers
covers_below low t [] s h = refl
covers_below low t ((start, end) ∷ rest) s h = ground (arith, covers_below (suc end) t rest s.2)

-- A bound past every end.
abbrev pub EndsBy : ℕ → List Interval → Type 0
EndsBy bound [] = Unit
EndsBy bound ((start, end) ∷ rest) = (end ≤ bound) × EndsBy bound rest

disjoint_from_rest :
    (start end t : ℕ) (rest : List Interval)
    → SeparatedFrom (suc end) rest
    → inside t (start, end) && covers t rest ≡ false
disjoint_from_rest start end t rest s = elim (Bool-cases (ltb t end)) [
  | inl e ↦ ground (arith, covers_below (suc end) t rest s)
  | inr e ↦ ground arith
]

-- The seconds of separated intervals are the instants that they cover.
pub total_seconds-eq-count :
    (bound low : ℕ) (xs : List Interval)
    → SeparatedFrom low xs
    → EndsBy bound xs
    → total_seconds xs ≡ count_below bound (λ t. covers t xs)
unfolding total_seconds covers
total_seconds-eq-count bound low [] s e = omega (arith, count_none bound)
total_seconds-eq-count bound low ((start, end) ∷ rest) s e =
    rw
      (count_below-or bound (λ t. inside t (start, end)) (λ t. covers t rest)
        (λ t. disjoint_from_rest start end t rest s.2))
      (omega
        (arith, count_inside bound start end, total_seconds-eq-count bound (suc end) rest s.2 e.1))
