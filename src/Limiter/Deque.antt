-- ===== src/Limiter/Deque.antt =====
-- The deque of one key: it stays in order, and what the loop leaves is what counts. `Agrees` ties it
-- to the unbounded history of the contract.
use gpu_watch.Prelude.{
  ℕ, ◌+◌, ◌≤◌, ◌<◌, true, none, some, List, [], ◌∷◌, ◌++◌, length, arith, ◌≡◌, refl, sym, ◌∙◌, ap,
  All, All-map, All-append, get_last?, Bool-cases, Option-cases, inl, inr, suc,
}
use gpu_watch.Limiter.{expired, prune, is_stale}
use native.Mathlib.Nat.{le_refl}
use gpu_watch.Limiter.Spec.{live}

abbrev pub Sorted : List ℕ → Type 0
Sorted [] = Unit
Sorted (x ∷ xs) = All (λ y. x ≤ y) xs × Sorted xs

Sorted-snoc : (xs : List ℕ) (t : ℕ) → Sorted xs → All (λ x. x ≤ t) xs → Sorted (xs ++ t ∷ [])
Sorted-snoc [] t s h = (tt, tt)
Sorted-snoc (x ∷ xs) t s h = (All-append _ xs (t ∷ []) s.0 (h.0, tt), Sorted-snoc xs t s.1 h.1)

-- Where the oldest hit is live, so are the others.
live-eq-length :
    (ts window : ℕ) (xs : List ℕ) → All (λ x. ts < x + window) xs → live ts window xs ≡ length xs
unfolding live
live-eq-length ts window [] h = refl
live-eq-length ts window (x ∷ xs) h = ground (arith, live-eq-length ts window xs h.1)

live-eq-zero : (ts window : ℕ) (xs : List ℕ) → All (λ x. x + window ≤ ts) xs → live ts window xs ≡ 0
unfolding live
live-eq-zero ts window [] h = refl
live-eq-zero ts window (x ∷ xs) h = ground (arith, live-eq-zero ts window xs h.1)

pub prune-Sorted : (ts window : ℕ) (xs : List ℕ) → Sorted xs → Sorted (prune ts window xs)
unfolding prune
prune-Sorted ts window [] s = tt
prune-Sorted ts window (x ∷ xs) s = ground (arith, prune-Sorted ts window xs s.1)

prune-All : (P : ℕ → Type 0) (ts window : ℕ) (xs : List ℕ) → All P xs → All P (prune ts window xs)
unfolding prune
prune-All P ts window [] h = tt
prune-All P ts window (x ∷ xs) h = elim (Bool-cases (expired ts window x)) [
  | inl e ↦ rw e (prune-All P ts window xs h.1)
  | inr e ↦ rw e h
]

-- What is left after the loop is what counts, since the hits are in order.
pub length-prune :
    (ts window : ℕ) (xs : List ℕ) → Sorted xs → length (prune ts window xs) ≡ live ts window xs
unfolding prune live
length-prune ts window [] s = refl
length-prune ts window (x ∷ xs) s = elim (Bool-cases (expired ts window x)) [
  | inl e ↦ rw e (length-prune ts window xs s.1)
  | inr e ↦ rw e (
      ap suc (
        sym (
          live-eq-length ts window xs (All-map xs (λ y h. let k : x ≤ y = h in ground arith) s.0))))
]

-- The loop drops nothing that counts later.
live-prune :
    (ts later window : ℕ) (xs : List ℕ)
    → ts ≤ later
    → live later window (prune ts window xs) ≡ live later window xs
unfolding prune live
live-prune ts later window [] h = refl
live-prune ts later window (x ∷ xs) h = ground (arith, live-prune ts later window xs h)

live-snoc :
    (ts window : ℕ) (xs : List ℕ) (x : ℕ)
    → live ts window (xs ++ x ∷ []) ≡ live ts window xs + live ts window (x ∷ [])
unfolding live
live-snoc ts window [] x = omega arith
live-snoc ts window (y ∷ xs) x = ground (arith, live-snoc ts window xs x)

live-cons :
    (ts window x : ℕ) (xs : List ℕ)
    → live ts window (x ∷ xs) ≡ live ts window (x ∷ []) + live ts window xs
unfolding live
live-cons ts window x xs = ground arith

le_last : (xs : List ℕ) (z : ℕ) → Sorted xs → get_last? xs ≡ some z → All (λ x. x ≤ z) xs
le_last [] z s e = tt
le_last (x ∷ []) z s e = ground arith
le_last (x ∷ y ∷ xs) z s e = let h = le_last (y ∷ xs) z s.1 e in (omega (arith, h.0, s.0.0), h)

pub live-stale :
    (ts later window longer : ℕ) (xs : List ℕ)
    → Sorted xs
    → window ≤ longer
    → ts ≤ later
    → is_stale ts longer xs ≡ true
    → live later window xs ≡ 0
live-stale ts later window longer xs s w l h = elim (Option-cases (get_last? xs)) [
  | inl e ↦ live-eq-zero later window xs (empty xs e)
  | inr (z, e) ↦
      let old : z + longer ≤ ts = ground arith in
      live-eq-zero later window xs (All-map xs (λ x (k : x ≤ z). omega arith) (le_last xs z s e))
]
  where
    empty : (ys : List ℕ) → get_last? ys ≡ none → All (λ x. x + window ≤ later) ys
    empty [] e = tt
    empty (y ∷ []) e = cc
    empty (y ∷ z ∷ ys) e = absurd (impossible (z ∷ ys) y e)
      where
        impossible : (zs : List ℕ) (x : ℕ) → get_last? (x ∷ zs) ≡ none → ⊥
        impossible [] x e = cc
        impossible (w ∷ zs) x e = impossible zs w e

-- The deque of a key and its history, at time `now`: the deque is in order, and the same number of
-- hits counts in both, now and later.
pub record Agrees (window now : ℕ) (hits history : List ℕ) : Type 0 where
  pub sorted : Sorted hits
  pub past : All (λ hit. hit ≤ now) hits
  pub same : (ts : ℕ) → now ≤ ts → live ts window hits ≡ live ts window history

pub Agrees-prune :
    {window now : ℕ} {hits history : List ℕ} (ts : ℕ)
    → now ≤ ts
    → Agrees window now hits history
    → Agrees window ts (prune ts window hits) history
Agrees-prune {window} {now} {hits} ts l a = record {
  sorted = prune-Sorted ts window hits a.sorted;
  past = prune-All _ ts window hits (All-map hits (λ x (k : x ≤ now). omega arith) a.past);
  same = λ later h. live-prune ts later window hits h ∙ a.same later (omega arith);
}

pub Agrees-snoc :
    {window now : ℕ} {hits history : List ℕ}
    → Agrees window now hits history
    → Agrees window now (hits ++ now ∷ []) (now ∷ history)
Agrees-snoc {window} {now} {hits} {history} a = record {
  sorted = Sorted-snoc hits now a.sorted a.past;
  past = All-append _ hits (now ∷ []) a.past (le_refl now, tt);
  same = λ later h.
      omega (
        arith,
        a.same later h,
        live-snoc later window hits now,
        live-cons later window now history,
      );
}

pub Agrees-later :
    {window now : ℕ} {hits history : List ℕ} (ts : ℕ)
    → now ≤ ts
    → Agrees window now hits history
    → Agrees window ts hits history
Agrees-later {window} {now} {hits} ts l a = record {
  sorted = a.sorted;
  past = All-map hits (λ x (k : x ≤ now). omega arith) a.past;
  same = λ later h. a.same later (omega arith);
}

-- A deque that a sweep drops counts for nothing, if the sweep's window is no shorter.
pub Agrees-stale :
    {window now : ℕ} {hits history : List ℕ} (longer : ℕ)
    → window ≤ longer
    → is_stale now longer hits ≡ true
    → Agrees window now hits history
    → Agrees window now [] history
unfolding live
Agrees-stale {window} {now} {hits} longer w e a = record {
  sorted = tt;
  past = tt;
  same = λ later h. sym (live-stale now later window longer hits a.sorted w h e) ∙ a.same later h;
}
