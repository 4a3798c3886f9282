-- ===== src/Text/Clean.antt =====
-- What `clean_text` guarantees: its result is short, in one line, and has no run of spaces.
use Prim.Native.Char.{code}
use gpu_watch.Prelude.{
  ℕ, zero, suc, ◌≤◌, Bool, true, false, Option, String, ◌≡◌, refl, arith, Bool-cases, inl, inr,
}
use gpu_watch.Text.{
  is_space, lstrip, rstrip, rstrip_cons, strip, collapse_from, take_text, size, text_or, clean_text,
}

pub size-take_text : (n : ℕ) (s : String) → size (take_text n s) ≤ n
unfolding size take_text
size-take_text zero s = omega arith
size-take_text (suc n) String.[] = omega arith
size-take_text (suc n) (String.◌∷◌ c s) = omega (arith, size-take_text n s)

-- Every space is the plain space, and no two stand side by side; the flag tells that a space stands
-- before the text.
abbrev pub IsCollapsed : Bool → String → Type 0
IsCollapsed after_space String.[] = Unit
IsCollapsed after_space (String.◌∷◌ c s) =
    (is_space c ≡ true → (after_space ≡ false) × (code c ≡ 32)) × IsCollapsed (is_space c) s

plain_space : is_space " " ≡ true
unfolding is_space
plain_space = refl

collapse_from-IsCollapsed :
    (in_run : Bool) (s : String) → IsCollapsed in_run (collapse_from in_run s)
unfolding collapse_from
collapse_from-IsCollapsed in_run String.[] = tt
collapse_from-IsCollapsed true (String.◌∷◌ c s) = elim (Bool-cases (is_space c)) [
  | inl e ↦ rw e (collapse_from-IsCollapsed true s)
  | inr e ↦ rw e ((λ k. cc), rw e (collapse_from-IsCollapsed false s))
]
collapse_from-IsCollapsed false (String.◌∷◌ c s) = elim (Bool-cases (is_space c)) [
  | inl e ↦ rw e ((λ _. (refl, refl)), rw plain_space (collapse_from-IsCollapsed true s))
  | inr e ↦ rw e ((λ k. cc), rw e (collapse_from-IsCollapsed false s))
]

IsCollapsed-weaken : (b : Bool) (s : String) → IsCollapsed b s → IsCollapsed false s
IsCollapsed-weaken b String.[] h = tt
IsCollapsed-weaken b (String.◌∷◌ c s) h = ((λ k. (refl, (h.0 k).1)), h.1)

-- A text that does not begin with a space.
abbrev pub NoLeadingSpace : String → Type 0
NoLeadingSpace String.[] = Unit
NoLeadingSpace (String.◌∷◌ c s) = is_space c ≡ false

lstrip_lem :
    (s : String) → IsCollapsed false s → IsCollapsed false (lstrip s) × NoLeadingSpace (lstrip s)
unfolding lstrip
lstrip_lem String.[] h = (tt, tt)
lstrip_lem (String.◌∷◌ c s) h = elim (Bool-cases (is_space c)) [
  | inl e ↦ rw e (lstrip_lem s (IsCollapsed-weaken (is_space c) s h.1))
  | inr e ↦ rw e (h, e)
]

rstrip-IsCollapsed : (b : Bool) (s : String) → IsCollapsed b s → IsCollapsed b (rstrip s)
unfolding rstrip
rstrip-IsCollapsed b String.[] h = tt
rstrip-IsCollapsed b (String.◌∷◌ c s) h = cons (rstrip s) (rstrip-IsCollapsed (is_space c) s h.1)
  where
    cons : (r : String) → IsCollapsed (is_space c) r → IsCollapsed b (rstrip_cons c r)
    cons String.[] k = elim (Bool-cases (is_space c)) [
      | inl e ↦ unfold rstrip_cons in rw e tt
      | inr e ↦ unfold rstrip_cons in rw e (h.0, tt)
    ]
    cons (String.◌∷◌ d r) k = unfold rstrip_cons in (h.0, k)

rstrip-NoLeadingSpace : (s : String) → NoLeadingSpace s → NoLeadingSpace (rstrip s)
unfolding rstrip
rstrip-NoLeadingSpace String.[] h = tt
rstrip-NoLeadingSpace (String.◌∷◌ c s) h = cons (rstrip s)
  where
    cons : (r : String) → NoLeadingSpace (rstrip_cons c r)
    cons String.[] = unfold rstrip_cons in rw h h
    cons (String.◌∷◌ d r) = unfold rstrip_cons in h

take_text-IsCollapsed :
    (b : Bool) (n : ℕ) (s : String) → IsCollapsed b s → IsCollapsed b (take_text n s)
unfolding take_text
take_text-IsCollapsed b zero s h = tt
take_text-IsCollapsed b (suc n) String.[] h = tt
take_text-IsCollapsed b (suc n) (String.◌∷◌ c s) h =
    (h.0, take_text-IsCollapsed (is_space c) n s h.1)

take_text-NoLeadingSpace : (n : ℕ) (s : String) → NoLeadingSpace s → NoLeadingSpace (take_text n s)
unfolding take_text
take_text-NoLeadingSpace zero s h = tt
take_text-NoLeadingSpace (suc n) String.[] h = tt
take_text-NoLeadingSpace (suc n) (String.◌∷◌ c s) h = h

-- A cleaned text has at most `max_length` characters; its only white space is the plain space, which
-- never stands at the front or twice in a row.
pub clean_text_lem :
    (value : Option String) (max_length : ℕ)
    → (size (clean_text value max_length) ≤ max_length)
      × IsCollapsed false (clean_text value max_length)
      × NoLeadingSpace (clean_text value max_length)
unfolding clean_text
clean_text_lem value max_length =
    let one_line = collapse_from false (text_or value) in
    let (collapsed, front) =
      lstrip_lem one_line (collapse_from-IsCollapsed false (text_or value)) in
    (
      size-take_text max_length (strip one_line),
      take_text-IsCollapsed false max_length (strip one_line)
          (unfold strip in rstrip-IsCollapsed false (lstrip one_line) collapsed),
      take_text-NoLeadingSpace max_length (strip one_line)
          (unfold strip in rstrip-NoLeadingSpace (lstrip one_line) front),
    )
