-- ===== src/Redaction/Labels.antt =====
-- The marker of a redaction is left in place: a text in which it does not show holds no label of a
-- secret.
use Prim.Native.Char.{code}
use gpu_watch.Prelude.{
  ℕ, zero, suc, ◌+◌, ◌*◌, ◌≤◌, max, Bool, true, false, ◌||◌, List, [], ◌∷◌, String, ◌≡◌, refl, ◌==◌,
  ap, arith, Bool-cases, inl, inr,
}
use gpu_watch.Text.{
  is_space, lstrip, rstrip, rstrip_cons, strip, take_text, size, codes, has_prefix, occurs_in,
}
use gpu_watch.Text.Clean.{size-take_text}
use gpu_watch.Redaction.{
  Regex, append, join_lines, sensitive_ends, cut_at, lowest, diagnostic_line, redact_sensitive_text,
}

pub size-append : (s t : String) → size (append s t) ≡ size s + size t
unfolding size append
size-append String.[] t = omega arith
size-append (String.◌∷◌ c s) t = omega (arith, size-append s t)

size_marker : size "[redacted]" ≡ 10
unfolding size
size_marker = refl

size-take_text-le : (n : ℕ) (s : String) → size (take_text n s) ≤ size s
unfolding size take_text
size-take_text-le zero s = omega arith
size-take_text-le (suc n) String.[] = omega arith
size-take_text-le (suc n) (String.◌∷◌ c s) = omega (arith, size-take_text-le n s)

take_text_all : (n : ℕ) (s : String) → size s ≤ n → take_text n s ≡ s
unfolding size take_text
take_text_all zero String.[] h = refl
take_text_all zero (String.◌∷◌ c s) h = absurd (omega arith)
take_text_all (suc n) String.[] h = refl
take_text_all (suc n) (String.◌∷◌ c s) h = ap (String.◌∷◌ c) (take_text_all n s (omega arith))

size-join_lines : (in_run : Bool) (s : String) → size (join_lines in_run s) ≤ size s
unfolding size join_lines
size-join_lines in_run String.[] = omega arith
size-join_lines in_run (String.◌∷◌ c s) =
    ground (arith, size-join_lines (code c == 13 || code c == 10 || code c == 9) s)

size-lstrip : (s : String) → size (lstrip s) ≤ size s
unfolding size lstrip
size-lstrip String.[] = omega arith
size-lstrip (String.◌∷◌ c s) = ground (arith, size-lstrip s)

size-rstrip : (s : String) → size (rstrip s) ≤ size s
unfolding size rstrip rstrip_cons
size-rstrip String.[] = omega arith
size-rstrip (String.◌∷◌ c s) = go (rstrip s) (size-rstrip s)
  where
    go : (r : String) → size r ≤ size s → size (rstrip_cons c r) ≤ suc (size s)
    go String.[] h = elim (Bool-cases (is_space c)) [
      | inl e ↦ rw e (omega arith)
      | inr e ↦ rw e (omega arith)
    ]
    go (String.◌∷◌ d r) h = omega arith

size-diagnostic_line :
    (re : Regex) (maximum : ℕ) (raw : String) → size (diagnostic_line re maximum raw) ≤ size raw
unfolding diagnostic_line strip
size-diagnostic_line re maximum raw =
    let cut = take_text (maximum * 8) raw in
    let line = join_lines false cut in
    omega (
      arith,
      size-rstrip (lstrip line),
      size-lstrip line,
      size-join_lines false cut,
      size-take_text-le (maximum * 8) raw,
    )

has_prefix_self : (s : List ℕ) → has_prefix s s ≡ true
unfolding has_prefix
has_prefix_self [] = refl
has_prefix_self (c ∷ s) = ground (arith, has_prefix_self s)

occurs_in_self : (s : List ℕ) → occurs_in s s ≡ true
unfolding occurs_in
occurs_in_self [] = has_prefix_self []
occurs_in_self (c ∷ s) = rw (has_prefix_self (c ∷ s)) refl

or_true : (b : Bool) → (b || true) ≡ true
or_true true = refl
or_true false = refl

occurs_in-append : (s needle : String) → occurs_in (codes needle) (codes (append s needle)) ≡ true
unfolding occurs_in append
occurs_in-append String.[] needle = occurs_in_self (codes needle)
occurs_in-append (String.◌∷◌ c s) needle = rw (occurs_in-append s needle) (or_true _)

-- A cut line leaves room for the marker.
cut_at-marks :
    (re : Regex) (text : String) (limit stop : ℕ) (stops : List ℕ)
    → size text ≤ limit
    → occurs_in
        (codes "[redacted]")
        (codes (take_text (limit + 10) (cut_at re text (stop ∷ stops))))
      ≡ true
unfolding cut_at
cut_at-marks re text limit stop stops short =
    let kept = take_text (lowest stop stops) text in
    let fits : size (append kept "[redacted]") ≤ limit + 10 = omega (
      arith,
      size-append kept "[redacted]",
      size-take_text-le (lowest stop stops) text,
      size_marker,
    ) in
    rw (take_text_all (limit + 10) (append kept "[redacted]") fits)
      (occurs_in-append kept "[redacted]")

redact-at :
    (re : Regex) (value : String) (limit : ℕ)
    → redact_sensitive_text re value (limit + 10)
      ≡ take_text (limit + 10) (
          cut_at re
            (diagnostic_line re (limit + 10) value)
            (sensitive_ends re (diagnostic_line re (limit + 10) value)))
unfolding redact_sensitive_text
redact-at re value limit =
    let room : max 1 (limit + 10) ≡ limit + 10 = omega arith in
    ap
      (λ (maximum : ℕ).
        let text = diagnostic_line re maximum value in
        take_text maximum (cut_at re text (sensitive_ends re text)))
      room

-- If a label was cut off, the marker stands whole in the result, given room for it.
pub redact-marks :
    (re : Regex) (value : String) (limit : ℕ)
    → size value ≤ limit
    → occurs_in (codes "[redacted]") (codes (redact_sensitive_text re value (limit + 10))) ≡ false
    → sensitive_ends re (diagnostic_line re (limit + 10) value) ≡ []
redact-marks re value limit short hidden =
    go (sensitive_ends re line) (cut_at-marks re line limit)
      (rw (← redact-at re value limit) hidden)
  where
    line : String
    line = diagnostic_line re (limit + 10) value

    go :
        (ends : List ℕ)
        → ((stop : ℕ) (stops : List ℕ)
            → size line ≤ limit
            → occurs_in
                (codes "[redacted]")
                (codes (take_text (limit + 10) (cut_at re line (stop ∷ stops))))
              ≡ true)
        → occurs_in (codes "[redacted]") (codes (take_text (limit + 10) (cut_at re line ends)))
          ≡ false
        → ends ≡ []
    go [] marks clean = refl
    go (stop ∷ stops) marks clean =
        let fits : size line ≤ limit = omega (arith, size-diagnostic_line re (limit + 10) value) in
        cc (marks stop stops fits, clean)

-- A redacted text has at most `limit` characters, or one if that is 0.
pub size-redact :
    (re : Regex) (value : String) (limit : ℕ)
    → size (redact_sensitive_text re value limit) ≤ max 1 limit
unfolding redact_sensitive_text
size-redact re value limit = size-take_text (max 1 limit) _
