-- ===== src/Snapshots/Labels.antt =====
-- What the labels and the command summary of a sanitised process may hold.
use Prim.Native.Char.{code}
use text.Mathlib.TextEquality.{Char-path}
use gpu_watch.Prelude.{
  ℕ, ◌+◌, ◌≤◌, Bool, true, not, ◌&&◌, ◌||◌, List, [], ◌∷◌, String, ◌≡◌, refl, sym, ap, ◌∙◌, ◌⊎◌,
  inl, inr, arith, Bool-cases, str_eq, ◌==◌, eq_iff, if◌then◌else◌,
}
use gpu_watch.Text.{size, codes, occurs_in, split, split_from}
use gpu_watch.Text.Clean.{size-take_text}
use gpu_watch.Json.{Json, Python}
use gpu_watch.Redaction.{Regex, append, sensitive_ends, diagnostic_line, redact_sensitive_text}
use gpu_watch.Redaction.Labels.{redact-marks}
use gpu_watch.Snapshots.Tokens.{is_command_token, is_module_name}
use gpu_watch.Snapshots.Process.{
  is_clean_label, label_text, safe_label, bounded_text, is_script_name, summary_of,
  safe_command_summary,
}

pub size-label_text :
    (py : Python) (re : Regex) (value : Json) (limit : ℕ) (is_path : Bool)
    → size (label_text py re value limit is_path) ≤ limit
unfolding label_text
size-label_text py re value limit is_path = size-take_text limit _

-- A label is the fallback, or it has at most `limit` characters and no label of a secret is found in
-- it.
pub safe_label-clean :
    (py : Python) (re : Regex) (value : Json) (limit : ℕ) (fallback : String) (is_path : Bool)
    → (safe_label py re value limit fallback is_path ≡ fallback)
      ⊎ ((size (safe_label py re value limit fallback is_path) ≤ limit)
          × (sensitive_ends re
                (diagnostic_line re (limit + 10) (safe_label py re value limit fallback is_path))
              ≡ []))
unfolding safe_label is_clean_label
safe_label-clean py re value limit fallback is_path =
    let label = label_text py re value limit is_path in
    let short = size-label_text py re value limit is_path in
    elim (Bool-cases (str_eq label "")) [
      | inl e ↦ rw e (inl refl)
      | inr e ↦
          elim (Bool-cases (
            occurs_in (codes "[redacted]") (codes (redact_sensitive_text re label (limit + 10))))) [
              | inl marked ↦ rw (e, marked) (inl refl)
              | inr clean ↦ rw (e, clean) (inr (short, redact-marks re label limit short clean))
            ]
    ]

-- The executable, alone or with one script or one module.
pub data IsSummary (process_name summary : String) : Type 0 where
  alone : summary ≡ process_name → IsSummary process_name summary
  script :
      (argument : String)
      → is_command_token process_name ≡ true
      → is_script_name argument ≡ true
      → summary ≡ append process_name (append " " argument)
      → IsSummary process_name summary
  module_run :
      (name : String)
      → is_command_token process_name ≡ true
      → is_module_name name ≡ true
      → summary ≡ append process_name (append " -m " name)
      → IsSummary process_name summary

-- `" ".join(pieces)`
abbrev join : String → List String → String
join piece [] = piece
join piece (next ∷ pieces) = append piece (append " " (join next pieces))

split_from-join : (s : String) → join (split_from " " s).0 (split_from " " s).1 ≡ s
unfolding split_from append
split_from-join String.[] = refl
split_from-join (String.◌∷◌ c s) = elim (Bool-cases (code c == code " ")) [
  | inl e ↦ rw e (
      ap (λ rest. String.◌∷◌ " " rest) (split_from-join s)
      ∙ ap (λ d. String.◌∷◌ d s) (sym (Char-path c " " (ground arith))))
  | inr e ↦ rw e (
      go (split_from " " s).0 (split_from " " s).1
      ∙ ap (λ rest. String.◌∷◌ c rest) (split_from-join s))
]
  where
    go :
        (piece : String) (pieces : List String)
        → join (String.◌∷◌ c piece) pieces ≡ String.◌∷◌ c (join piece pieces)
    go piece [] = refl
    go piece (next ∷ pieces) = refl

-- Where the words of the summary, put together, are the summary.
summary_of-IsSummary :
    (summary process_name command : String) (arguments : List String)
    → join command arguments ≡ summary
    → IsSummary process_name (summary_of summary process_name (command ∷ arguments))
unfolding summary_of append
summary_of-IsSummary summary process_name command arguments whole =
    elim (Bool-cases (not (str_eq command process_name) || not (is_command_token command))) [
      | inl e ↦ rw e (alone refl)
      | inr e ↦
          let named : command ≡ process_name = ground (arith, eq_iff command process_name) in
          let token : is_command_token process_name ≡ true = rw (← named) (ground arith) in
          rw e (go arguments named token (whole' named))
    ]
  where
    whole' : command ≡ process_name → summary ≡ join process_name arguments
    whole' named = sym whole ∙ ap (λ first. join first arguments) named

    go :
        (rest : List String)
        → command ≡ process_name
        → is_command_token process_name ≡ true
        → summary ≡ join process_name rest
        → IsSummary process_name (elim rest [
          | [] ↦ command
          | argument ∷ [] ↦ if is_script_name argument then summary else process_name
          | argument ∷ name ∷ [] ↦
              if str_eq argument "-m" && is_module_name name then summary else process_name
          | argument ∷ name ∷ other ∷ more ↦ process_name
        ])
    go [] named token text = alone named
    go (argument ∷ []) named token text = elim (Bool-cases (is_script_name argument)) [
      | inl e ↦ rw e (script argument token e text)
      | inr e ↦ rw e (alone refl)
    ]
    go (argument ∷ name ∷ []) named token text =
        elim (Bool-cases (str_eq argument "-m" && is_module_name name)) [
          | inl e ↦
              let flag : argument ≡ "-m" = ground (arith, eq_iff argument "-m") in
              rw e (
                module_run name token (ground arith)
                  (text ∙ ap (λ a. join process_name (a ∷ name ∷ [])) flag))
          | inr e ↦ rw e (alone refl)
        ]
    go (argument ∷ name ∷ other ∷ more) named token text = alone refl

-- A command summary is the executable's name, alone or with one script or one module that it runs.
pub safe_command_summary-IsSummary :
    (py : Python) (re : Regex) (value : Json) (process_name : String)
    → IsSummary process_name (safe_command_summary py re value process_name)
unfolding safe_command_summary split
safe_command_summary-IsSummary py re value process_name =
    let summary = bounded_text py re value 260 in
    elim (Bool-cases (str_eq summary "")) [
      | inl e ↦ rw e (unfold summary_of in alone refl)
      | inr e ↦ rw e (
          summary_of-IsSummary summary process_name (split_from " " summary).0
            (split_from " " summary).1 (split_from-join summary))
    ]
