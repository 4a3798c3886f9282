-- ===== src/Collector/ErrorMap.antt =====
-- server.py, sanitize_gpu_errors. The keys of the map are texts, as JSON has them.
use gpu_watch.Prelude.{
  ℕ, suc, not, ◌||◌, Option, none, some, List, [], ◌∷◌, String, ltb, ◌==◌, str_eq, if◌then◌else◌,
}
use gpu_watch.Prelude.Signed.{ℤ, pos, negsuc}
use gpu_watch.Text.{strip}
use gpu_watch.Json.{Json, null, object, Fields, end, field, Python, text_of}
use gpu_watch.Redaction.{Regex, safe_probe_error}

abbrev pub max_gpus_per_host : ℕ
max_gpus_per_host = 128

unfoldable pub count_fields : Fields → ℕ
count_fields end = 0
count_fields (field name value fields) = suc (count_fields fields)

-- `result[index] = error`, in the order of the first writes
unfoldable pub set_error : ℕ → String → List (ℕ × String) → List (ℕ × String)
set_error index error [] = (index, error) ∷ []
set_error index error ((i, old) ∷ rest) =
    if i == index then (i, error) ∷ rest else (i, old) ∷ set_error index error rest

module _ (py : Python) (re : Regex) where
  -- The index that a key names, written as Python writes it.
  unfoldable pub index_named : String → Option ℤ → Option ℕ
  unfolding strip
  index_named name none = none
  index_named name (some (negsuc n)) = none
  index_named name (some (pos n)) =
      if not (str_eq (strip name) (py.show_int (pos n))) || not (ltb n max_gpus_per_host)
      then none
      else some n

  -- `safe_probe_error(raw_error) or "nvidia-smi failed"`
  unfoldable pub error_text : Json → String
  unfolding safe_probe_error text_of
  error_text value =
      let error = safe_probe_error re (text_of py value) 300 in
      if str_eq error "" then "nvidia-smi failed" else error

  unfoldable pub add_error : Option ℕ → String → List (ℕ × String) → Option (List (ℕ × String))
  unfolding set_error
  add_error none error result = none
  add_error (some index) error result = some (set_error index error result)

  unfoldable pub read_errors : Fields → List (ℕ × String) → Option (List (ℕ × String))
  unfolding add_error index_named error_text
  read_errors end result = some result
  read_errors (field name value fields) result =
      elim (add_error (index_named name (py.read_int name)) (error_text value) result) [
        | none ↦ none
        | some more ↦ read_errors fields more
      ]

  unfoldable pub sanitize_gpu_errors : Json → Option (List (ℕ × String))
  unfolding read_errors count_fields
  sanitize_gpu_errors null = some []
  sanitize_gpu_errors (object fields) =
      if ltb max_gpus_per_host (count_fields fields) then none else read_errors fields []
  sanitize_gpu_errors _ = none
