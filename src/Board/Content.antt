-- ===== src/Board/Content.antt =====
-- server.py, parse_local_datetime and Store._validated_announcement_content, and the rule of
-- gpu_watch/auth.py for an announcement's passphrase.
--
-- An argument of a request is its text, as `str` gives it, or `none` where it is absent or, for a
-- passphrase, no text. Times are whole milliseconds.
pub mod Laws
use Prim.Native.Char.{Char}
use Prim.Native.String
use gpu_watch.Prelude.{
  ℕ, Bool, true, false, not, ◌&&◌, Option, none, some, List, [], ◌∷◌, String, leb, ltb, str_eq,
  if◌then◌else◌,
}
use gpu_watch.Prelude.Signed.{ℤ, pos, negsuc, add_to, scale}
use gpu_watch.Text.{is_space, strip, size, clean_text}
use gpu_watch.Text.Lines.{clean_multiline_text}

-- What is used of Python's library.
pub record Python : Type 0 where
  -- `datetime.strptime(text, format)` in the zone KST; `none` for a ValueError
  pub strptime : String → String → Option ℤ
  -- `int(text)`; `none` for a ValueError
  pub read_int : String → Option ℤ
  -- `str.isprintable`, of one character
  pub is_printable : Char → Bool

pub data NoticeError : Type 0 where
  bad_expiry past_expiry no_author no_message bad_passphrase too_many not_found wrong_pin :
      NoticeError

-- A ValueError, or the message that is returned in place of the result.
pub data Result (A : Type 0) : Type 0 where
  err : NoticeError → Result A
  ok : A → Result A

infixl 5 ◌>>=◌
abbrev pub ◌>>=◌ : {A B : Type 0} → Result A → (A → Result B) → Result B
err e >>= f = err e
ok a >>= f = f a

pub record Content : Type 0 where
  pub author : String
  pub message : String
  pub expires_ts : ℕ
  pub permanent : Bool

-- `datetime.fromtimestamp` knows the years 1 to 9999 of the zone KST.
abbrev pub last_time : ℕ
last_time = 253402268399999

abbrev pub years_before : ℕ
years_before = 62135596800000

-- The expiry, if iso() can write it and it lies ahead.
unfoldable pub check_expiry : ℤ → ℕ → Result ℕ
check_expiry (pos t) ts =
    if ltb last_time t then err bad_expiry else if leb t ts then err past_expiry else ok t
check_expiry (negsuc n) ts = if ltb n years_before then err past_expiry else err bad_expiry

unfoldable pub is_all_printable : (Char → Bool) → String → Bool
is_all_printable printable String.[] = true
is_all_printable printable (String.◌∷◌ c s) = printable c && is_all_printable printable s

unfoldable pub is_all_space : String → Bool
is_all_space String.[] = true
is_all_space (String.◌∷◌ c s) = is_space c && is_all_space s

-- `ts + duration`, of a duration in seconds
abbrev pub after_seconds : ℕ → Option ℤ → Option ℤ
after_seconds ts none = none
after_seconds ts (some duration) = some (add_to ts (scale 1000 duration))

abbrev pub limited : Result ℕ → Result (ℕ × Bool)
limited (err error) = err error
limited (ok expires_ts) = ok (expires_ts, false)

-- The expiry that was read, if it is one.
unfoldable pub timed_expiry : Option ℤ → ℕ → Result (ℕ × Bool)
unfolding check_expiry
timed_expiry none ts = err bad_expiry
timed_expiry (some t) ts = limited (check_expiry t ts)

module _ (python : Python) where
  -- The loop over the formats.
  unfoldable pub try_formats : List String → String → Option ℤ
  try_formats [] text = none
  try_formats (format ∷ formats) text =
      let rest = try_formats formats text in
      elim (python.strptime text format) [
        | none ↦ rest
        | some t ↦ some (if str_eq format "%Y-%m-%d" then add_to 86399000 t else t)
      ]

  unfoldable pub parse_local_datetime : String → Option ℤ
  unfolding try_formats strip
  parse_local_datetime value =
      let text = strip value in
      if str_eq text ""
      then none
      else try_formats ("%Y-%m-%dT%H:%M" ∷ "%Y-%m-%dT%H:%M:%S" ∷ "%Y-%m-%d %H:%M" ∷ "%Y-%m-%d" ∷ [])
          text

  unfoldable pub is_valid_announcement_passphrase : Option String → Bool
  unfolding is_all_printable is_all_space size
  is_valid_announcement_passphrase none = false
  is_valid_announcement_passphrase (some value) =
      (leb 4 (size value) && leb (size value) 64)
      && (is_all_printable python.is_printable value
          && not (not (str_eq value "") && is_all_space value))

  -- The expiry and whether there is none.
  unfoldable pub expiry_of : String → String → ℕ → Result (ℕ × Bool)
  unfolding parse_local_datetime timed_expiry
  expiry_of expires_text duration_text ts =
      if str_eq expires_text "" && str_eq duration_text ""
      then ok (ts, true)
      else if not (str_eq expires_text "")
      then timed_expiry (parse_local_datetime expires_text) ts
      else timed_expiry (after_seconds ts (python.read_int duration_text)) ts

  -- The content, with the texts checked after the expiry.
  unfoldable pub validated_content :
      Option String → Option String → Option String → Option String → ℕ → Result Content
  unfolding expiry_of clean_text clean_multiline_text
  validated_content author message duration_seconds expires_at ts =
      let author_text = clean_text author 32 in
      let message_text = clean_multiline_text message 240 in
      expiry_of (clean_text expires_at 64) (clean_text duration_seconds 32) ts >>= λ expiry.
      if str_eq author_text ""
      then err no_author
      else if str_eq message_text ""
      then err no_message
      else ok record {
        author = author_text;
        message = message_text;
        expires_ts = expiry.0;
        permanent = expiry.1;
      }
