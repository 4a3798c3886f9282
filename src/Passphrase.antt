-- ===== src/Passphrase.antt =====
-- gpu_watch/auth.py: the passphrases and the text in which their hashes are kept.
--
-- PBKDF2 and Base64 are parameters, and so is the salt that `secrets` draws. A digest is the list of
-- its bytes. A text has no surrogates, so its UTF-8 encoding never fails.
pub mod RoundTrip
use Prim.Native.Char.{code}
use Prim.Native.String
use gpu_watch.Prelude.{
  ℕ, Bool, true, false, not, ◌&&◌, ◌||◌, Option, none, some, List, String, ltb, leb, ◌==◌, str_eq,
  if◌then◌else◌, length,
}
use gpu_watch.Prelude.Signed.{ℤ, pos, negsuc}
use gpu_watch.Text.{size}
use gpu_watch.Redaction.{append, same_codes}
use gpu_watch.Snapshots.Tokens.{all_chars, is_digit}

abbrev pub pin_hash_iterations : ℕ
pin_hash_iterations = 600000

abbrev pub max_pin_hash_iterations : ℕ
max_pin_hash_iterations = 2000000

abbrev pub max_passphrase_hash_input_length : ℕ
max_passphrase_hash_input_length = 512

-- `hashlib.sha256().digest_size`
abbrev pub digest_size : ℕ
digest_size = 32

-- What is used of Python's library.
pub record Crypto : Type 0 where
  -- `hashlib.pbkdf2_hmac("sha256", passphrase, salt, iterations)`
  pub pbkdf2 : String → String → ℕ → List ℕ
  -- `base64.b64encode(digest).decode("ascii")`
  pub b64encode : List ℕ → String
  -- `base64.b64decode(text.encode("ascii"), validate=True)`; `none` for a ValueError
  pub b64decode : String → Option (List ℕ)
  -- `str(n)`
  pub show_int : ℕ → String
  -- `int(text)`; `none` for a ValueError
  pub read_int : String → Option ℤ

-- `len(text) == PIN_LENGTH and text.isascii() and text.isdigit()`
unfoldable pub is_valid_pin : String → Bool
unfolding size all_chars
is_valid_pin text = size text == 4 && all_chars is_digit text

-- The text before the first "$" and the one after it.
unfoldable pub cut : String → Option (String × String)
cut String.[] = none
cut (String.◌∷◌ c s) =
    let rest : Option (String × String) = elim (cut s) [
      | none ↦ none
      | some (before, after) ↦ some (String.◌∷◌ c before, after)
    ] in
    if code c == 36 then some ("", s) else rest

-- `algorithm, iterations, salt, digest_text`
pub record Parts : Type 0 where
  pub algorithm : String
  pub iterations : String
  pub salt : String
  pub digest_text : String

infixl 5 ◌>>=◌
abbrev pub ◌>>=◌ : {A B : Type 0} → Option A → (A → Option B) → Option B
none >>= f = none
some a >>= f = f a

-- `encoded.split("$", 3)`, which must have four parts
unfoldable pub parts_of : String → Option Parts
unfolding cut
parts_of encoded = do
  (algorithm, rest) ← cut encoded
  (iterations, rest') ← cut rest
  (salt, digest_text) ← cut rest'
  some record {
    algorithm = algorithm;
    iterations = iterations;
    salt = salt;
    digest_text = digest_text;
  }

-- `lowest <= n <= highest`
abbrev pub is_between : ℕ → ℕ → ℤ → Bool
is_between lowest highest (pos n) = leb lowest n && leb n highest
is_between lowest highest (negsuc n) = false

module _ (c : Crypto) where
  -- With the salt that was drawn; `none` is a ValueError.
  unfoldable pub hash_passphrase : String → ℕ → String → Option String
  unfolding size append
  hash_passphrase passphrase iterations salt =
      if ltb max_passphrase_hash_input_length (size passphrase)
        || not (is_between 1 max_pin_hash_iterations (pos iterations))
      then none
      else some (
          append "pbkdf2_sha256$" (
            append (c.show_int iterations) (
              append "$"
                (append salt (append "$" (c.b64encode (c.pbkdf2 passphrase salt iterations)))))))

  -- What a stored hash holds: its parts, the number and the digest.
  pub record Stored : Type 0 where
    pub parts : Parts
    pub iteration_count : ℤ
    pub digest : List ℕ

  unfoldable pub read_hash : String → Option Stored
  unfolding parts_of
  read_hash encoded = do
    parts ← parts_of encoded
    iteration_count ← c.read_int parts.iterations
    digest ← c.b64decode parts.digest_text
    some record { parts = parts; iteration_count = iteration_count; digest = digest }

  -- The algorithm, the salt and the digest are as they should be.
  unfoldable pub is_supported : Stored → Bool
  unfolding size
  is_supported stored =
      str_eq stored.parts.algorithm "pbkdf2_sha256"
      && (is_between 1 max_pin_hash_iterations stored.iteration_count
          && ((leb 8 (size stored.parts.salt) && leb (size stored.parts.salt) 128)
              && length stored.digest == digest_size))

  abbrev pub count_of : ℤ → ℕ
  count_of (pos n) = n
  count_of (negsuc n) = 0

  -- Every refusal is `False`, so the order of the checks does not show.
  unfoldable pub verify_stored : String → Option Stored → Bool
  unfolding is_supported same_codes
  verify_stored passphrase none = false
  verify_stored passphrase (some stored) =
      is_supported stored
      && same_codes (c.pbkdf2 passphrase stored.parts.salt (count_of stored.iteration_count))
          stored.digest

  unfoldable pub verify_passphrase : Option String → Option String → Bool
  unfolding verify_stored read_hash size
  verify_passphrase none encoded = false
  verify_passphrase (some passphrase) none = false
  verify_passphrase (some passphrase) (some encoded) =
      not (str_eq passphrase "" || str_eq encoded "")
      && (leb (size passphrase) max_passphrase_hash_input_length
          && verify_stored passphrase (read_hash encoded))

  abbrev pub supported_hash : Option Stored → Bool
  supported_hash none = false
  supported_hash (some stored) = is_supported stored

  unfoldable pub is_valid_passphrase_hash : String → Bool
  unfolding read_hash is_supported
  is_valid_passphrase_hash encoded = supported_hash (read_hash encoded)

  abbrev pub is_outdated : Option Stored → Bool
  is_outdated none = true
  is_outdated (some stored) =
      not (str_eq stored.parts.algorithm "pbkdf2_sha256")
      || (not (is_between pin_hash_iterations max_pin_hash_iterations stored.iteration_count)
          || (not (leb 8 (size stored.parts.salt) && leb (size stored.parts.salt) 128)
              || not (length stored.digest == digest_size)))

  unfoldable pub hash_needs_upgrade : String → Bool
  unfolding read_hash size
  hash_needs_upgrade encoded = is_outdated (read_hash encoded)
