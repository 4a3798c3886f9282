-- ===== src/Tests/Passphrase.antt =====
-- Runs of the passphrase hashes, with stand-ins for PBKDF2 and Base64.
use gpu_watch.Prelude.{
  ℕ, zero, suc, ◌≤◌, Bool, true, false, not, some, List, [], ◌∷◌, String, ◌≡◌, refl, ap, arith, ltb,
  ◌==◌, str_eq, if◌then◌else◌, length,
}
use gpu_watch.Prelude.Signed.{pos}
use gpu_watch.Text.{size}
use gpu_watch.Redaction.{same_codes}
use gpu_watch.Snapshots.Tokens.{all_chars}
use gpu_watch.Passphrase.{
  Crypto, cut, is_valid_pin, hash_passphrase, verify_passphrase, is_valid_passphrase_hash,
  hash_needs_upgrade,
}
use gpu_watch.Passphrase.RoundTrip.{IsFaithful, IsSalt, verify-hash_passphrase}

pin_of_digits : is_valid_pin "0042" ≡ true
unfolding is_valid_pin
pin_of_digits = refl

pin_too_long : is_valid_pin "00420" ≡ false
unfolding is_valid_pin
pin_too_long = refl

first_part : cut "a$b$c" ≡ some ("a", "b$c")
unfolding cut
first_part = refl

-- 32 bytes
abbrev bytes : ℕ → List ℕ
bytes b =
    b ∷ b ∷ b ∷ b ∷ b ∷ b ∷ b ∷ b ∷ b ∷ b ∷ b ∷ b ∷ b ∷ b ∷ b ∷ b ∷ b ∷ b ∷ b ∷ b ∷ b ∷ b ∷ b ∷ b
    ∷ b ∷ b ∷ b ∷ b ∷ b ∷ b ∷ b ∷ b ∷ []

abbrev digest_of : Bool → List ℕ
digest_of true = bytes 1
digest_of false = bytes 2

ones : ℕ → String
ones zero = ""
ones (suc n) = String.◌∷◌ "1" (ones n)

abbrev encode : List ℕ → String
encode [] = ""
encode (b ∷ digest) = if b == 1 then "AQ" else "Ag"

abbrev crypto : Crypto
crypto = record {
  pbkdf2 = λ passphrase salt n. digest_of (str_eq passphrase "1234");
  b64encode = encode;
  b64decode = λ text. some (digest_of (str_eq text "AQ"));
  show_int = ones;
  read_int = λ text. some (pos (size text));
}

size-ones : (n : ℕ) → size (ones n) ≡ n
unfolding size ones
size-ones zero = refl
size-ones (suc n) = ap suc (size-ones n)

ones_plain : (n : ℕ) → all_chars (λ symbol. not (symbol == 36)) (ones n) ≡ true
unfolding all_chars ones
ones_plain zero = refl
ones_plain (suc n) = ones_plain n

decode-encode : (b : Bool) → digest_of (str_eq (encode (digest_of b)) "AQ") ≡ digest_of b
decode-encode true = refl
decode-encode false = refl

length-digest_of : (b : Bool) → length (digest_of b) ≡ 32
length-digest_of true = refl
length-digest_of false = refl

crypto-IsFaithful : IsFaithful crypto
crypto-IsFaithful = record {
  read-show = λ n. ap (λ (m : ℕ). some (pos m)) (size-ones n);
  show_plain = ones_plain;
  decode-encode = λ passphrase salt n. ap some (decode-encode (str_eq passphrase "1234"));
  digest_length = λ passphrase salt n. length-digest_of (str_eq passphrase "1234");
}

abbrev drawn : String
drawn = "saltsaltsalt"

drawn-IsSalt : IsSalt drawn
unfolding size all_chars
drawn-IsSalt = record { long = omega arith; short = omega arith; plain = refl }

one_to_512 : (1 ≤ size "1234") × (size "1234" ≤ 512) × (1 ≤ size "4321") × (size "4321" ≤ 512)
unfolding size
one_to_512 = (omega arith, omega arith, omega arith, omega arith)

verify-hash_passphrase_example :
    (encoded : String) × (hash_passphrase crypto "1234" 3 drawn ≡ some encoded)
    × (verify_passphrase crypto (some "1234") (some encoded) ≡ true)
    × (verify_passphrase crypto (some "4321") (some encoded) ≡ same_codes (bytes 2) (bytes 1))
    × (is_valid_passphrase_hash crypto encoded ≡ true)
    × (hash_needs_upgrade crypto encoded ≡ ltb 3 600000)
verify-hash_passphrase_example =
    verify-hash_passphrase crypto crypto-IsFaithful drawn drawn-IsSalt "1234" "4321" 3 one_to_512.0
      one_to_512.1 one_to_512.2 one_to_512.3 (omega arith) (omega arith)
