-- ===== src/Passphrase/RoundTrip.antt =====
-- What is hashed is read back whole, and verified.
use gpu_watch.Prelude.{
  ℕ, ◌≤◌, true, false, not, some, List, [], ◌∷◌, String, ◌≡◌, refl, ap, ◌∙◌, arith, eq_refl, ltb,
  le→leb, ◌==◌, str_eq, str_ne, length,
}
use gpu_watch.Prelude.Signed.{pos}
use gpu_watch.Text.{size}
use gpu_watch.Redaction.{append, same_codes}
use gpu_watch.Snapshots.Tokens.{all_chars}
use gpu_watch.Passphrase.{
  max_pin_hash_iterations, digest_size, Crypto, cut, parts_of, Stored, hash_passphrase, read_hash,
  is_supported, verify_stored, verify_passphrase, is_valid_passphrase_hash, hash_needs_upgrade,
  is_outdated, supported_hash,
}

-- What the format relies on: numbers and digests are read back as they were written, a number has no
-- "$", and a digest has the size of SHA-256.
pub record IsFaithful (c : Crypto) : Type 0 where
  pub read-show : (n : ℕ) → c.read_int (c.show_int n) ≡ some (pos n)
  pub show_plain : (n : ℕ) → all_chars (λ symbol. not (symbol == 36)) (c.show_int n) ≡ true
  pub decode-encode :
      (passphrase salt : String) (n : ℕ)
      → c.b64decode (c.b64encode (c.pbkdf2 passphrase salt n)) ≡ some (c.pbkdf2 passphrase salt n)
  pub digest_length :
      (passphrase salt : String) (n : ℕ) → length (c.pbkdf2 passphrase salt n) ≡ digest_size

-- A salt as `token_urlsafe` draws it.
pub record IsSalt (salt : String) : Type 0 where
  pub long : 8 ≤ size salt
  pub short : size salt ≤ 128
  pub plain : all_chars (λ symbol. not (symbol == 36)) salt ≡ true

cut-append :
    (s rest : String)
    → all_chars (λ symbol. not (symbol == 36)) s ≡ true
    → cut (append s (String.◌∷◌ "$" rest)) ≡ some (s, rest)
unfolding cut append all_chars
cut-append String.[] rest h = refl
cut-append (String.◌∷◌ c s) rest h = ground (arith, cut-append s rest)

same_codes_refl : (s : List ℕ) → same_codes s s ≡ true
unfolding same_codes
same_codes_refl [] = refl
same_codes_refl (n ∷ s) = ground (arith, same_codes_refl s)

not_empty : (s : String) → 1 ≤ size s → str_eq s "" ≡ false
unfolding size
not_empty s h = str_ne s "" (λ e. absurd (omega (arith, ap size e)))

module _ (c : Crypto) (faithful : IsFaithful c) (salt : String) (salted : IsSalt salt) where
  -- The text of a hash.
  abbrev text_of : String → ℕ → String
  text_of passphrase iterations = append "pbkdf2_sha256$" (
      append (c.show_int iterations)
        (append "$" (append salt (append "$" (c.b64encode (c.pbkdf2 passphrase salt iterations))))))

  abbrev stored_of : String → ℕ → Stored c
  stored_of passphrase iterations = record {
    parts = record {
      algorithm = "pbkdf2_sha256";
      iterations = c.show_int iterations;
      salt = salt;
      digest_text = c.b64encode (c.pbkdf2 passphrase salt iterations);
    };
    iteration_count = pos iterations;
    digest = c.pbkdf2 passphrase salt iterations;
  }

  parts_of_text :
      (passphrase : String) (iterations : ℕ)
      → parts_of (text_of passphrase iterations) ≡ some (stored_of passphrase iterations).parts
  unfolding parts_of append
  parts_of_text passphrase iterations =
      let digest = c.b64encode (c.pbkdf2 passphrase salt iterations) in
      let rest = append salt (String.◌∷◌ "$" digest) in
      rw
        (
          cut-append (c.show_int iterations) rest (faithful.show_plain iterations),
          cut-append salt digest salted.plain,
        )
        refl

  read_hash_text :
      (passphrase : String) (iterations : ℕ)
      → read_hash c (text_of passphrase iterations) ≡ some (stored_of passphrase iterations)
  unfolding read_hash
  read_hash_text passphrase iterations =
      rw
        (
          parts_of_text passphrase iterations,
          faithful.read-show iterations,
          faithful.decode-encode passphrase salt iterations,
        )
        refl

  stored-IsSupported :
      (passphrase : String) (iterations : ℕ)
      → 1 ≤ iterations
      → iterations ≤ max_pin_hash_iterations
      → is_supported c (stored_of passphrase iterations) ≡ true
  unfolding is_supported
  stored-IsSupported passphrase iterations low high =
      rw
        (
          eq_refl "pbkdf2_sha256",
          le→leb 1 iterations low,
          le→leb iterations max_pin_hash_iterations high,
          le→leb 8 (size salt) salted.long,
          le→leb (size salt) 128 salted.short,
          faithful.digest_length passphrase salt iterations,
        )
        refl

  hashed :
      (passphrase : String) (iterations : ℕ)
      → size passphrase ≤ 512
      → 1 ≤ iterations
      → iterations ≤ max_pin_hash_iterations
      → hash_passphrase c passphrase iterations salt ≡ some (text_of passphrase iterations)
  unfolding hash_passphrase
  hashed passphrase iterations short low high =
      let fits : ltb 512 (size passphrase) ≡ false = ground arith in
      rw (fits, le→leb 1 iterations low, le→leb iterations max_pin_hash_iterations high) refl

  text_of_long : (passphrase : String) (iterations : ℕ) → 1 ≤ size (text_of passphrase iterations)
  unfolding size append
  text_of_long passphrase iterations = omega arith

  valid :
      (passphrase : String) (iterations : ℕ)
      → 1 ≤ iterations
      → iterations ≤ max_pin_hash_iterations
      → is_valid_passphrase_hash c (text_of passphrase iterations) ≡ true
  unfolding is_valid_passphrase_hash
  valid passphrase iterations low high =
      ap (supported_hash c) (read_hash_text passphrase iterations)
      ∙ stored-IsSupported passphrase iterations low high

  outdated :
      (passphrase : String) (iterations : ℕ)
      → iterations ≤ max_pin_hash_iterations
      → hash_needs_upgrade c (text_of passphrase iterations) ≡ ltb iterations 600000
  unfolding hash_needs_upgrade
  outdated passphrase iterations high =
      ap (is_outdated c) (read_hash_text passphrase iterations)
      ∙ rw
          (
            le→leb iterations max_pin_hash_iterations high,
            le→leb 8 (size salt) salted.long,
            le→leb (size salt) 128 salted.short,
            faithful.digest_length passphrase salt iterations,
          )
          (ground arith)

  verified :
      (passphrase tried : String) (iterations : ℕ)
      → 1 ≤ size tried
      → size tried ≤ 512
      → 1 ≤ iterations
      → iterations ≤ max_pin_hash_iterations
      → verify_passphrase c (some tried) (some (text_of passphrase iterations))
        ≡ same_codes (c.pbkdf2 tried salt iterations) (c.pbkdf2 passphrase salt iterations)
  unfolding verify_passphrase
  verified passphrase tried iterations nonempty fits low high =
      rw
        (
          not_empty tried nonempty,
          not_empty (text_of passphrase iterations) (text_of_long passphrase iterations),
          le→leb (size tried) 512 fits,
        )
        (ap (verify_stored c tried) (read_hash_text passphrase iterations)
          ∙ rw (stored-IsSupported passphrase iterations low high) refl)

  -- A passphrase of 1 to 512 characters that is hashed, with 1 to 2000000 iterations and a salt as it is
  -- drawn, gives a text that counts as valid, that is to be upgraded exactly below 600000 iterations,
  -- that verifies the passphrase, and verifies another one of 1 to 512 characters exactly if it has the
  -- same digest.
  pub verify-hash_passphrase :
      (passphrase other : String) (iterations : ℕ)
      → 1 ≤ size passphrase
      → size passphrase ≤ 512
      → 1 ≤ size other
      → size other ≤ 512
      → 1 ≤ iterations
      → iterations ≤ max_pin_hash_iterations
      → (encoded : String) × (hash_passphrase c passphrase iterations salt ≡ some encoded)
        × (verify_passphrase c (some passphrase) (some encoded) ≡ true)
        × (verify_passphrase c (some other) (some encoded)
            ≡ same_codes (c.pbkdf2 other salt iterations) (c.pbkdf2 passphrase salt iterations))
        × (is_valid_passphrase_hash c encoded ≡ true)
        × (hash_needs_upgrade c encoded ≡ ltb iterations 600000)
  verify-hash_passphrase passphrase other iterations some_text short some_other short_other low
        high =
      (
        text_of passphrase iterations,
        hashed passphrase iterations short low high,
        verified passphrase passphrase iterations some_text short low high
            ∙ same_codes_refl (c.pbkdf2 passphrase salt iterations),
        verified passphrase other iterations some_other short_other low high,
        valid passphrase iterations low high,
        outdated passphrase iterations high,
      )
