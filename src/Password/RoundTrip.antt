-- ===== src/Password/RoundTrip.antt =====
-- internal/auth/password.go: a stored hash that was made by `HashPassword`.
use secure_auth_gateway.Prelude.{
  ℕ, ◌≡◌, refl, ◌≢◌, ◌∙◌, some, List, [], ◌∷◌, ◌++◌, Text, codes, text_eq, length, All, arith,
}
use secure_auth_gateway.Platform.{Platform}
use secure_auth_gateway.Platform.World.{World}
use secure_auth_gateway.Password.Base64.{encode}
use secure_auth_gateway.Password.Base64.RoundTrip.{IsByte, decode-encode, encode-NoDollar}
use secure_auth_gateway.Password.Scan.{split, scan_version, scan_parameters}
use secure_auth_gateway.Password.{
  argon2_time, argon2_memory, argon2_parallelism, key_length, hash_header, encoded_hash, checked,
  digest, hash_password, compare_digest, check_base64, check_parts, verify_password,
}

-- A text without the separator is one part.
split-append :
    (sep : ℕ) (a s : Text) → All (λ c. c ≢ sep) a → split sep (a ++ sep ∷ s) ≡ a ∷ split sep s
unfolding split
split-append sep [] s h = ground arith
split-append sep (c ∷ a) s h = ground (arith, split-append sep a s h.1)

split_whole : (sep : ℕ) (a : Text) → All (λ c. c ≢ sep) a → split sep a ≡ a ∷ []
unfolding split
split_whole sep [] h = refl
split_whole sep (c ∷ a) h = ground (arith, split_whole sep a h.1)

-- The documented shape of a digest: as many bytes as were asked for.
pub record Argon2Laws (p : Platform) : Type 0 where
  pub id_key-length :
      (password : Text) (salt : List ℕ) (time memory threads size : ℕ)
      → length (p.id_key password salt time memory threads size) ≡ size
  pub id_key-IsByte :
      (password : Text) (salt : List ℕ) (time memory threads size : ℕ)
      → All IsByte (p.id_key password salt time memory threads size)

split-header :
    (s : Text)
    → split b'$' (hash_header ++ s)
      ≡ [] ∷ codes "argon2id" ∷ codes "v=19" ∷ codes "m=19456,t=2,p=1" ∷ split b'$' s
unfolding hash_header split
split-header s = refl

split-encoded_hash :
    (salt hash : List ℕ)
    → All IsByte salt
    → All IsByte hash
    → split b'$' (encoded_hash salt hash)
      ≡ []
        ∷ codes "argon2id"
        ∷ codes "v=19"
        ∷ codes "m=19456,t=2,p=1"
        ∷ encode salt
        ∷ encode hash
        ∷ []
unfolding encoded_hash
split-encoded_hash salt hash hs hh = rw (
  split-header (encode salt ++ b'$' ∷ encode hash),
  split-append b'$' (encode salt) (encode hash) (encode-NoDollar salt hs),
  split_whole b'$' (encode hash) (encode-NoDollar hash hh),
)

module _ (p : Platform) where
  check_base64-encode :
      (password : Text) (m t n : ℕ) (salt hash : List ℕ)
      → All IsByte salt
      → All IsByte hash
      → check_base64 p password m t n (encode salt) (encode hash)
        ≡ compare_digest p password m t n salt hash
  unfolding check_base64
  check_base64-encode password m t n salt hash hs hh =
      rw (check_base64, decode-encode salt hs, decode-encode hash hh)

  -- The fields in front of the salt are read as they were written.
  check_parts-header :
      (password b64_salt b64_hash : Text)
      → check_parts p password (
          [] ∷ codes "argon2id" ∷ codes "v=19" ∷ codes "m=19456,t=2,p=1" ∷ b64_salt ∷ b64_hash ∷ [])
        ≡ check_base64 p password argon2_memory argon2_time argon2_parallelism b64_salt b64_hash
  unfolding check_parts scan_version scan_parameters text_eq
  check_parts-header password b64_salt b64_hash = refl

  -- Checking against a hash in the written format comes down to comparing digests.
  pub verify_password-encoded_hash :
      (password : Text) (salt hash : List ℕ)
      → All IsByte salt
      → All IsByte hash
      → verify_password p password (encoded_hash salt hash)
        ≡ compare_digest p password argon2_memory argon2_time argon2_parallelism salt hash
  unfolding verify_password
  verify_password-encoded_hash password salt hash hs hh =
      rw
        (
          split-encoded_hash salt hash hs hh,
          check_parts-header password (encode salt) (encode hash),
        )
        (check_base64-encode password argon2_memory argon2_time argon2_parallelism salt hash hs hh)

  hash_password_lem :
      (password : Text) (salt : List ℕ) (w : World p) (hash : Text)
      → p.salt w.tick ≡ some salt
      → (hash_password p password w).0 ≡ some hash
      → hash ≡ encoded_hash salt (digest p password salt)
  unfolding hash_password
  hash_password_lem password salt w hash drawn made = ground arith

  compare_digest_lem :
      Argon2Laws p
      → (password other : Text) (salt : List ℕ)
      → compare_digest p other argon2_memory argon2_time argon2_parallelism salt
          (digest p password salt)
        ≡ checked (text_eq (digest p password salt) (digest p other salt))
  unfolding compare_digest
  compare_digest_lem laws password other salt =
      rw (laws.id_key-length password salt argon2_time argon2_memory argon2_parallelism key_length)

  -- A hash that was made of a password gives, for any password offered, the answer whether the two
  -- have the same digest under the stored salt, and no error.
  pub verify_password-hash_password :
      Argon2Laws p
      → (password other : Text) (salt : List ℕ) (w : World p) (hash : Text)
      → p.salt w.tick ≡ some salt
      → All IsByte salt
      → (hash_password p password w).0 ≡ some hash
      → verify_password p other hash
        ≡ checked (text_eq (digest p password salt) (digest p other salt))
  verify_password-hash_password laws password other salt w hash drawn bytes made =
      let d = digest p password salt in
      rw (hash_password_lem password salt w hash drawn made) (
        verify_password-encoded_hash other salt d bytes (laws.id_key-IsByte password salt _ _ _ _)
        ∙ compare_digest_lem laws password other salt)
