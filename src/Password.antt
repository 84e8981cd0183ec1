-- ===== src/Password.antt =====
-- internal/auth/password.go: Argon2id hashes as strings.
pub mod Base64
pub mod Scan
pub mod RoundTrip
use secure_auth_gateway.Prelude.{
  ℕ, ◌*◌, ◌&&◌, ◌||◌, Bool, true, false, not, Option, none, some, List, [], ◌∷◌, ◌++◌, Text, codes,
  text_eq, decimal, ltb, ◌==◌, if◌then◌else◌, length,
}
use secure_auth_gateway.Platform.{Platform}
use secure_auth_gateway.Platform.World.{M, read_salt, takes_time, ◌>>=◌, ◌>>◌, pure}
use Base64.{encode, decode}
use Scan.{split, scan_version, scan_parameters}

abbrev pub argon2_time : ℕ
argon2_time = 2

abbrev pub argon2_memory : ℕ
argon2_memory = 19 * 1024

abbrev pub argon2_parallelism : ℕ
argon2_parallelism = 1

abbrev pub key_length : ℕ
key_length = 32

-- `argon2.Version`
abbrev pub argon2_version : ℕ
argon2_version = 19

-- The text in front of the salt.
unfoldable pub hash_header : Text
unfolding decimal
hash_header =
    codes "$argon2id$v="
    ++ decimal argon2_version
    ++ codes "$m="
    ++ decimal argon2_memory
    ++ codes ",t="
    ++ decimal argon2_time
    ++ codes ",p="
    ++ decimal argon2_parallelism
    ++ codes "$"

-- What `Sprintf` makes of a salt and a digest.
unfoldable pub encoded_hash : List ℕ → List ℕ → Text
unfolding hash_header encode
encoded_hash salt hash = hash_header ++ (encode salt ++ b'$' ∷ encode hash)

-- A failed check: the format, a field that `Sscanf` or base64 refuses, another version.
pub data HashError : Type 0 where
  invalid_hash_format bad_field wrong_version bad_base64 : HashError

-- `panics`: Argon2 panics at zero rounds or zero threads.
pub data PasswordCheck : Type 0 where
  checked : Bool → PasswordCheck
  hash_error : HashError → PasswordCheck
  panics : PasswordCheck

module _ (p : Platform) where
  -- The digest under the parameters of the configuration.
  abbrev pub digest : Text → List ℕ → List ℕ
  digest password salt =
      p.id_key password salt argon2_time argon2_memory argon2_parallelism key_length

  -- `none` is the error of the random source.
  unfoldable pub hash_password : Text → M p (Option Text)
  hash_password password = do
    drawn ← read_salt p
    elim drawn [
      | none ↦ pure none
      | some salt ↦ takes_time p (some (encoded_hash salt (digest password salt)))
    ]

  -- The comparison, once all fields are read. `IDKey` panics for no passes, for no threads and for
  -- a key of length 0.
  unfoldable pub compare_digest : Text → ℕ → ℕ → ℕ → List ℕ → List ℕ → PasswordCheck
  compare_digest password memory time parallelism salt original =
      if time == 0 || parallelism == 0 || length original == 0
      then panics
      else checked
          (text_eq original (p.id_key password salt time memory parallelism (length original)))

  unfoldable pub check_base64 : Text → ℕ → ℕ → ℕ → Text → Text → PasswordCheck
  unfolding compare_digest
  check_base64 password memory time parallelism b64_salt b64_hash = elim (decode b64_salt) [
    | none ↦ hash_error bad_base64
    | some salt ↦ elim (decode b64_hash) [
      | none ↦ hash_error bad_base64
      | some original ↦ compare_digest password memory time parallelism salt original
    ]
  ]

  unfoldable pub check_parameters : Text → Text → Text → Text → PasswordCheck
  unfolding check_base64
  check_parameters password parameters b64_salt b64_hash = elim (scan_parameters parameters) [
    | none ↦ hash_error bad_field
    | some (memory, time, parallelism) ↦
        check_base64 password memory time parallelism b64_salt b64_hash
  ]

  abbrev pub is_argon2_version : Bool → ℕ → Bool
  is_argon2_version negative n = not negative && n == argon2_version

  unfoldable pub check_version : Text → Text → Text → Text → Text → PasswordCheck
  unfolding check_parameters
  check_version password version parameters b64_salt b64_hash = elim (scan_version version) [
    | none ↦ hash_error bad_field
    | some (negative, n, rest) ↦
        if is_argon2_version negative n
        then check_parameters password parameters b64_salt b64_hash
        else hash_error wrong_version
  ]

  -- The six parts; their number and the second are checked first.
  unfoldable pub check_parts : Text → List Text → PasswordCheck
  unfolding check_version
  check_parts password (_ ∷ name ∷ version ∷ parameters ∷ b64_salt ∷ b64_hash ∷ []) =
      if text_eq name (codes "argon2id")
      then check_version password version parameters b64_salt b64_hash
      else hash_error invalid_hash_format
  check_parts password _ = hash_error invalid_hash_format

  unfoldable pub verify_password : Text → Text → PasswordCheck
  unfolding check_parts split
  verify_password password encoded = check_parts password (split b'$' encoded)
