-- ===== src/Tests/Secrets.antt =====
-- Passwords, tokens and timing of the concrete gateway.
use secure_auth_gateway.Prelude.{
  ℕ, ◌+◌, ◌<◌, ◌≡◌, refl, List, ◌∷◌, Text, codes, arith, pos, text_eq, some, ◌*◌,
}
use secure_auth_gateway.Platform.World.{World}
use secure_auth_gateway.Password.{verify_password, hash_password, encoded_hash, digest, checked}
use secure_auth_gateway.Password.RoundTrip.{verify_password-hash_password}
use secure_auth_gateway.Tokens.{
  Verifier, AccessTokenSigner, new_access_token_signer, verifier, create_access_token,
  verify_access_token, create_refresh_token, ok,
}
use secure_auth_gateway.Tokens.RoundTrip.{verify-create_access_token, access_claims}
use secure_auth_gateway.Timing.{
  calibration_samples, safety_numerator, safety_denominator, measure_cost,
}
use secure_auth_gateway.Timing.Bounds.{target-EachSample, EachSample}
use secure_auth_gateway.Tests.Demo.{
  demo, start, handler, paseto_laws, argon2_laws, replicate, replicate-IsByte,
}

abbrev password : Text
password = codes "correct horse battery"

abbrev salt : List ℕ
salt = replicate 16 7

abbrev stored : Text
stored = encoded_hash salt (digest demo password salt)

makes_stored : (hash_password demo password start).0 ≡ some stored
unfolding hash_password
makes_stored = refl

verify_password-hash_password_example :
    verify_password demo (codes "wrong horse battery") stored
    ≡ checked (text_eq (digest demo password salt) (digest demo (codes "wrong horse battery") salt))
verify_password-hash_password_example =
    verify_password-hash_password demo argon2_laws password (codes "wrong horse battery") salt start
      stored refl (replicate-IsByte 16 7 (omega arith)) makes_stored

abbrev signer : AccessTokenSigner
signer = handler.access_token_maker

abbrev public : Verifier
public = record { public_key = replicate 32 1 }

constructed : new_access_token_signer (replicate 64 1) ≡ some signer
unfolding new_access_token_signer
constructed = refl

verifies : verifier demo signer ≡ some public
unfolding verifier
verifies = refl

abbrev access_token : Text
access_token = 1 ∷ 1001 ∷ 1007 ∷ codes "1user"

signs :
    (create_access_token demo signer (codes "1") (codes "user") (pos 5) start).0 ≡ some access_token
unfolding create_access_token
signs = refl

abbrev made : World demo
made = (create_access_token demo signer (codes "1") (codes "user") (pos 5) start).1

verify-create_access_token_example :
    (verify_access_token demo public access_token made).0
    ≡ ok (access_claims demo (codes "1") (codes "user") (pos 5) start)
unfolding create_access_token
verify-create_access_token_example =
    verify-create_access_token demo paseto_laws signer public (codes "1") (codes "user")
      access_token (pos 5) start made verifies signs

abbrev refresh_token : Text
refresh_token = 1 ∷ 1002 ∷ 1008 ∷ 1 ∷ codes "1"

encrypts :
    (create_refresh_token demo handler.refresh_token_maker (codes "1") (pos 5) start).0.0
    ≡ some refresh_token
unfolding create_refresh_token
encrypts = refl

target-EachSample_example :
    EachSample demo
      (λ n.
        n * safety_numerator < ((measure_cost demo (some stored) start).0 + 1) * safety_denominator)
      calibration_samples
      stored
      start
target-EachSample_example = target-EachSample demo stored start
