-- ===== src/Tokens.antt =====
-- pkg/pasetoauth/verifier.go and internal/auth/paseto.go: access tokens that are signed, refresh
-- tokens that are encrypted, and the check of their expiry.
pub mod RoundTrip
use secure_auth_gateway.Prelude.{
  ℕ, Option, none, some, List, Text, length, ltb, ◌==◌, if◌then◌else◌, ℤ, add_duration,
}
use secure_auth_gateway.Platform.{Platform}
use secure_auth_gateway.Platform.Payload.{TokenMeta, AccessTokenPayload, RefreshTokenPayload}
use secure_auth_gateway.Platform.World.{
  World, M, branch, ◌>>=◌, ◌>>◌, pure, elapse, time_now, new_uuid,
}

pub data TokenError : Type 0 where
  expired_token invalid_token : TokenError

pub data Verified (A : Type 0) : Type 0 where
  ok : A → Verified A
  err : TokenError → Verified A

pub record Verifier : Type 0 where
  pub public_key : List ℕ

pub record AccessTokenSigner : Type 0 where
  pub private_key : List ℕ

pub record RefreshTokenMaker : Type 0 where
  pub key : List ℕ

-- `ed25519.PublicKeySize` and `ed25519.PrivateKeySize`
abbrev pub public_key_size : ℕ
public_key_size = 32

abbrev pub private_key_size : ℕ
private_key_size = 64

abbrev pub symmetric_key_size : ℕ
symmetric_key_size = 32

-- The constructors; `none` is their error.
unfoldable pub new_verifier : List ℕ → Option Verifier
new_verifier key =
    if length key == public_key_size then some (record { public_key = key }) else none

unfoldable pub new_access_token_signer : List ℕ → Option AccessTokenSigner
new_access_token_signer key =
    if length key == private_key_size then some (record { private_key = key }) else none

unfoldable pub new_refresh_token_maker : List ℕ → Option RefreshTokenMaker
new_refresh_token_maker key =
    if length key == symmetric_key_size then some (record { key = key }) else none

module _ (p : Platform) where
  -- `TokenMeta.Valid`, with what a valid token gives. A token is expired after its moment.
  unfoldable pub if_valid : {A : Type 0} → TokenMeta → A → M p (Verified A)
  if_valid meta payload =
      time_now p >>= λ now. pure (if ltb meta.expired_at now then err expired_token else ok payload)

  -- What a verification does with the reply of the PASETO library.
  abbrev pub check_access : Option AccessTokenPayload → M p (Verified AccessTokenPayload)
  check_access none = pure (err invalid_token)
  check_access (some payload) = if_valid payload.meta payload

  unfoldable pub verify_access_token : Verifier → Text → M p (Verified AccessTokenPayload)
  unfolding if_valid
  verify_access_token v token = check_access (p.verify token v.public_key)

  abbrev pub public_key : AccessTokenSigner → List ℕ
  public_key s = p.public_half s.private_key

  -- `Verifier()` drops the error: `none` is a nil verifier.
  unfoldable pub verifier : AccessTokenSigner → Option Verifier
  unfolding new_verifier
  verifier s = new_verifier (public_key s)

  unfoldable pub create_access_token : AccessTokenSigner → Text → Text → ℤ → M p (Option Text)
  create_access_token s user_id role duration = do
    issued ← time_now p
    now ← time_now p
    let payload : AccessTokenPayload = record {
      user_id = user_id;
      role = role;
      meta = record { issued_at = issued; expired_at = add_duration now duration };
    }
    pure (p.sign s.private_key payload)

  -- `Encrypt` draws a nonce: the call has a number.
  abbrev pub encrypt_call : List ℕ → RefreshTokenPayload → M p (Option Text)
  encrypt_call key payload w = (p.encrypt w.tick key payload, elapse p w)

  -- The token, or its error, and its identifier.
  unfoldable pub create_refresh_token : RefreshTokenMaker → Text → ℤ → M p (Option Text × Text)
  create_refresh_token m user_id duration = do
    token_id ← new_uuid p
    issued ← time_now p
    now ← time_now p
    let payload : RefreshTokenPayload = record {
      token_id = token_id;
      user_id = user_id;
      meta = record { issued_at = issued; expired_at = add_duration now duration };
    }
    token ← encrypt_call m.key payload
    pure (token, token_id)

  abbrev pub check_refresh : Option RefreshTokenPayload → M p (Verified RefreshTokenPayload)
  check_refresh none = pure (err invalid_token)
  check_refresh (some payload) = if_valid payload.meta payload

  unfoldable pub verify_refresh_token :
      RefreshTokenMaker → Text → M p (Verified RefreshTokenPayload)
  unfolding if_valid
  verify_refresh_token m token = check_refresh (p.decrypt token m.key)
