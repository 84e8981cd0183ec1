-- ===== src/Tokens/RoundTrip.antt =====
-- Tokens of internal/auth/paseto.go, made and then verified.
use secure_auth_gateway.Prelude.{
  ℕ, suc, ◌+◌, ◌≡◌, some, List, Text, length, arith, ltb, if◌then◌else◌, ℤ, add_duration,
}
use secure_auth_gateway.Platform.{Platform, PasetoLaws}
use secure_auth_gateway.Platform.Payload.{AccessTokenPayload, RefreshTokenPayload}
use secure_auth_gateway.Platform.World.{World}
use secure_auth_gateway.Tokens.{
  AccessTokenSigner, RefreshTokenMaker, Verifier, ok, err, expired_token, new_access_token_signer,
  private_key_size, public_key_size, verifier, verify_access_token, create_access_token,
  create_refresh_token, verify_refresh_token,
}

module _ (p : Platform) where
  -- The claims that a call at a given state puts into a token: it reads the clock twice.
  abbrev pub access_claims : Text → Text → ℤ → World p → AccessTokenPayload
  access_claims user_id role d w = record {
    user_id = user_id;
    role = role;
    meta = record {
      issued_at = w.now + p.lag w.tick;
      expired_at = add_duration (w.now + p.lag w.tick + p.lag (suc w.tick)) d;
    };
  }

  -- A refresh token has drawn its identifier before.
  abbrev pub refresh_claims : Text → ℤ → World p → RefreshTokenPayload
  refresh_claims user_id d w = record {
    token_id = p.uuid w.tick;
    user_id = user_id;
    meta = record {
      issued_at = w.now + p.lag w.tick + p.lag (suc w.tick);
      expired_at =
          add_duration (w.now + p.lag w.tick + p.lag (suc w.tick) + p.lag (suc (suc w.tick))) d;
    };
  }

  -- A signer that the constructor accepts has a private key of 64 bytes and, if the public half has
  -- 32, a verifier for that half.
  pub verifier-eq-some :
      (key : List ℕ) (s : AccessTokenSigner)
      → new_access_token_signer key ≡ some s
      → length (p.public_half key) ≡ public_key_size
      → (length key ≡ private_key_size)
        × (verifier p s ≡ some (record { public_key = p.public_half key }))
  unfolding new_access_token_signer verifier
  verifier-eq-some key s made size = ground arith

  -- An access token is answered with its claims until its moment of expiry, and as expired after.
  pub verify-create_access_token :
      PasetoLaws p
      → (s : AccessTokenSigner) (v : Verifier) (user_id role token : Text) (d : ℤ) (w u : World p)
      → verifier p s ≡ some v
      → (create_access_token p s user_id role d w).0 ≡ some token
      → let claims = access_claims user_id role d w in
        (verify_access_token p v token u).0 ≡ (
          if ltb claims.meta.expired_at (u.now + p.lag u.tick)
          then err expired_token
          else ok claims)
  unfolding create_access_token verify_access_token verifier
  verify-create_access_token laws s v user_id role token d w u made signed =
      ground (arith, laws.sign-verify s.private_key (access_claims user_id role d w) token)

  -- So is a refresh token, whose identifier is the one that the caller is given to store.
  pub verify-create_refresh_token :
      PasetoLaws p
      → (m : RefreshTokenMaker) (user_id token : Text) (d : ℤ) (w u : World p)
      → (create_refresh_token p m user_id d w).0.0 ≡ some token
      → let claims = refresh_claims user_id d w in
        ((create_refresh_token p m user_id d w).0.1 ≡ claims.token_id)
        × ((verify_refresh_token p m token u).0 ≡ (
            if ltb claims.meta.expired_at (u.now + p.lag u.tick)
            then err expired_token
            else ok claims))
  unfolding create_refresh_token verify_refresh_token
  verify-create_refresh_token laws m user_id token d w u made = ground (
    arith,
    laws.encrypt-decrypt (suc (suc (suc w.tick))) m.key (refresh_claims user_id d w) token,
  )
