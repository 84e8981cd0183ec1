-- ===== src/Platform/Payload.antt =====
-- The claims that tokens carry: pkg/pasetoauth/verifier.go and internal/auth/paseto.go.
use secure_auth_gateway.Prelude.{ℕ, Text}

pub record TokenMeta : Type 0 where
  pub issued_at : ℕ
  pub expired_at : ℕ

pub record AccessTokenPayload : Type 0 where
  pub user_id : Text
  pub role : Text
  pub meta : TokenMeta

pub record RefreshTokenPayload : Type 0 where
  pub token_id : Text
  pub user_id : Text
  pub meta : TokenMeta
