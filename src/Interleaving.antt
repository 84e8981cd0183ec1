-- ===== src/Interleaving.antt =====
-- Requests that run at the same time (internal/handlers/auth.go, `Refresh`): one goroutine's
-- refresh as stages between its accesses to the clock, Redis and Postgres.
pub mod Alone
pub mod System
pub mod Progress
pub mod Claims
pub mod Single
use secure_auth_gateway.Prelude.{Option, none, some, Text, text_eq, codes, ℤ, sub_ℕ, true, false}
use secure_auth_gateway.Platform.{Platform}
use secure_auth_gateway.Platform.Payload.{RefreshTokenPayload}
use secure_auth_gateway.Platform.Redis.{Reply, set, get_del}
use secure_auth_gateway.Platform.Postgres.{Answer, role, find_role}
use secure_auth_gateway.Platform.World.{M, branch, ◌>>=◌, pure, redis_call, postgres_call, time_now}
use secure_auth_gateway.Http.{Response, Request}
use secure_auth_gateway.Lockout.{is_ok}
use secure_auth_gateway.Tokens.{
  Verified, ok, err, create_access_token, create_refresh_token, verify_refresh_token,
}
use secure_auth_gateway.Handlers.Responses.{
  AuthHandler, access_lifetime, respond_invalid_session, set_refresh_cookie,
}
use secure_auth_gateway.Handlers.Register.{internal_error}
use secure_auth_gateway.Handlers.Login.{refresh_key, respond_token}
use secure_auth_gateway.Handlers.Session.{string_result}

-- Where a refresh stands, with the local variables that are live there.
pub data Stage : Type 0 where
  arrived : Request → Response → Stage  -- before the token is decrypted
  verified : Verified RefreshTokenPayload → Response → Stage  -- before the `GETDEL`
  claimed : RefreshTokenPayload → Option Text → Response → Stage  -- before the role is read
  answered : RefreshTokenPayload → Answer → Response → Stage  -- before the access token
  signed : RefreshTokenPayload → Option Text → Response → Stage  -- before `time.Until`
  lasting : RefreshTokenPayload → Text → ℤ → Response → Stage  -- before the refresh token
  created : RefreshTokenPayload → Text → ℤ → Option Text × Text → Response → Stage  -- before `SET`
  stored : Text → Text → ℤ → Reply → Response → Stage  -- before the cookie
  finished : Response → Stage

module _ (p : Platform) (h : AuthHandler) where
  abbrev pub begin : Option Text → Response → M p Stage
  begin none r = pure (finished (respond_invalid_session r))
  begin (some token) r =
      verify_refresh_token p h.refresh_token_maker token >>= λ v. pure (verified v r)

  abbrev pub conclude : Text → Text → ℤ → Reply → Response → M p Stage
  conclude access refresh remaining reply r = elim (is_ok reply) [
    | false ↦ pure (finished (internal_error r))
    | true ↦ set_refresh_cookie p refresh remaining r >>= λ r'.
        pure (finished (respond_token (codes "Access token refreshed.") access r'))
  ]

  -- The goroutine runs to its next access; between two accesses others may run.
  unfoldable pub advance : Stage → M p Stage
  advance (arrived req r) = begin req.cookie r
  advance (verified (err e) r) = pure (finished (respond_invalid_session r))
  advance (verified (ok payload) r) =
      redis_call p (get_del (refresh_key payload.token_id)) >>= λ reply.
      pure (claimed payload (string_result reply) r)
  advance (claimed payload none r) = pure (finished (respond_invalid_session r))
  advance (claimed payload (some user_id) r) =
      branch (text_eq user_id payload.user_id)
        (postgres_call p (find_role payload.user_id) >>= λ answer. pure (answered payload answer r))
        (pure (finished (respond_invalid_session r)))
  advance (answered payload (role name) r) =
      create_access_token p h.access_token_maker payload.user_id name access_lifetime >>= λ access.
      pure (signed payload access r)
  advance (answered payload _ r) = pure (finished (internal_error r))
  advance (signed payload none r) = pure (finished (internal_error r))
  advance (signed payload (some access) r) =
      time_now p >>= λ now. pure (lasting payload access (sub_ℕ payload.meta.expired_at now) r)
  advance (lasting payload access remaining r) =
      create_refresh_token p h.refresh_token_maker payload.user_id remaining >>= λ made.
      pure (created payload access remaining made r)
  advance (created payload access remaining (none, id) r) = pure (finished (internal_error r))
  advance (created payload access remaining (some refresh, id) r) =
      redis_call p (set (refresh_key id) payload.user_id remaining) >>= λ reply.
      pure (stored access refresh remaining reply r)
  advance (stored access refresh remaining reply r) = conclude access refresh remaining reply r
  advance (finished r) = pure (finished r)
