-- ===== src/Handlers/Session.antt =====
-- internal/handlers/auth.go, `Logout` and `Refresh`.
pub mod Rotation
pub mod Outcome
use secure_auth_gateway.Prelude.{
  true, false, Option, none, some, Text, text_eq, decimal, codes, ℤ, sub_ℕ,
}
use secure_auth_gateway.Platform.{Platform}
use secure_auth_gateway.Platform.Payload.{RefreshTokenPayload}
use secure_auth_gateway.Platform.Redis.{Reply, value, count, text, set, get_del}
use secure_auth_gateway.Platform.Postgres.{Answer, role, find_role}
use secure_auth_gateway.Platform.World.{M, branch, ◌>>=◌, pure, redis_call, postgres_call, time_now}
use secure_auth_gateway.Http.{Response, Request}
use secure_auth_gateway.Lockout.{is_ok}
use secure_auth_gateway.Tokens.{
  Verified, ok, err, create_access_token, create_refresh_token, verify_refresh_token,
}
use secure_auth_gateway.Handlers.Responses.{
  AuthHandler, access_lifetime, respond_invalid_session, respond_logged_out, set_refresh_cookie,
}
use secure_auth_gateway.Handlers.Register.{internal_error}
use secure_auth_gateway.Handlers.Login.{refresh_key, respond_token}

-- `.Result()` of a reply as a string: `none` is `redis.Nil` or another error.
abbrev pub string_result : Reply → Option Text
string_result (value (text v)) = some v
string_result (value (count n)) = some (decimal n)
string_result _ = none

module _ (p : Platform) (h : AuthHandler) where
  -- `Logout` answers the same in each case; a mismatch of users is only logged.
  unfoldable pub logout_verified : Verified RefreshTokenPayload → Response → M p Response
  logout_verified (err e) r = pure (respond_logged_out r)
  logout_verified (ok payload) r =
      redis_call p (get_del (refresh_key payload.token_id)) >>= λ _. pure (respond_logged_out r)

  unfoldable pub logout_cookie : Option Text → Response → M p Response
  unfolding logout_verified
  logout_cookie none r = pure (respond_logged_out r)
  logout_cookie (some token) r =
      verify_refresh_token p h.refresh_token_maker token >>= λ v. logout_verified v r

  unfoldable pub logout : Request → Response → M p Response
  unfolding logout_cookie
  logout req r = logout_cookie req.cookie r

  -- The new token is in Redis before it is in the cookie.
  unfoldable pub refresh_finish : Text → Text → ℤ → Reply → Response → M p Response
  refresh_finish access refresh remaining reply r = elim (is_ok reply) [
    | false ↦ pure (internal_error r)
    | true ↦ set_refresh_cookie p refresh remaining r >>= λ r'.
        pure (respond_token (codes "Access token refreshed.") access r')
  ]

  unfoldable pub refresh_store : Text → Text → ℤ → Option Text × Text → Response → M p Response
  unfolding refresh_finish
  refresh_store user_id access remaining (none, token_id) r = pure (internal_error r)
  refresh_store user_id access remaining (some refresh, token_id) r =
      redis_call p (set (refresh_key token_id) user_id remaining) >>= λ reply.
      refresh_finish access refresh remaining reply r

  -- `time.Until` of the old token's expiry is the lifetime of the new one.
  unfoldable pub refresh_rotate : RefreshTokenPayload → Option Text → Response → M p Response
  unfolding refresh_store
  refresh_rotate payload none r = pure (internal_error r)
  refresh_rotate payload (some access) r = do
    now ← time_now p
    let remaining = sub_ℕ payload.meta.expired_at now
    made ← create_refresh_token p h.refresh_token_maker payload.user_id remaining
    refresh_store payload.user_id access remaining made r

  unfoldable pub refresh_role : RefreshTokenPayload → Answer → Response → M p Response
  unfolding refresh_rotate
  refresh_role payload (role name) r =
      create_access_token p h.access_token_maker payload.user_id name access_lifetime >>= λ access.
      refresh_rotate payload access r
  refresh_role payload _ r = pure (internal_error r)

  unfoldable pub refresh_claimed : RefreshTokenPayload → Option Text → Response → M p Response
  unfolding refresh_role
  refresh_claimed payload none r = pure (respond_invalid_session r)
  refresh_claimed payload (some user_id) r =
      branch (text_eq user_id payload.user_id)
        (postgres_call p (find_role payload.user_id) >>= λ answer. refresh_role payload answer r)
        (pure (respond_invalid_session r))

  -- The stored token is claimed and removed by one command.
  unfoldable pub refresh_verified : Verified RefreshTokenPayload → Response → M p Response
  unfolding refresh_claimed
  refresh_verified (err e) r = pure (respond_invalid_session r)
  refresh_verified (ok payload) r =
      redis_call p (get_del (refresh_key payload.token_id)) >>= λ reply.
      refresh_claimed payload (string_result reply) r

  unfoldable pub refresh_cookie_value : Option Text → Response → M p Response
  unfolding refresh_verified
  refresh_cookie_value none r = pure (respond_invalid_session r)
  refresh_cookie_value (some token) r =
      verify_refresh_token p h.refresh_token_maker token >>= λ v. refresh_verified v r

  unfoldable pub refresh : Request → Response → M p Response
  unfolding refresh_cookie_value
  refresh req r = refresh_cookie_value req.cookie r
