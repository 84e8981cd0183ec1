-- ===== src/Handlers/Responses.antt =====
-- internal/handlers/auth.go, lines 25 to 111 and the two shared answers further down: what the
-- handlers answer with, the cookie of the refresh token, and the wait before a failed login.
use secure_auth_gateway.Prelude.{
  ℕ, suc, ◌+◌, ◌-◌, ◌*◌, true, Option, none, some, [], ◌∷◌, Text, ltb, ◌==◌, if◌then◌else◌, ℤ, pos,
  negsuc, add_duration,
}
use secure_auth_gateway.Platform.{Platform}
use secure_auth_gateway.Platform.Redis.{second}
use secure_auth_gateway.Platform.World.{M, branch, ◌>>=◌, pure, time_now}
use secure_auth_gateway.Http.{Response, Cookie, str, add_cookie, respond_json}
use secure_auth_gateway.Timing.{failure_delay_target, failure_jitter}
use secure_auth_gateway.Tokens.{AccessTokenSigner, RefreshTokenMaker}

-- `AuthHandler`: the database and Redis are in the state.
pub record AuthHandler : Type 0 where
  pub access_token_maker : AccessTokenSigner
  pub refresh_token_maker : RefreshTokenMaker

abbrev pub new_auth_handler : AccessTokenSigner → RefreshTokenMaker → AuthHandler
new_auth_handler signer maker = record { access_token_maker = signer; refresh_token_maker = maker }

abbrev pub minute : ℕ
minute = 60 * second

abbrev pub access_lifetime : ℤ
access_lifetime = pos (15 * minute)

abbrev pub refresh_lifetime : ℤ
refresh_lifetime = pos (30 * 24 * 60 * minute)

unfoldable pub respond_invalid_credentials : Response → Response
unfolding respond_json
respond_invalid_credentials = respond_json 401 (("error", str "Invalid email or password") ∷ [])

unfoldable pub respond_invalid_session : Response → Response
unfolding respond_json
respond_invalid_session =
    respond_json 401 (("error", str "Invalid or expired refresh session") ∷ [])

abbrev pub refresh_cookie : Text → ℕ → ℤ → Cookie
refresh_cookie token expires max_age = record {
  name = "refresh_token";
  value = token;
  path = "/api/v1/auth";
  expires = expires;
  max_age = max_age;
  http_only = true;
  secure = true;
  same_site_strict = true;
}

-- `MaxAge` is 0, which sends none.
unfoldable pub set_refresh_cookie : (p : Platform) → Text → ℤ → Response → M p Response
set_refresh_cookie p token ttl r =
    time_now p >>= λ now. pure (add_cookie (refresh_cookie token (add_duration now ttl) (pos 0)) r)

unfoldable pub clear_refresh_cookie : Response → Response
clear_refresh_cookie = add_cookie (refresh_cookie [] 0 (negsuc 0))

unfoldable pub respond_logged_out : Response → Response
unfolding respond_json clear_refresh_cookie
respond_logged_out r =
    respond_json 200 (("message", str "Logged out.") ∷ []) (clear_refresh_cookie r)

-- How long the `select` of `padFailure` lasts: to the end of the timer or until the client leaves.
abbrev pub cut_short : Option ℕ → ℕ → ℕ
cut_short none remaining = remaining
cut_short (some left) remaining = if ltb left remaining then left else remaining

module _ (p : Platform) where
  abbrev pub wait : ℕ → M p (Unit {0})
  wait remaining w = (
    tt,
    record w {
      now = w.now + cut_short (p.hung_up w.tick) remaining + p.lag w.tick;
      tick = suc w.tick;
    },
  )

  -- A remainder that is not positive is 0 here: no wait.
  unfoldable pub wait_remaining : ℕ → M p (Unit {0})
  wait_remaining remaining = branch (remaining == 0) (pure tt) (wait remaining)

  unfoldable pub pad_failure : ℕ → M p (Unit {0})
  unfolding wait_remaining
  pad_failure start = do
    target ← failure_delay_target p
    jitter ← failure_jitter p
    now ← time_now p
    wait_remaining (target + jitter - (now - start))
