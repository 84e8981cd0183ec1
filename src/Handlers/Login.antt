-- ===== src/Handlers/Login.antt =====
-- internal/handlers/auth.go, `Login`.
pub mod Refusals
pub mod Opening
pub mod Outcome
use secure_auth_gateway.Prelude.{
  ℕ, ◌/◌, Bool, true, false, ◌&&◌, Option, none, some, [], ◌∷◌, ◌++◌, Text, decimal, codes,
}
use secure_auth_gateway.Platform.{Platform}
use secure_auth_gateway.Platform.Redis.{Reply, set, second}
use secure_auth_gateway.Platform.Postgres.{User, Answer, user, no_rows, find_user}
use secure_auth_gateway.Platform.World.{
  M, branch, ◌>>=◌, ◌>>◌, pure, redis_call, postgres_call, time_now, takes_time,
}
use secure_auth_gateway.Http.{
  Response, Request, Credentials, str, txt, header, write_header, respond_json, http_error,
}
use secure_auth_gateway.Lockout.{is_locked, record_failure, reset_failures, is_ok}
use secure_auth_gateway.Password.{PasswordCheck, checked, hash_error, panics, verify_password}
use secure_auth_gateway.Tokens.{create_access_token, create_refresh_token}
use secure_auth_gateway.Handlers.Responses.{
  AuthHandler, access_lifetime, refresh_lifetime, respond_invalid_credentials, set_refresh_cookie,
  pad_failure,
}
use secure_auth_gateway.Handlers.Register.{is_given, internal_error}

-- internal/redis_db/refresh.go
abbrev pub refresh_prefix : Text
refresh_prefix = codes "refresh:"

unfoldable pub refresh_key : Text → Text
refresh_key token_id = refresh_prefix ++ token_id

abbrev pub respond_token : Text → Text → Response → Response
respond_token message token =
    respond_json 201 (("message", txt message) ∷ ("access_token", txt token) ∷ [])

-- `Retry-After` is in whole seconds.
unfoldable pub respond_locked : ℕ → Response → Response
respond_locked retry_after r =
    respond_json 429 (("error", str "Too many failed attempts. Try again later.") ∷ [])
      (header "Retry-After" (decimal (retry_after / second)) r)

-- The last steps: the refresh token is in the cookie before it is in Redis.
unfoldable pub login_finish : Text → Reply → Response → Response
login_finish token reply r = elim (is_ok reply) [
  | true ↦ respond_token (codes "User successfully logged in.") token r
  | false ↦ internal_error r
]

module _ (p : Platform) (h : AuthHandler) where
  unfoldable pub login_store : Text → Text → Option Text × Text → Response → M p Response
  unfolding login_finish
  login_store user_id access (none, token_id) r = pure (internal_error r)
  login_store user_id access (some refresh, token_id) r = do
    r' ← set_refresh_cookie p refresh refresh_lifetime r
    reply ← redis_call p (set (refresh_key token_id) user_id refresh_lifetime)
    pure (login_finish access reply r')

  unfoldable pub login_refresh : Text → Option Text → Response → M p Response
  unfolding login_store
  login_refresh user_id none r = pure (internal_error r)
  login_refresh user_id (some access) r =
      create_refresh_token p h.refresh_token_maker user_id refresh_lifetime >>= λ made.
      login_store user_id access made r

  -- The right password: the counter is cleared and tokens are made.
  unfoldable pub login_accept : Text → User → Response → M p Response
  unfolding login_refresh
  login_accept email u r = do
    reset_failures p email
    access ← create_access_token p h.access_token_maker u.id u.role access_lifetime
    login_refresh u.id access r

  -- A failed login, for whichever reason.
  unfoldable pub login_fail : Text → ℕ → Response → M p Response
  login_fail email start r = do
    record_failure p email
    pad_failure p start
    pure (respond_invalid_credentials r)

  -- A panic ends in the router's `Recoverer`, which sends 500.
  unfoldable pub login_checked : Text → ℕ → User → PasswordCheck → Response → M p Response
  unfolding login_accept login_fail
  login_checked email start u (checked true) r = login_accept email u r
  login_checked email start u (checked false) r = login_fail email start r
  login_checked email start u (hash_error e) r = login_fail email start r
  login_checked email start u panics r = pure (write_header 500 r)

  -- The answers to the lookup of the address.
  unfoldable pub login_found : Credentials → ℕ → Answer → Response → M p Response
  unfolding login_checked
  login_found c start (user u) r =
      takes_time p (verify_password p c.password u.password_hash) >>= λ check.
      login_checked c.email start u check r
  login_found c start no_rows r = login_fail c.email start r
  login_found c start _ r = pure (internal_error r)

  unfoldable pub login_unlocked : Credentials → Response → M p Response
  unfolding login_found
  login_unlocked c r = do
    start ← time_now p
    answer ← postgres_call p (find_user c.email)
    login_found c start answer r

  -- The `validate` tags of `LoginRequest`.
  abbrev pub valid_login : Credentials → Bool
  valid_login c = is_given c.email && p.valid_email c.email && is_given c.password

  unfoldable pub login_guarded : Credentials → Bool × ℕ → Response → M p Response
  unfolding login_unlocked
  login_guarded c (true, retry_after) r = pure (respond_locked retry_after r)
  login_guarded c (false, retry_after) r = login_unlocked c r

  unfoldable pub login_decoded : Option Credentials → Response → M p Response
  unfolding login_guarded
  login_decoded none r = pure (http_error "{\"error\": \"Malformed JSON payload\"}" 400 r)
  login_decoded (some c) r =
      branch (valid_login c) (is_locked p c.email >>= λ lock. login_guarded c lock r)
        (pure (http_error "{\"error\": \"Invalid input formatting\"}" 400 r))

  unfoldable pub login : Request → Response → M p Response
  unfolding login_decoded
  login req r = login_decoded req.body r
