-- ===== src/Handlers/Register.antt =====
-- internal/handlers/auth.go, `Register`.
pub mod Outcome
use secure_auth_gateway.Prelude.{
  ℕ, Bool, true, false, ◌&&◌, Option, none, some, [], ◌∷◌, String, Text, length, leb,
}
use secure_auth_gateway.Platform.{Platform}
use secure_auth_gateway.Platform.Postgres.{
  User, Answer, one, user, no_rows, unique_violation, email_exists, insert_user,
}
use secure_auth_gateway.Platform.World.{M, branch, ◌>>=◌, ◌>>◌, pure, postgres_call}
use secure_auth_gateway.Http.{
  Response, Request, Credentials, UserResponse, str, respond_json, http_error,
}
use secure_auth_gateway.Http
use secure_auth_gateway.Password.{hash_password}

-- `required`
abbrev pub is_given : Text → Bool
is_given [] = false
is_given (c ∷ s) = true

abbrev pub user_response : User → UserResponse
user_response u = record { id = u.id; role = u.role; email = u.email; created_at = u.created_at }

abbrev pub internal_error : Response → Response
internal_error = http_error "{\"error\": \"Internal Server Error\"}" 500

abbrev pub respond_conflict : Response → Response
respond_conflict = respond_json 409 (("error", str "Email already registered") ∷ [])

abbrev pub respond_created : User → Response → Response
respond_created u =
    respond_json 201 (
      ("message", str "User successfully registered.") ∷ ("data", Http.user (user_response u)) ∷ [])

-- The answers to the `INSERT`.
unfoldable pub after_insert : Answer → Response → Response
after_insert (user u) r = respond_created u r
after_insert unique_violation r = respond_conflict r
after_insert _ r = internal_error r

abbrev pub respond_unprocessable : Response → Response
respond_unprocessable = respond_json 422 (
    ("error", str "Validation failed: Email must be valid, Password must be 15-72 characters.")
    ∷ [])

module _ (p : Platform) where
  -- The `validate` tags of `RegisterRequest`; `min` and `max` count code points.
  abbrev pub valid_registration : Credentials → Bool
  valid_registration c =
      is_given c.email
      && p.valid_email c.email
      && is_given c.password
      && leb 15 (length c.password)
      && leb (length c.password) 72

  -- From the hash on: `none` is an error of the random source.
  unfoldable pub store_user : Text → Option Text → Response → M p Response
  unfolding after_insert
  store_user email none r = pure (http_error "{\"error\": \"Internal Security Error\"}" 500 r)
  store_user email (some hash) r =
      postgres_call p (insert_user email hash) >>= λ answer. pure (after_insert answer r)

  -- The answers to the check for the address.
  unfoldable pub after_check : Credentials → Answer → Response → M p Response
  unfolding store_user
  after_check c one r = pure (respond_conflict r)
  after_check c no_rows r = hash_password p c.password >>= λ hash. store_user c.email hash r
  after_check c _ r = pure (internal_error r)

  unfoldable pub register_decoded : Option Credentials → Response → M p Response
  unfolding after_check
  register_decoded none r = pure (http_error "{\"error\": \"Malformed JSON payload\"}" 400 r)
  register_decoded (some c) r =
      branch (valid_registration c)
        (postgres_call p (email_exists c.email) >>= λ answer. after_check c answer r)
        (pure (respond_unprocessable r))

  unfoldable pub register : Request → Response → M p Response
  unfolding register_decoded
  register req r = register_decoded req.body r
