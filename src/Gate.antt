-- ===== src/Gate.antt =====
-- The middleware: pkg/pasetoauth/middleware.go and security_headers.go, and
-- internal/middleware/authorize_role.go.
use secure_auth_gateway.Prelude.{Option, none, some, List, [], ◌∷◌, Text, codes, text_eq, fields}
use secure_auth_gateway.Platform.{Platform}
use secure_auth_gateway.Platform.Payload.{AccessTokenPayload}
use secure_auth_gateway.Platform.World.{M, branch, ◌>>=◌, pure}
use secure_auth_gateway.Http.{Request, Response, header, write_header, http_error}
use secure_auth_gateway.Tokens.{Verified, ok, err, Verifier, verify_access_token}
use secure_auth_gateway.Lockout.{to_lower}

-- `SecurityHeaders`, up to the call of the next handler.
unfoldable pub security_headers : Response → Response
security_headers r =
    header "Strict-Transport-Security" (codes "max-age=63072000; includeSubDomains") (
      header "X-Content-Type-Options" (codes "nosniff") (
        header "Content-Security-Policy" (codes "frame-ancestors 'none';")
          (header "X-Frame-Options" (codes "DENY") r)))

module _ (p : Platform) where
  -- A handler behind the token check is given the request's context, which holds the payload.
  abbrev pub Handler : Type 0
  Handler = Option AccessTokenPayload → Response → M p Response

  unfoldable pub with_payload : Verified AccessTokenPayload → Handler → Response → M p Response
  with_payload (err e) next r =
      pure (http_error "{\"error\": \"Unauthorized: invalid or expired token\"}" 401 r)
  with_payload (ok payload) next r = next (some payload) r

  -- A nil verifier is a nil pointer: the panic ends in the router's `Recoverer`.
  unfoldable pub with_token : Option Verifier → Text → Handler → Response → M p Response
  unfolding with_payload
  with_token none token next r = pure (write_header 500 r)
  with_token (some v) token next r =
      verify_access_token p v token >>= λ verified. with_payload verified next r

  unfoldable pub with_fields : Option Verifier → List Text → Handler → Response → M p Response
  unfolding with_token
  with_fields v (scheme ∷ token ∷ more) next r =
      branch (text_eq (to_lower p scheme) (codes "bearer")) (with_token v token next r)
        (pure (http_error "{\"error\": \"Invalid authorization format\"}" 401 r))
  with_fields v _ next r = pure (http_error "{\"error\": \"Invalid authorization format\"}" 401 r)

  unfoldable pub authenticate_header : Option Verifier → Text → Handler → Response → M p Response
  unfolding with_fields fields
  authenticate_header v [] next r =
      pure (http_error "{\"error\": \"Missing authorization header\"}" 401 r)
  authenticate_header v (c ∷ s) next r = with_fields v (fields (c ∷ s)) next r

  unfoldable pub authenticate_token : Option Verifier → Request → Handler → Response → M p Response
  unfolding authenticate_header
  authenticate_token v req next r = authenticate_header v req.authorization next r

  unfoldable pub require_role : Text → Handler → Handler
  require_role allowed next none r =
      pure (http_error "{\"error\": \"Unauthorized: No user context found\"}" 401 r)
  require_role allowed next (some payload) r =
      branch (text_eq payload.role allowed) (next (some payload) r)
        (pure (http_error "{\"error\": \"Forbidden: Insufficient permissions\"}" 403 r))
