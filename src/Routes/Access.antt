-- ===== src/Routes/Access.antt =====
-- The protected routes of internal/handlers/routes.go with their middleware.
use secure_auth_gateway.Prelude.{
  ◌+◌, ◌≡◌, ◌↔◌, refl, ap, inl, inr, Bool-cases, Option-cases, false, Option, none, some, List, [],
  ◌∷◌, Text, text_eq, text_eq_iff, text_eq_refl, arith, ◌∙◌, codes, fields, ltb,
}
use secure_auth_gateway.Platform.{Platform}
use secure_auth_gateway.Platform.Payload.{AccessTokenPayload}
use secure_auth_gateway.Platform.World.{World, elapse}
use secure_auth_gateway.Http.{Response, Request, http_error}
use secure_auth_gateway.Lockout.{to_lower}
use secure_auth_gateway.Tokens.{Verifier, verifier, verify_access_token, if_valid}
use secure_auth_gateway.Gate.{
  Handler, with_payload, with_token, with_fields, authenticate_header, authenticate_token,
  require_role, security_headers,
}
use secure_auth_gateway.Handlers.PublicKey
use secure_auth_gateway.Handlers.Responses.{AuthHandler}
use secure_auth_gateway.Routes.{
  Endpoint, run_endpoint, protected, serve, route, group_of, find_route, admin_health,
  fresh_response,
}

-- A request with a bearer token that the gateway's verifier accepts, that has not expired, and
-- whose role is the one allowed.
pub record IsAuthorized (p : Platform) (h : AuthHandler) (allowed : Text) (req : Request)
    (w : World p) : Type 0 where
  pub v : Verifier
  pub scheme : Text
  pub token : Text
  pub more : List Text
  pub claims : AccessTokenPayload
  pub verified_by : verifier p h.access_token_maker ≡ some v
  pub header : fields req.authorization ≡ scheme ∷ token ∷ more
  pub bearer : to_lower p scheme ≡ codes "bearer"
  pub read : p.verify token v.public_key ≡ some claims
  pub in_time : ltb claims.meta.expired_at (w.now + p.lag w.tick) ≡ false
  pub role : claims.role ≡ allowed

module _ {p : Platform} where
  require_role-200 :
      (allowed : Text) (next : Handler p) (claims : AccessTokenPayload) (r : Response) (w : World p)
      → r.status ≡ none
      → (require_role p allowed next (some claims) r w).0.status ≡ some 200
      → claims.role ≡ allowed
  unfolding require_role http_error
  require_role-200 allowed next claims r w empty done =
      elim (Bool-cases (text_eq claims.role allowed)) [
        | inl same ↦ (text_eq_iff claims.role allowed).0 same
        | inr other ↦ absurd (ground arith)
      ]

  with_token-200 :
      (v : Option Verifier) (token : Text) (next : Handler p) (r : Response) (w : World p)
      → r.status ≡ none
      → (with_token p v token next r w).0.status ≡ some 200
      → (k : Verifier) × (claims : AccessTokenPayload) × (v ≡ some k)
        × (p.verify token k.public_key ≡ some claims)
        × (ltb claims.meta.expired_at (w.now + p.lag w.tick) ≡ false)
        × (with_token p v token next r w ≡ next (some claims) r (elapse p w))
  unfolding with_token with_payload verify_access_token if_valid http_error
  with_token-200 none token next r w empty done = absurd (ground arith)
  with_token-200 (some k) token next r w empty done =
      elim (Option-cases (p.verify token k.public_key)) [
        | inl unread ↦ absurd (ground arith)
        | inr (claims, read) ↦
            elim (Bool-cases (ltb claims.meta.expired_at (w.now + p.lag w.tick))) [
              | inl late ↦ absurd (ground arith)
              | inr in_time ↦ (k, claims, refl, read, in_time, rw (read, in_time, with_token) refl)
            ]
      ]

  with_fields-200 :
      (v : Option Verifier) (words : List Text) (next : Handler p) (r : Response) (w : World p)
      → r.status ≡ none
      → (with_fields p v words next r w).0.status ≡ some 200
      → (scheme : Text) × (token : Text) × (more : List Text) × (words ≡ scheme ∷ token ∷ more)
        × (to_lower p scheme ≡ codes "bearer")
        × (with_fields p v words next r w ≡ with_token p v token next r w)
  unfolding with_fields http_error
  with_fields-200 v [] next r w empty done = absurd (ground arith)
  with_fields-200 v (scheme ∷ []) next r w empty done = absurd (ground arith)
  with_fields-200 v (scheme ∷ token ∷ more) next r w empty done =
      elim (Bool-cases (text_eq (to_lower p scheme) (codes "bearer"))) [
        | inl same ↦ (
          scheme,
          token,
          more,
          refl,
          (text_eq_iff (to_lower p scheme) (codes "bearer")).0 same,
          rw (same, with_fields) refl,
        )
        | inr other ↦ absurd (ground arith)
      ]

  authenticate_header-200 :
      (v : Option Verifier) (text : Text) (next : Handler p) (r : Response) (w : World p)
      → r.status ≡ none
      → (authenticate_header p v text next r w).0.status ≡ some 200
      → authenticate_header p v text next r w ≡ with_fields p v (fields text) next r w
  unfolding authenticate_header http_error
  authenticate_header-200 v [] next r w empty done = absurd (ground arith)
  authenticate_header-200 v (c ∷ s) next r w empty done = refl

  protected-200 :
      (h : AuthHandler) (allowed : Text) (e : Option Endpoint) (req : Request) (r : Response)
      (w : World p)
      → r.status ≡ none
      → (protected p h allowed e req r w).0.status ≡ some 200
      → IsAuthorized p h allowed req w
  unfolding protected authenticate_token
  protected-200 h allowed e req r w empty done =
      let next = require_role p allowed (λ _ r'. run_endpoint p h e req r') in
      let same1 =
        authenticate_header-200 (verifier p h.access_token_maker) req.authorization next r w empty
          done in
      let done1 = rw same1 at done in
      let (scheme, token, more, header, bearer, same2) =
        with_fields-200 (verifier p h.access_token_maker) (fields req.authorization) next r w empty
          done1 in
      let done2 = rw same2 at done1 in
      let (k, claims, by, read, in_time, same3) =
        with_token-200 (verifier p h.access_token_maker) token next r w empty done2 in
      record {
        v = k;
        scheme = scheme;
        token = token;
        more = more;
        claims = claims;
        verified_by = by;
        header = header;
        bearer = bearer;
        read = read;
        in_time = in_time;
        role =
            require_role-200 allowed (λ _ r'. run_endpoint p h e req r') claims r (elapse p w) empty
              (rw same3 at done2);
      }

  authenticate_header-fields :
      (v : Option Verifier) (text scheme : Text) (more : List Text) (next : Handler p)
      (r : Response) (w : World p)
      → fields text ≡ scheme ∷ more
      → authenticate_header p v text next r w ≡ with_fields p v (scheme ∷ more) next r w
  unfolding authenticate_header fields
  authenticate_header-fields v [] scheme more next r w e = absurd (ground arith)
  authenticate_header-fields v (c ∷ s) scheme more next r w e =
      ap (λ words. with_fields p v words next r w) e

  -- Such a request goes through to its endpoint.
  protected-passes :
      (h : AuthHandler) (allowed : Text) (e : Option Endpoint) (req : Request) (r : Response)
      (w : World p)
      → IsAuthorized p h allowed req w
      → protected p h allowed e req r w ≡ run_endpoint p h e req r (elapse p w)
  unfolding protected authenticate_token with_fields with_token with_payload require_role
      verify_access_token if_valid
  protected-passes h allowed e req r w a =
      let next = require_role p allowed (λ _ r'. run_endpoint p h e req r') in
      authenticate_header-fields (verifier p h.access_token_maker) req.authorization a.scheme
        (a.token ∷ a.more) next r w a.header
      ∙ rw
          (
            a.bearer,
            text_eq_refl (codes "bearer"),
            a.verified_by,
            a.read,
            a.in_time,
            a.role,
            text_eq_refl allowed,
          )
          refl

  serve-protected :
      (h : AuthHandler) (req : Request) (w : World p)
      → req.method ≡ "GET"
      → req.path ≡ "/api/v1/admin/health"
      → serve p h req w
        ≡ protected p h (codes "admin") (some admin_health) req (security_headers fresh_response) w
  unfolding serve route group_of find_route
  serve-protected h req w method path = rw (method, path) refl

  -- The admin endpoint answers 200 exactly to the requests that are authorized for the role "admin".
  pub serve-admin_health :
      (h : AuthHandler) (req : Request) (w : World p)
      → req.method ≡ "GET"
      → req.path ≡ "/api/v1/admin/health"
      → ((serve p h req w).0.status ≡ some 200) ↔ IsAuthorized p h (codes "admin") req w
  unfolding security_headers run_endpoint PublicKey.admin_health
  serve-admin_health h req w method path =
      let r = security_headers fresh_response in
      let same = serve-protected h req w method path in
      (
        λ done. protected-200 h (codes "admin") (some admin_health) req r w refl (rw same at done),
        λ a. rw (same, protected-passes h (codes "admin") (some admin_health) req r w a) refl,
      )
