-- ===== src/History/RouteReplies.antt =====
-- The responses of the middleware and of internal/handlers/routes.go, step by step.
use secure_auth_gateway.Prelude.{
  ℕ, ◌+◌, Bool, true, false, Option, none, some, List, [], ◌∷◌, Text, text_eq, codes, fields,
}
use secure_auth_gateway.Platform.{Platform}
use secure_auth_gateway.Platform.Payload.{AccessTokenPayload}
use secure_auth_gateway.Platform.World.{World, limiter_call, elapse}
use secure_auth_gateway.Http.{Response, Request, http_error}
use secure_auth_gateway.Lockout.{to_lower}
use secure_auth_gateway.Tokens.{Verified, ok, err, Verifier, verifier, verify_access_token}
use secure_auth_gateway.Gate.{
  Handler, with_payload, with_token, with_fields, authenticate_header, authenticate_token,
  require_role,
}
use secure_auth_gateway.Handlers.Responses.{AuthHandler}
use secure_auth_gateway.Handlers.PublicKey
use secure_auth_gateway.Handlers.Session.{logout, refresh}
use secure_auth_gateway.Routes.{
  Endpoint, health, public_key, register, login, admin_health, user_health, Group, open_group,
  auth_group, admin_group, user_group, run_endpoint, limited, protected, route, serve,
  fresh_response, group_of, find_route, routes,
}
use secure_auth_gateway.Routes
use secure_auth_gateway.History.Sends.{Written, Sends, http_error-Sends, branch-Sends}
use secure_auth_gateway.History.Replies.{register-Sends, login-Sends}
use secure_auth_gateway.History.SessionReplies.{logout-Sends, refresh-Sends}

-- The router and the limiter keep the property on what they write themselves.
pub record Outside (p : Platform) (P : Response → Type 0) : Type 0 where
  pub unrouted-kept : (req : Request) (r : Response) → P r → P (p.unrouted req r)
  pub limiter-kept :
      (now : ℕ) (ip : Text) (r : Response) (s : p.Store) → P r → P (p.limiter now ip r s).0.1

module _ {p : Platform} {P : Response → Type 0} (k : Written P) where
  with_payload-Sends :
      (v : Verified AccessTokenPayload) (next : Handler p)
      → ((c : Option AccessTokenPayload) → Sends P (next c))
      → Sends P (with_payload p v next)
  unfolding with_payload
  with_payload-Sends (err e) next f r w i = http_error-Sends k _ 401 r i
  with_payload-Sends (ok c) next f r w i = f (some c) r w i

  with_token-Sends :
      (v : Option Verifier) (token : Text) (next : Handler p)
      → ((c : Option AccessTokenPayload) → Sends P (next c))
      → Sends P (with_token p v token next)
  unfolding with_token
  with_token-Sends none token next f r w i = k.status 500 r i
  with_token-Sends (some v) token next f r w i =
      let (checked, w') = verify_access_token p v token w in
      with_payload-Sends checked next f r w' i

  with_fields-Sends :
      (v : Option Verifier) (words : List Text) (next : Handler p)
      → ((c : Option AccessTokenPayload) → Sends P (next c))
      → Sends P (with_fields p v words next)
  unfolding with_fields
  with_fields-Sends v [] next f r w i = http_error-Sends k _ 401 r i
  with_fields-Sends v (s ∷ []) next f r w i = http_error-Sends k _ 401 r i
  with_fields-Sends v (s ∷ token ∷ more) next f r w i =
      branch-Sends (text_eq (to_lower p s) (codes "bearer")) (with_token p v token next)
        (λ r' u. (http_error "{\"error\": \"Invalid authorization format\"}" 401 r', u))
        (with_token-Sends v token next f) (λ r' u j. http_error-Sends k _ 401 r' j) r w i

  authenticate-Sends :
      (v : Option Verifier) (text : Text) (next : Handler p)
      → ((c : Option AccessTokenPayload) → Sends P (next c))
      → Sends P (authenticate_header p v text next)
  unfolding authenticate_header
  authenticate-Sends v [] next f r w i = http_error-Sends k _ 401 r i
  authenticate-Sends v (c ∷ s) next f r w i = with_fields-Sends v (fields (c ∷ s)) next f r w i

  require_role-Sends :
      (allowed : Text) (next : Handler p)
      → ((c : Option AccessTokenPayload) → Sends P (next c))
      → (c : Option AccessTokenPayload) → Sends P (require_role p allowed next c)
  unfolding require_role
  require_role-Sends allowed next f none r w i = http_error-Sends k _ 401 r i
  require_role-Sends allowed next f (some c) r w i =
      branch-Sends (text_eq c.role allowed) (next (some c))
        (λ r' u. (http_error "{\"error\": \"Forbidden: Insufficient permissions\"}" 403 r', u))
        (f (some c)) (λ r' u j. http_error-Sends k _ 403 r' j) r w i

  module _ (o : Outside p P) (h : AuthHandler) where
    run_endpoint-Sends : (e : Option Endpoint) (req : Request) → Sends P (run_endpoint p h e req)
    unfolding run_endpoint refresh logout PublicKey.health PublicKey.public_key_handler
        PublicKey.admin_health PublicKey.user_health
    run_endpoint-Sends none req r w i = o.unrouted-kept req r i
    run_endpoint-Sends (some health) req r w i = k.body _ _ (k.content_type _ r i)
    run_endpoint-Sends (some public_key) req r w i = k.body _ _ (k.content_type _ r i)
    run_endpoint-Sends (some register) req r w i = register-Sends k req r w i
    run_endpoint-Sends (some login) req r w i = login-Sends k h req r w i
    run_endpoint-Sends (some Routes.refresh) req r w i = refresh-Sends k h req.cookie r w i
    run_endpoint-Sends (some Routes.logout) req r w i = logout-Sends k h req.cookie r w i
    run_endpoint-Sends (some admin_health) req r w i = k.body _ _ (k.content_type _ r i)
    run_endpoint-Sends (some user_health) req r w i = k.body _ _ (k.content_type _ r i)

    limited-Sends :
        (verdict : Bool × Response) (e : Option Endpoint) (req : Request) (w : World p)
        → P verdict.1
        → P (limited p h verdict e req w).0
    unfolding limited
    limited-Sends (true, r) e req w i = run_endpoint-Sends e req r w i
    limited-Sends (false, r) e req w i = i

    protected-Sends :
        (allowed : Text) (e : Option Endpoint) (req : Request)
        → Sends P (protected p h allowed e req)
    unfolding protected authenticate_token
    protected-Sends allowed e req r w i =
        authenticate-Sends (verifier p h.access_token_maker) req.authorization
          (require_role p allowed (λ _ r'. run_endpoint p h e req r'))
          (require_role-Sends allowed (λ _ r'. run_endpoint p h e req r')
            (λ _ r' u j. run_endpoint-Sends e req r' u j))
          r w i

    pub route-Sends :
        (g : Group) (e : Option Endpoint) (req : Request) → Sends P (route p h g e req)
    unfolding route limiter_call
    route-Sends open_group e req r w i = run_endpoint-Sends e req r w i
    route-Sends auth_group e req r w i =
        let (verdict, store) = p.limiter (w.now + p.lag w.tick) req.client_ip r w.store in
        limited-Sends verdict e req (record (elapse p w) { store = store })
          (o.limiter-kept (w.now + p.lag w.tick) req.client_ip r w.store i)
    route-Sends admin_group e req r w i = protected-Sends (codes "admin") e req r w i
    route-Sends user_group e req r w i = protected-Sends (codes "user") e req r w i
