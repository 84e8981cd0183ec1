-- ===== src/History/Requests.antt =====
-- internal/handlers/routes.go against an invariant, and histories of requests.
use secure_auth_gateway.Prelude.{
  ◌≡◌, ◌⊎◌, refl, inl, inr, Bool, true, false, Bool-cases, Option, none, some, Text, text_eq, List,
  [], ◌∷◌, codes, fields,
}
use secure_auth_gateway.Platform.{Platform}
use secure_auth_gateway.Platform.Payload.{AccessTokenPayload}
use secure_auth_gateway.Platform.World.{World, limiter_call}
use secure_auth_gateway.Http.{Response, Request, Credentials}
use secure_auth_gateway.Lockout.{to_lower}
use secure_auth_gateway.Tokens.{
  Verified, ok, err, Verifier, verifier, verify_access_token, check_access, if_valid,
}
use secure_auth_gateway.Gate
use secure_auth_gateway.Gate.{Handler}
use secure_auth_gateway.Handlers.Responses.{AuthHandler}
use secure_auth_gateway.Handlers.Register.{register}
use secure_auth_gateway.Handlers.Login.{login}
use secure_auth_gateway.Handlers.Session.{logout, refresh}
use secure_auth_gateway.Routes
use secure_auth_gateway.Routes.{Endpoint, Group, open_group, auth_group, admin_group, user_group}
use secure_auth_gateway.History.Keeps.{Keeps, Kept}
use secure_auth_gateway.History.Logins.{register_decoded-Keeps, login_decoded-Keeps}
use secure_auth_gateway.History.Sessions.{logout_cookie-Keeps, refresh_cookie_value-Keeps}

-- A request that the routes take to `Register`, and its body.
abbrev pub IsRegistration : Request → Credentials → Type 0
IsRegistration req c =
    (Routes.find_route req Routes.routes ≡ some Endpoint.register) × (req.body ≡ some c)

module _ {p : Platform} {I : World p → Type 0} {Fresh : Text → Type 0}
    {Asked : Credentials → Type 0} (k : Kept p I Fresh Asked) (h : AuthHandler) where
  -- The body of a registration is asked for.
  abbrev Asks : Option Endpoint → Request → Type 0
  Asks e req = (c : Credentials) → e ≡ some Endpoint.register → req.body ≡ some c → Asked c

  run_endpoint-Keeps :
      (e : Option Endpoint) (req : Request) (r : Response)
      → Asks e req
      → Keeps I (Routes.run_endpoint p h e req r)
  unfolding Routes.run_endpoint register login logout refresh
  run_endpoint-Keeps (some Endpoint.register) req r asks w i =
      register_decoded-Keeps k h req.body r (λ c e. asks c refl e) w i
  run_endpoint-Keeps (some Endpoint.login) req r asks w i = login_decoded-Keeps k h req.body r w i
  run_endpoint-Keeps (some Endpoint.refresh) req r asks w i =
      refresh_cookie_value-Keeps k h req.cookie r w i
  run_endpoint-Keeps (some Endpoint.logout) req r asks w i =
      logout_cookie-Keeps k h req.cookie r w i
  run_endpoint-Keeps _ req r asks w i = i

  check_access-Keeps : (c : Option AccessTokenPayload) → Keeps I (check_access p c)
  unfolding if_valid
  check_access-Keeps none w i = i
  check_access-Keeps (some c) w i = k.elapsing w i

  -- A handler behind the token check, whatever the context.
  abbrev HandlerKeeps : Handler p → Type 0
  HandlerKeeps next = (c : Option AccessTokenPayload) (r : Response) → Keeps I (next c r)

  with_payload-Keeps :
      (v : Verified AccessTokenPayload) (next : Handler p) (r : Response)
      → HandlerKeeps next
      → Keeps I (Gate.with_payload p v next r)
  unfolding Gate.with_payload
  with_payload-Keeps (err e) next r kn w i = i
  with_payload-Keeps (ok c) next r kn w i = kn (some c) r w i

  with_token-Keeps :
      (v : Option Verifier) (token : Text) (next : Handler p) (r : Response)
      → HandlerKeeps next
      → Keeps I (Gate.with_token p v token next r)
  unfolding Gate.with_token verify_access_token
  with_token-Keeps none token next r kn w i = i
  with_token-Keeps (some v) token next r kn w i =
      with_payload-Keeps (check_access p (p.verify token v.public_key) w).0 next r kn _
        (check_access-Keeps (p.verify token v.public_key) w i)

  with_fields-Keeps :
      (v : Option Verifier) (words : List Text) (next : Handler p) (r : Response)
      → HandlerKeeps next
      → Keeps I (Gate.with_fields p v words next r)
  unfolding Gate.with_fields
  with_fields-Keeps v (scheme ∷ token ∷ more) next r kn w i =
      elim (Bool-cases (text_eq (to_lower p scheme) (codes "bearer"))) [
        | inl bearer ↦ rw bearer (with_token-Keeps v token next r kn w i)
        | inr other ↦ rw other i
      ]
  with_fields-Keeps v _ next r kn w i = i

  authenticate_header-Keeps :
      (v : Option Verifier) (header : Text) (next : Handler p) (r : Response)
      → HandlerKeeps next
      → Keeps I (Gate.authenticate_header p v header next r)
  unfolding Gate.authenticate_header
  authenticate_header-Keeps v [] next r kn w i = i
  authenticate_header-Keeps v (c ∷ s) next r kn w i =
      with_fields-Keeps v (fields (c ∷ s)) next r kn w i

  require_role-Keeps :
      (allowed : Text) (next : Handler p)
      → HandlerKeeps next
      → HandlerKeeps (Gate.require_role p allowed next)
  unfolding Gate.require_role
  require_role-Keeps allowed next kn none r w i = i
  require_role-Keeps allowed next kn (some c) r w i = elim (Bool-cases (text_eq c.role allowed)) [
    | inl allowed_role ↦ rw allowed_role (kn (some c) r w i)
    | inr other ↦ rw other i
  ]

  protected-Keeps :
      (role : Text) (e : Option Endpoint) (req : Request) (r : Response)
      → Asks e req
      → Keeps I (Routes.protected p h role e req r)
  unfolding Routes.protected Gate.authenticate_token
  protected-Keeps role e req r asks w i =
      authenticate_header-Keeps (verifier p h.access_token_maker) req.authorization
        (Gate.require_role p role (λ _ r'. Routes.run_endpoint p h e req r')) r
        (require_role-Keeps role (λ _ r'. Routes.run_endpoint p h e req r')
          (λ c r'. run_endpoint-Keeps e req r' asks))
        w i

  limited-Keeps :
      (verdict : Bool × Response) (e : Option Endpoint) (req : Request)
      → Asks e req
      → Keeps I (Routes.limited p h verdict e req)
  unfolding Routes.limited
  limited-Keeps (true, r) e req asks w i = run_endpoint-Keeps e req r asks w i
  limited-Keeps (false, r) e req asks w i = i

  route-Keeps :
      (g : Group) (e : Option Endpoint) (req : Request) (r : Response)
      → Asks e req
      → Keeps I (Routes.route p h g e req r)
  unfolding Routes.route
  route-Keeps open_group e req r asks w i = run_endpoint-Keeps e req r asks w i
  route-Keeps auth_group e req r asks w i =
      limited-Keeps (limiter_call p req.client_ip r w).0 e req asks _
        (k.limiting req.client_ip r w i)
  route-Keeps admin_group e req r asks w i = protected-Keeps (codes "admin") e req r asks w i
  route-Keeps user_group e req r asks w i = protected-Keeps (codes "user") e req r asks w i

  pub serve-Keeps :
      (req : Request)
      → ((c : Credentials) → IsRegistration req c → Asked c)
      → Keeps I (Routes.serve p h req)
  unfolding Routes.serve
  serve-Keeps req asked w i = route-Keeps _ _ req _ (λ c found body. asked c (found, body)) w i

-- The state after some requests, one after the other.
unfoldable pub serve_all : (p : Platform) → AuthHandler → List Request → World p → World p
serve_all p h [] w = w
serve_all p h (req ∷ reqs) w = serve_all p h reqs (Routes.serve p h req w).1

-- One of the requests is a registration with the body.
abbrev pub Registers : List Request → Credentials → Type 0
Registers [] c = ⊥
Registers (req ∷ reqs) c = IsRegistration req c ⊎ Registers reqs c

module _ {p : Platform} {I : World p → Type 0} {Fresh : Text → Type 0}
    {Asked : Credentials → Type 0} (k : Kept p I Fresh Asked) (h : AuthHandler) where
  pub serve_all-Asked :
      (reqs : List Request) (w : World p)
      → ((c : Credentials) → Registers reqs c → Asked c)
      → I w
      → I (serve_all p h reqs w)
  unfolding serve_all
  serve_all-Asked [] w asked i = i
  serve_all-Asked (req ∷ reqs) w asked i =
      serve_all-Asked reqs _ (λ c later. asked c (inr later))
        (serve-Keeps k h req (λ c now. asked c (inl now)) w i)

-- For an invariant that holds whatever is registered.
pub serve_all-Keeps :
    {p : Platform} {I : World p → Type 0} {Fresh : Text → Type 0}
    → Kept p I Fresh (λ c. Unit {0})
    → (h : AuthHandler) (reqs : List Request) (w : World p) → I w
    → I (serve_all p h reqs w)
serve_all-Keeps k h reqs w i = serve_all-Asked k h reqs w (λ c asked. tt) i
