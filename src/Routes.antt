-- ===== src/Routes.antt =====
-- internal/handlers/routes.go: the routes with the middleware in front of each.
pub mod Access
pub mod Journey
use secure_auth_gateway.Prelude.{
  Bool, true, false, ◌&&◌, ◌||◌, Option, none, some, [], ◌∷◌, List, String, Text, codes,
  if◌then◌else◌,
}
use text.Mathlib.Text.{◌==◌, starts_with}
use secure_auth_gateway.Platform.{Platform}
use secure_auth_gateway.Platform.World.{M, ◌>>=◌, pure, limiter_call}
use secure_auth_gateway.Http.{Request, Response}
use secure_auth_gateway.Tokens
use secure_auth_gateway.Tokens.{verifier}
use secure_auth_gateway.Gate.{security_headers, authenticate_token, require_role}
use secure_auth_gateway.Handlers.Responses.{AuthHandler}
use secure_auth_gateway.Handlers.Register
use secure_auth_gateway.Handlers.Login
use secure_auth_gateway.Handlers.Session
use secure_auth_gateway.Handlers.PublicKey

pub data Endpoint : Type 0 where
  health public_key register login refresh logout admin_health user_health : Endpoint

pub record Route : Type 0 where
  pub method : String
  pub path : String
  pub endpoint : Endpoint

abbrev pub routes : List Route
routes =
    record { method = "GET"; path = "/api/v1/health"; endpoint = health }
    ∷ record { method = "GET"; path = "/.well-known/paseto-public-key"; endpoint = public_key }
    ∷ record { method = "POST"; path = "/api/v1/auth/register"; endpoint = register }
    ∷ record { method = "POST"; path = "/api/v1/auth/login"; endpoint = login }
    ∷ record { method = "POST"; path = "/api/v1/auth/refresh"; endpoint = refresh }
    ∷ record { method = "POST"; path = "/api/v1/auth/logout"; endpoint = logout }
    ∷ record { method = "GET"; path = "/api/v1/admin/health"; endpoint = admin_health }
    ∷ record { method = "GET"; path = "/api/v1/user/health"; endpoint = user_health }
    ∷ []

-- A fixed pattern takes the requests with its method and its path.
unfoldable pub find_route : Request → List Route → Option Endpoint
find_route req [] = none
find_route req (route ∷ rest) =
    let later = find_route req rest in
    if route.method == req.method && route.path == req.path then some route.endpoint else later

-- `r.Route` mounts a group, whose middleware runs for every path below it.
pub data Group : Type 0 where
  open_group auth_group admin_group user_group : Group

unfoldable pub group_of : String → Group
group_of path =
    if path == "/api/v1/auth" || starts_with path "/api/v1/auth/"
    then auth_group
    else if path == "/api/v1/admin" || starts_with path "/api/v1/admin/"
    then admin_group
    else if starts_with path "/api/v1/user/"
    then user_group
    else open_group

-- The response before anything is written.
abbrev pub fresh_response : Response
fresh_response = record { headers = []; cookies = []; status = none; body = [] }

module _ (p : Platform) (h : AuthHandler) where
  unfoldable pub run_endpoint : Option Endpoint → Request → Response → M p Response
  run_endpoint none req r = pure (p.unrouted req r)
  run_endpoint (some health) req r = pure (PublicKey.health r)
  run_endpoint (some public_key) req r =
      pure (PublicKey.public_key_handler (Tokens.public_key p h.access_token_maker) r)
  run_endpoint (some register) req r = Register.register p req r
  run_endpoint (some login) req r = Login.login p h req r
  run_endpoint (some refresh) req r = Session.refresh p h req r
  run_endpoint (some logout) req r = Session.logout p h req r
  run_endpoint (some admin_health) req r = pure (PublicKey.admin_health r)
  run_endpoint (some user_health) req r = pure (PublicKey.user_health r)

  -- What the limiter lets through goes on.
  unfoldable pub limited : Bool × Response → Option Endpoint → Request → M p Response
  unfolding run_endpoint
  limited (true, r) endpoint req = run_endpoint endpoint req r
  limited (false, r) endpoint req = pure r

  -- The token check, and then the role.
  unfoldable pub protected : Text → Option Endpoint → Request → Response → M p Response
  unfolding run_endpoint
  protected role endpoint req r =
      authenticate_token p (verifier p h.access_token_maker) req
        (require_role p role (λ _ r'. run_endpoint endpoint req r')) r

  unfoldable pub route : Group → Option Endpoint → Request → Response → M p Response
  unfolding limited protected run_endpoint
  route open_group endpoint req r = run_endpoint endpoint req r
  route auth_group endpoint req r =
      limiter_call p req.client_ip r >>= λ verdict. limited verdict endpoint req
  route admin_group endpoint req r = protected (codes "admin") endpoint req r
  route user_group endpoint req r = protected (codes "user") endpoint req r

  -- A request, from the connection to its response.
  unfoldable pub serve : Request → M p Response
  unfolding route find_route group_of
  serve req =
      route (group_of req.path) (find_route req routes) req (security_headers fresh_response)
